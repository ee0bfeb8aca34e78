-- ===== src/Lib.antt =====
-- rust-doctor scans a Rust workspace, scores what it finds and compares it with a base. This library
-- models the parts of it that compute: the audit and its score, the delta between two scans, the
-- exclusions and suppressions of findings, the globs of paths, the text that reaches a terminal, and the
-- keys of the interactive view.
--
-- The parts and their files:
-- * Prelude, BTree: lists, Boolean tests and orders over native numbers, and the ordered maps and sets of
--   the standard library as lists in key order.
-- * Report (src/report.rs): the findings that pass from part to part.
-- * Audit (src/audit.rs and src/audit/*.rs): Audit.Counts has the saturating counters, Audit.Categories the
--   tallies, Audit.Aggregate the loop of `aggregate_rules`, Audit.Density the densities and dimension
--   scores, Audit.Tiers and Audit.Ceilings the ceilings, Audit.Ranking the projection of repairs,
--   Audit.Score `score` and `AuditScore::is_valid`, and Audit.Build the audit of a workspace and of its
--   packages with `Audit::is_valid`. Audit.Validity holds the proofs on them, by what they prove.
-- * Delta (src/delta.rs, src/delta/diff_map.rs): Delta.Nearest has `nearest`, Delta.Matching a pass of
--   `Matching`, Delta.Summary the five passes and the report, Delta.DiffMap the renames and the line map.
--   The other children hold proofs.
-- * Exclusion (src/report/exclusion.rs): what removes or suppresses findings, with the edit distance.
-- * PathGlob (src/path_glob.rs): parser and matcher of globs, used by Exclusion for ignored paths.
-- * Policy (src/policy.rs, src/policy/paths.rs): Policy.Levels has levels and overrides, Policy.Accepted
--   `accepted` and `ValidatedPolicy::of`, Policy.Plan `compile_rules`, the plan and its answers, of which
--   `path_level` is an argument of Exclusion.
-- * Gate (src/report/assembly.rs, src/report.rs): the gates on findings and the exit codes of a report.
-- * Merge (src/report/normalize.rs): the merge of findings by their fingerprints.
-- * WorkspacePath (src/workspace_path.rs): the normal form of relative paths and its decoding.
-- * GitScope (src/git_scope/items.rs, src/git_scope/lines.rs): whether an item holds a changed line, and in
--   GitScope.Patch the patch parser, whose paths WorkspacePath brings into normal form.
-- * Structure (src/structure/normalize.rs, src/structure/duplication.rs): Structure.Similarity has
--   `similarity` and its bound, Structure.Components the union-find of similar functions.
-- * TerminalText (src/terminal_text.rs): removal of escape sequences, and truncation.
-- * Tui (src/tui.rs, src/tui/*.rs): Tui.Layout has `resolve_layout` and `visible_start`, Tui.Entries
--   `build_entries`, Tui.App the state, Tui.Menus and Tui.Input the handlers of keys, Tui.Run the loop of `App::run`
--   over a list of keys, each with what the clipboard, the browser and the installer answer to it.
--   Tui.Input.Session has the states that keys reach, as a step relation.
--
-- How the code is read. State that the code mutates is a value that an operation takes and returns. A
-- text is the list of its code points. `usize` counters that the code saturates are cut off at 2^64 - 1;
-- sums that the code does not saturate are unbounded, as they count lines, columns and findings in
-- memory. The 64-bit floats of the densities are a record of the operations that the code applies, with
-- the order laws that the proofs use; whole numbers are an instance. The tables of rules, the answers of
-- the policy plan and the widths of characters are arguments. The loop of `strip_escapes` runs on fuel,
-- the length of the text, which is enough since each round takes a character;
-- the loop of `root` on one more than the index, as every round takes a lesser index.
--
-- Not modelled: processes, files, git and Cargo calls, the syntax trees that the rules read, rendering,
-- painting, and the serialisers.
mod Prelude
mod BTree
pub mod Report
pub mod Audit
pub mod PathGlob
pub mod Policy
pub mod Delta
pub mod Exclusion
pub mod Gate
pub mod Merge
mod Utf8
pub mod WorkspacePath
pub mod GitScope
pub mod Structure
pub mod TerminalText
pub mod Tui
mod Tests
