-- ===== src/Tests/Texts.antt =====
-- The theorems on globs, exclusions, changed lines and terminal texts.
use rust_doctor.Prelude.{
  ℕ, ◌≤◌, ◌≡◌, ◌≢◌, ◌↔◌, ◌⊎◌, refl, true, Option, none, some, [], ◌∷◌, ◌++◌, all, Every, list_ord,
  nat_ord,
}
use rust_doctor.Report.{Text, codes}
use rust_doctor.PathGlob.{any_depth, name, PathGlob, parse, matches, components}
use rust_doctor.PathGlob.Grammar.{AtDepth, Denotes, matches-Denotes}
use rust_doctor.PathGlob.Parsed.{Writes, parse-Writes}
use rust_doctor.Exclusion.{Directive, Plan, ScanExclusions, suppress, apply}
use rust_doctor.Policy.Levels.{off, warn}
use rust_doctor.Exclusion.Distance.{edit_distance, from_end}
use rust_doctor.Exclusion.Scripts.{
  Reaches, kept, substituted, inserted, edit_distance-reached, edit_distance-least,
}
use rust_doctor.Exclusion.Applied.{Settles, suppress_lem}
use rust_doctor.Exclusion.Left.{Stays, level_on_path, apply-excludes}
use rust_doctor.TerminalText.{strip_escapes, display_width, truncate}
use rust_doctor.TerminalText.Stripped.{is_clean, strip_escapes-clean}
use rust_doctor.TerminalText.Cut.{display_width-truncate}
use rust_doctor.GitScope.{FileChanges, ItemLines, holds}
use rust_doctor.GitScope.Touched.{OwnsLine, OwnsPoint, holds-owns}
use rust_doctor.Tests.Data.{findings}

-- The glob `src/**/*.rs`.
abbrev glob : PathGlob
glob = record {
  pattern = codes "src/**/*.rs";
  segments = name (codes "src") ∷ any_depth ∷ name (codes "*.rs") ∷ [];
}

matches-Denotes_example :
    (matches glob (codes "src/a/b.rs") ≡ true)
    ↔ AtDepth (Denotes glob.segments) (components (codes "src/a/b.rs"))
matches-Denotes_example = matches-Denotes glob (codes "src/a/b.rs")

parse-Writes_example :
    (parse (codes "src/**/*.rs") ≡ some glob)
    ↔ ((glob.pattern ≡ codes "src/**/*.rs") × Writes (codes "src/**/*.rs") glob.segments)
parse-Writes_example = parse-Writes (codes "src/**/*.rs") glob

edit_distance-reached_example :
    Reaches
      (from_end (codes "cat") [])
      (from_end (codes "cart") [])
      (edit_distance (codes "cat") (codes "cart"))
edit_distance-reached_example = edit_distance-reached (codes "cat") (codes "cart")

edit_distance-least_example : edit_distance (codes "cat") (codes "cars") ≤ 2
edit_distance-least_example =
    edit_distance-least (codes "cat") (codes "cars") 2
      (inserted 115 ∷ substituted 116 114 ∷ kept 97 ∷ kept 99 ∷ [], refl, refl, refl)

abbrev directive : Directive
directive = record {
  path = codes "src/b.rs";
  line = 6;
  rules = codes "rust_doctor::b" ∷ [];
  has_reason = true;
  key = none;
}

suppress_lem_example :
    Settles
      (codes "rust_doctor::b" ∷ [])
      findings
      directive
      []
      (suppress (codes "rust_doctor::b" ∷ []) findings directive [])
suppress_lem_example = suppress_lem (codes "rust_doctor::b" ∷ []) findings directive []

abbrev plan : Plan
plan = record {
  ignore =
      record {
        pattern = codes "src/b.rs";
        segments = name (codes "src") ∷ name (codes "b.rs") ∷ [];
      }
      ∷ [];
  path_level = λ code path. some warn;
}

abbrev exclusions : ScanExclusions
exclusions = record {
  generated = codes "src/gen.rs" ∷ [];
  packages = some (codes "app" ∷ []);
  directives = directive ∷ [];
}

apply-excludes_example :
    Every
      (λ d. Stays plan exclusions d × (level_on_path plan d ≢ some off))
      (apply (codes "rust_doctor::b" ∷ []) findings plan exclusions []).0
apply-excludes_example = apply-excludes (codes "rust_doctor::b" ∷ []) findings plan exclusions []

-- A red word and a newline.
abbrev red : Text
red = 27 ∷ codes "[31mred" ++ 10 ∷ []

strip_escapes-clean_example : all (is_clean true) (strip_escapes red true) ≡ true
strip_escapes-clean_example = strip_escapes-clean red true

abbrev one_column : ℕ → Option ℕ
one_column c = some 1

display_width-truncate_example :
    display_width one_column (truncate one_column (codes "findings") 5) ≤ 5
display_width-truncate_example = display_width-truncate one_column (codes "findings") 5 refl

abbrev item : ItemLines
item = record { first = 4; last = 9; excluded = (6, 7) ∷ [] }

abbrev changes : FileChanges
changes = record { ranges = (6, 8) ∷ []; deletions = 3 ∷ [] }

holds-owns_example : (holds item changes ≡ true) ↔ (OwnsLine item changes ⊎ OwnsPoint item changes)
holds-owns_example = holds-owns item changes
