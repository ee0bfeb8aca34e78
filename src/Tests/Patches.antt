-- ===== src/Tests/Patches.antt =====
-- The theorems on patches and on paths of the workspace.
use rust_doctor.Prelude.{ℕ, ◌≡◌, refl, some, [], ◌∷◌, ◌++◌, List, arith, ok, cmp_list, and_then}
use rust_doctor.BTree.{entry}
use rust_doctor.Report.{Text, codes}
use rust_doctor.Utf8.{from_utf8, decode_utf8}
use rust_doctor.WorkspacePath.{normalize_changed, decode_normalized_relative}
use rust_doctor.WorkspacePath.RoundTrip.{decode_normalized_relative-normalize_changed}
use rust_doctor.GitScope.NewPath.{new_side_path, checked_path}
use rust_doctor.GitScope.Patch.{
  lines, LineRanges, parse_patch, hunk_counts, side, new_side, parse_word, read_lines, read_line,
  body_line, header_line, hunk_line, recorded,
}
use rust_doctor.GitScope.Patch.Bodies.{FileText, HunkText, file_ranges, parse_patch-file_ranges}
use rust_doctor.GitScope.Patch.Bounded.{IsBounded, parse_patch-IsBounded}

abbrev hunk : HunkText
hunk = record {
  header = codes "-2 +2,2 @@";
  old_count = 1;
  new = lines 2 3;
  body = codes "-old" ∷ codes "+++ b/other" ∷ codes "+@@ -1 +1 @@" ∷ [];
}

abbrev file : FileText
file = record {
  preamble = codes "--- a/x" ∷ [];
  target = codes "b/x";
  path = some (codes "x");
  hunks = hunk ∷ [];
}

abbrev newline : Text
newline = 10 ∷ []

abbrev output : List ℕ
output =
    codes "--- a/x"
    ++ newline
    ++ codes "+++ b/x"
    ++ newline
    ++ codes "@@ -2 +2,2 @@"
    ++ newline
    ++ codes "-old"
    ++ newline
    ++ codes "+++ b/other"
    ++ newline
    ++ codes "+@@ -1 +1 @@"
    ++ newline

abbrev ranges : LineRanges
ranges = (codes "x", record { ranges = (2, 3) ∷ []; deletions = [] }) ∷ []

abbrev trailer : List (List ℕ)
trailer = [] ∷ []

parse_patch-file_ranges_example : parse_patch output ≡ ok (file_ranges (file ∷ []) [])
unfolding hunk_counts new_side_path from_utf8 decode_utf8 side parse_word new_side checked_path
    normalize_changed cmp_list
parse_patch-file_ranges_example =
    parse_patch-file_ranges output (file ∷ []) trailer
      ((((refl, refl), tt), refl, ((refl, omega arith, refl), tt)), tt) ((refl, refl), tt) refl

parse_patch-IsBounded_example : IsBounded ranges
unfolding parse_patch read_lines read_line body_line header_line hunk_line recorded entry cmp_list
    from_utf8 normalize_changed
parse_patch-IsBounded_example = parse_patch-IsBounded output ranges refl

decode_normalized_relative-normalize_changed_example :
    and_then (normalize_changed (codes "src/100%.rs")) decode_normalized_relative
    ≡ some (codes "src/100%.rs")
unfolding cmp_list
decode_normalized_relative-normalize_changed_example =
    decode_normalized_relative-normalize_changed (codes "src") (codes "100%.rs" ∷ []) refl
