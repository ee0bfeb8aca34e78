-- ===== src/GitScope/Patch.antt =====
-- git_scope/lines.rs, `parse_patch`: the changed lines of every file of a patch. A patch is its bytes.
pub mod Bodies
pub mod Bounded
use rust_doctor.Prelude.{
  ℕ, zero, suc, ◌+◌, ◌-◌, ◌*◌, ◌^◌, Bool, true, false, not, ◌&&◌, ◌||◌, Option, none, some, List,
  [], ◌∷◌, ◌++◌, ltb, leb, ◌==◌, if◌then◌else◌, is_empty, length, same, list_ord, nat_ord, and_then,
  Result, err, ok, try_then, ok_or,
}
use rust_doctor.BTree.{Map, entry}
use rust_doctor.Report.{Text, codes}
use rust_doctor.Audit.Counts.{word_max}
use rust_doctor.PathGlob.{split}
use rust_doctor.Policy.Levels.{split_once, is_digit}
use rust_doctor.Utf8.{from_utf8}
use rust_doctor.WorkspacePath.{normalize_changed}
use rust_doctor.GitScope.{FileChanges}
use rust_doctor.GitScope.NewPath.{
  PatchError, invalid_patch, invalid_path, Quoted, checked_path, escaped, is_octal, new_side_path,
  octal, path_limit, plain, simple_escape, starts_quoted, strip_last, strip_prefix, unescape,
  unquote, without_tab,
}

pub data NewSide : Type 0 where
  lines : ℕ → ℕ → NewSide
  after : ℕ → NewSide

abbrev pub LineRanges : Type 0
LineRanges = Map Text FileChanges

-- `str::parse` of a word: an optional plus sign and digits.
abbrev pub word : ℕ → Text → Option ℕ
word value [] = if leb value word_max then some value else none
word value (c ∷ cs) = if is_digit c then word (value * 10 + (c - 48)) cs else none

unfoldable pub parse_word : Text → Option ℕ
parse_word [] = none
parse_word (c ∷ []) = if is_digit c then some (c - 48) else none
parse_word (c ∷ d ∷ cs) = if c == 43 then word 0 (d ∷ cs) else word 0 (c ∷ d ∷ cs)

-- The first field that starts with a sign.
abbrev pub signed_field : ℕ → List Text → Option Text
signed_field sign [] = none
signed_field sign (field ∷ fields) = elim (strip_prefix (sign ∷ []) field) [
  | none ↦ signed_field sign fields
  | some rest ↦ some rest
]

abbrev pub or_one : Text → Option (Text × Text) → Text × Text
or_one field none = (field, codes "1")
or_one field (some parts) = parts

-- The closure `side`.
unfoldable pub side : ℕ → List Text → Option (ℕ × ℕ)
unfolding parse_word
side sign fields = and_then (signed_field sign fields) (λ field.
    let (start, count) = or_one field (split_once 44 field) in
    and_then (parse_word start) (λ s. and_then (parse_word count) (λ c. some (s, c))))

unfoldable pub new_side : ℕ → ℕ → Option NewSide
new_side start count =
    if count == 0
    then some (after start)
    else if ltb 0 start && leb (start + (count - 1)) word_max
    then some (lines start (start + (count - 1)))
    else none

unfoldable pub hunk_counts : List ℕ → Option (ℕ × NewSide)
unfolding side new_side
hunk_counts header = and_then (from_utf8 header) (λ text. and_then (side 45 (split 32 text)) (λ old.
    and_then (side 43 (split 32 text))
      (λ new. and_then (new_side new.0 new.1) (λ s. some (old.1, s)))))

-- The variables of the loop of `parse_patch`.
pub record Reader : Type 0 where
  pub ranges : LineRanges
  pub current : Option (Option Text)
  pub pending : ℕ

unfoldable pub recorded : NewSide → FileChanges → FileChanges
recorded (lines start last) changes = record changes {
  ranges = changes.ranges ++ (start, last) ∷ [];
}
recorded (after line) changes = record changes { deletions = changes.deletions ++ line ∷ [] }

abbrev pub added : NewSide → ℕ
added (lines start last) = last - start + 1
added (after line) = 0

abbrev pub no_changes : FileChanges
no_changes = record { ranges = []; deletions = [] }

abbrev pub record_side : Option Text → NewSide → LineRanges → LineRanges
record_side none new ranges = ranges
record_side (some path) new ranges = entry path no_changes (recorded new) ranges

abbrev pub is_body : ℕ → Bool
is_body c = c == 43 || c == 45 || c == 32

unfoldable pub body_line : List ℕ → Reader → Result PatchError Reader
body_line [] reader = err invalid_patch
body_line (c ∷ cs) reader =
    if is_body c
    then ok (record reader { pending = reader.pending - 1 })
    else if c == 92
    then ok reader
    else err invalid_patch

unfoldable pub hunk_line :
    Option (Option Text) → Option (ℕ × NewSide) → Reader → Result PatchError Reader
unfolding recorded
hunk_line none counts reader = err invalid_patch
hunk_line (some path) none reader = err invalid_patch
hunk_line (some path) (some (old_count, new)) reader =
    if leb (old_count + added new) word_max
    then ok (record reader {
      ranges = record_side path new reader.ranges;
      pending = old_count + added new;
    })
    else err invalid_patch

unfoldable pub header_line : List ℕ → Reader → Result PatchError Reader
unfolding new_side_path hunk_counts hunk_line
header_line line reader = elim (strip_prefix (codes "+++ ") line) [
  | some target ↦
      try_then (new_side_path target) (λ path. ok (record reader { current = some path }))
  | none ↦ elim (strip_prefix (codes "@@ ") line) [
    | some header ↦ hunk_line reader.current (hunk_counts header) reader
    | none ↦ ok reader
  ]
]

unfoldable pub read_line : List ℕ → Reader → Result PatchError Reader
unfolding body_line header_line
read_line line reader =
    if ltb 0 reader.pending then body_line line reader else header_line line reader

unfoldable pub read_lines : List (List ℕ) → Reader → Result PatchError LineRanges
unfolding read_line
read_lines [] reader = if ltb 0 reader.pending then err invalid_patch else ok reader.ranges
read_lines (line ∷ rest) reader = try_then (read_line line reader) (read_lines rest)

unfoldable pub parse_patch : List ℕ → Result PatchError LineRanges
unfolding read_lines
parse_patch output =
    read_lines (split 10 output) (record { ranges = []; current = none; pending = 0 })
