-- ===== src/GitScope/NewPath.antt =====
-- git_scope/lines.rs, `new_side_path`: the path of a file in a patch.
use rust_doctor.Prelude.{
  ℕ, ◌+◌, ◌-◌, ◌*◌, Bool, true, false, ◌&&◌, ◌||◌, Option, none, some, List, [], ◌∷◌, ltb, leb,
  ◌==◌, if◌then◌else◌, is_empty, length, same, list_ord, nat_ord, and_then, Result, ok, try_then,
  ok_or,
}
use rust_doctor.Report.{Text, codes}
use rust_doctor.Utf8.{from_utf8}
use rust_doctor.WorkspacePath.{normalize_changed}

pub data PatchError : Type 0 where
  invalid_patch invalid_path : PatchError

abbrev pub path_limit : ℕ
path_limit = 4096

-- `strip_prefix`, of slices and of texts.
abbrev pub strip_prefix : List ℕ → List ℕ → Option (List ℕ)
strip_prefix [] xs = some xs
strip_prefix (p ∷ ps) [] = none
strip_prefix (p ∷ ps) (x ∷ xs) = let rest = strip_prefix ps xs in if p == x then rest else none

-- `strip_suffix` of one byte.
abbrev pub strip_last : ℕ → List ℕ → Option (List ℕ)
strip_last c [] = none
strip_last c (x ∷ []) = if x == c then some [] else none
strip_last c (x ∷ y ∷ xs) = and_then (strip_last c (y ∷ xs)) (λ rest. some (x ∷ rest))

abbrev pub is_octal : ℕ → Bool
is_octal c = leb 48 c && leb c 55

-- The byte of an escape of one character.
unfoldable pub simple_escape : ℕ → Option ℕ
simple_escape c =
    if c == 34 || c == 92
    then some c
    else if c == 97
    then some 7
    else if c == 98
    then some 8
    else if c == 102
    then some 12
    else if c == 110
    then some 10
    else if c == 114
    then some 13
    else if c == 116
    then some 9
    else if c == 118
    then some 11
    else none

-- What the loop of `unquote` expects of the next byte; in an octal escape, whether one digit or two are
-- left, and the value so far.
pub data Quoted : Type 0 where
  plain escaped : Quoted
  octal : Bool → ℕ → Quoted

unfoldable pub unescape : List ℕ → Quoted → Option (List ℕ)
unfolding simple_escape
unescape [] plain = some []
unescape [] escaped = none
unescape [] (octal two value) = none
unescape (b ∷ bs) plain = elim (b == 92) [
  | true ↦ unescape bs escaped
  | false ↦ and_then (unescape bs plain) (λ rest. some (b ∷ rest))
]
unescape (b ∷ bs) escaped = elim (simple_escape b) [
  | some d ↦ and_then (unescape bs plain) (λ rest. some (d ∷ rest))
  | none ↦ elim (leb 48 b && leb b 51) [ true ↦ unescape bs (octal true (b - 48)) | false ↦ none ]
]
unescape (b ∷ bs) (octal true value) = elim (is_octal b) [
  | true ↦ unescape bs (octal false (value * 8 + (b - 48)))
  | false ↦ none
]
unescape (b ∷ bs) (octal false value) = elim (is_octal b) [
  | true ↦ and_then (unescape bs plain) (λ rest. some ((value * 8 + (b - 48)) ∷ rest))
  | false ↦ none
]

unfoldable pub unquote : List ℕ → Option (List ℕ)
unfolding unescape
unquote quoted =
    and_then (strip_prefix (34 ∷ []) quoted)
      (λ rest. and_then (strip_last 34 rest) (λ inner. unescape inner plain))

abbrev pub starts_quoted : List ℕ → Bool
starts_quoted [] = false
starts_quoted (b ∷ bs) = b == 34

abbrev pub without_tab : List ℕ → List ℕ
without_tab target = elim (strip_last 9 target) [ none ↦ target | some rest ↦ rest ]

unfoldable pub checked_path : List ℕ → Option Text
checked_path relative =
    if is_empty relative || ltb path_limit (length relative)
    then none
    else and_then (from_utf8 relative) normalize_changed

-- `new_side_path`: none is the null device.
unfoldable pub new_side_path : List ℕ → Result PatchError (Option Text)
unfolding unquote checked_path
new_side_path target =
    let bytes = without_tab target in
    if same bytes (codes "/dev/null")
    then ok none
    else try_then (if starts_quoted bytes then ok_or (unquote bytes) invalid_path else ok bytes)
        (λ unquoted.
          ok_or
            (and_then (and_then (strip_prefix (codes "b/") unquoted) checked_path)
              (λ path. some (some path)))
            invalid_path)
