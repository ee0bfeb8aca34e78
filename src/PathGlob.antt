-- ===== src/PathGlob.antt =====
-- path_glob.rs: the globs of ignored paths, their parser and their matching. Characters are code
-- points.
pub mod Grammar
pub mod Below
pub mod Pieces
pub mod Segments
pub mod Parsed
use rust_doctor.Prelude.{
  ℕ, zero, suc, ◌≡◌, Bool, true, false, not, ◌&&◌, ◌||◌, Option, none, some, List, [], ◌∷◌, ◌++◌,
  map, arith, leb, ltb, ◌==◌, if◌then◌else◌, is_empty, any, retain, and_then,
}
use rust_doctor.Report.{Text}

pub data Segment : Type 0 where
  any_depth : Segment
  name : Text → Segment

pub record PathGlob : Type 0 where
  pub pattern : Text
  pub segments : List Segment

abbrev pub slash : ℕ
slash = 47

abbrev pub star : ℕ
star = 42

abbrev pub question : ℕ
question = 63

abbrev pub push_front : ℕ → List Text → List Text
push_front x [] = (x ∷ []) ∷ []
push_front x (part ∷ parts) = (x ∷ part) ∷ parts

-- `str::split`: one part more than there are separators.
abbrev pub split : ℕ → Text → List Text
split c [] = [] ∷ []
split c (x ∷ xs) = if x == c then [] ∷ split c xs else push_front x (split c xs)

-- `str::strip_suffix('/').unwrap_or`.
abbrev pub strip_slash : Text → Text
strip_slash [] = []
strip_slash (x ∷ []) = if x == slash then [] else x ∷ []
strip_slash (x ∷ y ∷ xs) = x ∷ strip_slash (y ∷ xs)

-- `char::is_control`: the code points 0 to 31 and 127 to 159.
abbrev pub is_control : ℕ → Bool
is_control c = leb c 31 || leb 127 c && leb c 159

unfoldable pub is_refused : ℕ → Bool
is_refused c = c == 91 || c == 93 || c == 123 || c == 125 || c == 33 || c == 92 || is_control c

abbrev pub starts_with_slash : Text → Bool
starts_with_slash [] = false
starts_with_slash (c ∷ cs) = c == slash

abbrev pub has_double_star : Text → Bool
has_double_star [] = false
has_double_star (a ∷ []) = false
has_double_star (a ∷ b ∷ cs) = a == star && b == star || has_double_star (b ∷ cs)

abbrev pub is_dots : Text → Bool
is_dots (a ∷ []) = a == 46
is_dots (a ∷ b ∷ []) = a == 46 && b == 46
is_dots _ = false

abbrev pub is_double_star : Text → Bool
is_double_star (a ∷ b ∷ []) = a == star && b == star
is_double_star _ = false

unfoldable pub parse_segment : Text → Option Segment
parse_segment segment =
    if is_empty segment || is_dots segment
    then none
    else if is_double_star segment
    then some any_depth
    else if has_double_star segment
    then none
    else some (name segment)

-- `collect::<Result<_, _>>`: the first refusal is the answer.
abbrev pub parse_segments : List Text → Option (List Segment)
parse_segments [] = some []
parse_segments (s ∷ ss) =
    and_then (parse_segment s) (λ one. and_then (parse_segments ss) (λ rest. some (one ∷ rest)))

unfoldable pub parse : Text → Option PathGlob
unfolding parse_segment is_refused
parse pattern =
    let trimmed = strip_slash pattern in
    if is_empty trimmed || starts_with_slash trimmed || any is_refused trimmed
    then none
    else and_then (parse_segments (split slash trimmed))
        (λ segments. some (record { pattern = pattern; segments = segments }))

-- `(0..=xs.len())` with `xs.get(skip..)`, and `(1..=xs.len())` with `xs.get(..depth)`.
abbrev pub suffixes {ℓ} : {A : Type ℓ} → List A → List (List A)
suffixes [] = [] ∷ []
suffixes (x ∷ xs) = (x ∷ xs) ∷ suffixes xs

abbrev pub prefixes {ℓ} : {A : Type ℓ} → List A → List (List A)
prefixes [] = []
prefixes (x ∷ xs) = (x ∷ []) ∷ map (λ part. x ∷ part) (prefixes xs)

unfoldable pub matches_name : Text → Text → Bool
matches_name [] text = is_empty text
matches_name (c ∷ rest) text =
    if c == star then any (λ tail. matches_name rest tail) (suffixes text) else elim text [
      | [] ↦ false
      | first ∷ tail ↦ (c == question || first == c) && matches_name rest tail
    ]

unfoldable pub matches_segments : List Segment → List Text → Bool
unfolding matches_name
matches_segments [] path = is_empty path
matches_segments (any_depth ∷ rest) path = any (λ tail. matches_segments rest tail) (suffixes path)
matches_segments (name n ∷ rest) [] = false
matches_segments (name n ∷ rest) (first ∷ tail) = matches_name n first && matches_segments rest tail

abbrev pub components : Text → List Text
components path = retain (λ segment. not (is_empty segment)) (split slash path)

unfoldable pub matches : PathGlob → Text → Bool
unfolding matches_segments
matches glob path =
    any (λ prefix. matches_segments glob.segments prefix) (prefixes (components path))
