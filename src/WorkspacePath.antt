-- ===== src/WorkspacePath.antt =====
-- workspace_path.rs: the normal form of paths under the workspace. A path is a text of code points with
-- slashes, as on Unix; `utf8` and `from_utf8` are the encoding of the standard library.
pub mod Decoded
pub mod Names
pub mod RoundTrip
use rust_doctor.Prelude.{
  ℕ, zero, suc, ◌+◌, ◌-◌, ◌*◌, ◌/◌, ◌%◌, Bool, true, false, not, ◌&&◌, ◌||◌, Option, none, some,
  List, [], ◌∷◌, ◌++◌, map, ltb, leb, ◌==◌, if◌then◌else◌, is_empty, any, same, list_ord, nat_ord,
  and_then,
}
use rust_doctor.Report.{Text, codes}
use rust_doctor.PathGlob.{slash, split, is_control}
use rust_doctor.Utf8.{bytes_of, check, continues, decode_utf8, from_utf8, is_scalar, utf8}

abbrev pub percent : ℕ
percent = 37

-- `HEX`.
unfoldable pub hex_digit : ℕ → ℕ
hex_digit n = if ltb n 10 then 48 + n else 65 + (n - 10)

unfoldable pub hex_value : ℕ → Option ℕ
hex_value b =
    if leb 48 b && leb b 57
    then some (b - 48)
    else if leb 65 b && leb b 70
    then some (b - 65 + 10)
    else none

abbrev pub escape_bytes : List ℕ → Text
escape_bytes [] = []
escape_bytes (b ∷ bs) = percent ∷ hex_digit (b / 16) ∷ hex_digit (b % 16) ∷ escape_bytes bs

unfoldable pub safe_character : ℕ → Text
unfolding hex_digit utf8
safe_character c = if c == percent || is_control c then escape_bytes (utf8 c) else c ∷ []

-- `safe_component`, of a component that is Unicode.
unfoldable pub safe_component : Text → Text
unfolding safe_character
safe_component [] = []
safe_component (c ∷ cs) = safe_character c ++ safe_component cs

-- The components of a relative path: a current directory is one only at the start.
pub data Component : Type 0 where
  normal : Text → Component
  current parent : Component

abbrev pub component : Text → List Component → List Component
component part rest =
    if is_empty part
    then rest
    else if same part (codes ".")
    then rest
    else if same part (codes "..")
    then parent ∷ rest
    else normal part ∷ rest

abbrev pub components_of_parts : List Text → List Component
components_of_parts [] = []
components_of_parts (part ∷ parts) = component part (components_of_parts parts)

unfoldable pub path_components : List Text → List Component
path_components [] = []
path_components (part ∷ parts) =
    let rest = components_of_parts parts in
    if same part (codes ".") then current ∷ rest else component part rest

unfoldable pub safe_components : Bool → List Component → Option (List Text)
unfolding safe_component
safe_components allow_current [] = some []
safe_components allow_current (normal part ∷ rest) =
    and_then (safe_components allow_current rest) (λ parts. some (safe_component part ∷ parts))
safe_components allow_current (current ∷ rest) =
    and_then (safe_components allow_current rest)
      (λ parts. if allow_current then some (codes "." ∷ parts) else none)
safe_components allow_current (parent ∷ rest) = none

-- `[_]::join("/")`.
abbrev pub joined : List Text → Text
joined [] = []
joined (part ∷ []) = part
joined (part ∷ next ∷ parts) = part ++ slash ∷ joined (next ∷ parts)

abbrev pub is_absolute : Text → Bool
is_absolute [] = false
is_absolute (c ∷ cs) = c == slash

abbrev pub or_current : Bool → Text → Option Text
or_current allow_current [] = if allow_current then some (codes ".") else none
or_current allow_current (c ∷ cs) = some (c ∷ cs)

unfoldable pub normalize_components : Text → Bool → Option Text
unfolding path_components safe_components
normalize_components path allow_current =
    if is_absolute path
    then none
    else and_then (safe_components allow_current (path_components (split slash path)))
        (λ parts. or_current allow_current (joined parts))

unfoldable pub normalize_relative : Text → Option Text
unfolding normalize_components
normalize_relative path = normalize_components path true

unfoldable pub normalize_changed : Text → Option Text
unfolding normalize_components
normalize_changed path =
    if is_empty path || any is_empty (split slash path)
    then none
    else normalize_components path false

-- What the loop of `decode_normalized_relative` expects of the next byte.
pub data Reading : Type 0 where
  plain high : Reading
  low : ℕ → Reading

unfoldable pub decode_percent : List ℕ → Reading → Option (List ℕ)
unfolding hex_value
decode_percent [] plain = some []
decode_percent [] high = none
decode_percent [] (low h) = none
decode_percent (b ∷ bs) plain = elim (b == percent) [
  | true ↦ decode_percent bs high
  | false ↦ and_then (decode_percent bs plain) (λ rest. some (b ∷ rest))
]
decode_percent (b ∷ bs) high = elim (hex_value b) [
  | none ↦ none
  | some h ↦ decode_percent bs (low h)
]
decode_percent (b ∷ bs) (low h) = elim (hex_value b) [
  | none ↦ none
  | some l ↦ and_then (decode_percent bs plain) (λ rest. some ((h * 16 + l) ∷ rest))
]

unfoldable pub decode_component : Text → Option Text
unfolding decode_percent from_utf8 utf8
decode_component part = and_then (decode_percent (bytes_of part) plain) from_utf8

abbrev pub ends_in_slash : Text → Bool
ends_in_slash [] = false
ends_in_slash (c ∷ []) = c == slash
ends_in_slash (c ∷ d ∷ cs) = ends_in_slash (d ∷ cs)

-- `PathBuf::push`.
unfoldable pub pushed : Text → Text → Text
pushed path part =
    if is_absolute part || is_empty path
    then part
    else if ends_in_slash path
    then path ++ part
    else path ++ slash ∷ part

unfoldable pub decode_parts : List Text → Text → Option Text
unfolding decode_component pushed
decode_parts [] path = some path
decode_parts (part ∷ parts) path =
    and_then (decode_component part) (λ decoded. decode_parts parts (pushed path decoded))

abbrev pub if_normal : Text → Text → Option Text → Option Text
if_normal path decoded none = none
if_normal path decoded (some normalized) = if same normalized path then some decoded else none

unfoldable pub decode_normalized_relative : Text → Option Text
unfolding decode_parts normalize_relative
decode_normalized_relative path =
    if is_empty path || any is_empty (split slash path)
    then none
    else and_then (decode_parts (split slash path) [])
        (λ decoded. if_normal path decoded (normalize_relative decoded))
