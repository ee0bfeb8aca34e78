-- ===== src/Utf8.antt =====
-- The encoding of characters as bytes by the standard library, which workspace_path.rs and
-- git_scope/lines.rs use.
use rust_doctor.Prelude.{
  ℕ, zero, suc, ◌+◌, ◌-◌, ◌*◌, ◌/◌, ◌%◌, Bool, true, false, ◌&&◌, ◌||◌, Option, none, some, List,
  [], ◌∷◌, ◌++◌, ltb, leb, if◌then◌else◌, list_ord, nat_ord,
}
use rust_doctor.Report.{Text}

-- `char::encode_utf8`.
unfoldable pub utf8 : ℕ → List ℕ
utf8 c =
    if ltb c 128
    then c ∷ []
    else if ltb c 2048
    then (192 + c / 64) ∷ (128 + c % 64) ∷ []
    else if ltb c 65536
    then (224 + c / 4096) ∷ (128 + c / 64 % 64) ∷ (128 + c % 64) ∷ []
    else (240 + c / 262144) ∷ (128 + c / 4096 % 64) ∷ (128 + c / 64 % 64) ∷ (128 + c % 64) ∷ []

-- A code point that a `char` can be.
abbrev pub is_scalar : ℕ → Bool
is_scalar c = ltb c 55296 || leb 57344 c && ltb c 1114112

abbrev pub continues : ℕ → Bool
continues b = leb 128 b && ltb b 192

-- A decoded character: a scalar of no shorter form.
abbrev pub check : ℕ → ℕ → Option Text → Option Text
check least c none = none
check least c (some text) = if leb least c && is_scalar c then some (c ∷ text) else none

-- `from_utf8`: the bytes that a character still needs, its value so far and the least value of its form.
unfoldable pub decode_utf8 : List ℕ → ℕ → ℕ → ℕ → Option Text
decode_utf8 [] zero value least = some []
decode_utf8 [] (suc left) value least = none
decode_utf8 (b ∷ bs) zero value least = elim (ltb b 128) [
  | true ↦ check 0 b (decode_utf8 bs 0 0 0)
  | false ↦ elim (leb 192 b && ltb b 224) [
    | true ↦ decode_utf8 bs 1 (b - 192) 128
    | false ↦ elim (leb 224 b && ltb b 240) [
      | true ↦ decode_utf8 bs 2 (b - 224) 2048
      | false ↦ elim (leb 240 b && ltb b 248) [
        | true ↦ decode_utf8 bs 3 (b - 240) 65536
        | false ↦ none
      ]
    ]
  ]
]
decode_utf8 (b ∷ bs) (suc zero) value least = elim (continues b) [
  | true ↦ check least (value * 64 + (b - 128)) (decode_utf8 bs 0 0 0)
  | false ↦ none
]
decode_utf8 (b ∷ bs) (suc (suc left)) value least = elim (continues b) [
  | true ↦ decode_utf8 bs (suc left) (value * 64 + (b - 128)) least
  | false ↦ none
]

unfoldable pub from_utf8 : List ℕ → Option Text
unfolding decode_utf8
from_utf8 bytes = decode_utf8 bytes 0 0 0

abbrev pub bytes_of : Text → List ℕ
bytes_of [] = []
bytes_of (c ∷ cs) = utf8 c ++ bytes_of cs
