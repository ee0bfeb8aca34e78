-- ===== src/WorkspacePath/Names.antt =====
-- workspace_path.rs: names as components of paths.
use rust_doctor.Prelude.{
  any-append, ℕ, ◌≡◌, refl, ◌∙◌, ap, inl, inr, Bool, true, false, not, ◌&&◌, ◌||◌, some, List, [],
  ◌∷◌, ◌++◌, map, arith, ◌==◌, is_empty, any, all, same, list_ord, nat_ord, Bool-cases,
}
use rust_doctor.Report.{Text, codes}
use rust_doctor.PathGlob.{slash, split, is_control}
use rust_doctor.Utf8.{utf8, is_scalar}
use rust_doctor.WorkspacePath.{
  percent, hex_digit, escape_bytes, safe_character, safe_component, normal, components_of_parts,
  path_components, safe_components, joined, is_absolute,
}

-- A name that is one component of a path.
abbrev pub is_name : Text → Bool
is_name part =
    not (is_empty part)
    && not (any (λ c. c == slash) part)
    && not (same part (codes "."))
    && not (same part (codes ".."))
    && all is_scalar part

split-name : (part : Text) → any (λ c. c == slash) part ≡ false → split slash part ≡ part ∷ []
split-name [] h = refl
split-name (c ∷ cs) h = elim (Bool-cases (c == slash)) [
  | inl e ↦ absurd (ground arith)
  | inr e ↦ rw (e, split-name cs (ground arith)) refl
]

split-name_slash :
    (part rest : Text)
    → any (λ c. c == slash) part ≡ false
    → split slash (part ++ slash ∷ rest) ≡ part ∷ split slash rest
split-name_slash [] rest h = refl
split-name_slash (c ∷ cs) rest h = elim (Bool-cases (c == slash)) [
  | inl e ↦ absurd (ground arith)
  | inr e ↦ rw (e, split-name_slash cs rest (ground arith)) refl
]

pub split-joined :
    (part : Text) (parts : List Text)
    → all (λ p. not (any (λ c. c == slash) p)) (part ∷ parts) ≡ true
    → split slash (joined (part ∷ parts)) ≡ part ∷ parts
split-joined part [] h = split-name part (ground arith)
split-joined part (next ∷ parts) h =
    split-name_slash part (joined (next ∷ parts)) (ground arith)
    ∙ ap (λ ps. part ∷ ps) (split-joined next parts (ground arith))

escape_bytes-slash : (bs : List ℕ) → any (λ c. c == slash) (escape_bytes bs) ≡ false
unfolding hex_digit
escape_bytes-slash [] = refl
escape_bytes-slash (b ∷ bs) = ground (arith, escape_bytes-slash bs)

pub safe_component-slash :
    (part : Text)
    → any (λ c. c == slash) part ≡ false
    → any (λ c. c == slash) (safe_component part) ≡ false
unfolding safe_component safe_character
safe_component-slash [] h = refl
safe_component-slash (c ∷ cs) h = elim (Bool-cases (c == percent || is_control c)) [
  | inl e ↦
      rw
        (
          e,
          safe_character,
          any-append (λ c. c == slash) (escape_bytes (utf8 c)) (safe_component cs),
          escape_bytes-slash (utf8 c),
        )
        (safe_component-slash cs (ground arith))
  | inr e ↦ rw (e, safe_character) (ground (arith, safe_component-slash cs))
]

pub safe_component-filled :
    (part : Text) → is_empty part ≡ false → is_empty (safe_component part) ≡ false
unfolding safe_component safe_character utf8
safe_component-filled [] h = cc
safe_component-filled (c ∷ cs) h = ground arith

components-names :
    (parts : List Text) → all is_name parts ≡ true → components_of_parts parts ≡ map normal parts
components-names [] h = refl
components-names (part ∷ parts) h = rw (components-names parts (ground arith)) (ground arith)

pub path_components-names :
    (parts : List Text) → all is_name parts ≡ true → path_components parts ≡ map normal parts
unfolding path_components
path_components-names [] h = refl
path_components-names (part ∷ parts) h = rw (components-names parts (ground arith)) (ground arith)

pub safe_components-names :
    (allow : Bool) (parts : List Text)
    → safe_components allow (map normal parts) ≡ some (map safe_component parts)
unfolding safe_components
safe_components-names allow [] = refl
safe_components-names allow (part ∷ parts) = rw (safe_components-names allow parts) refl

pub not_absolute :
    (part : Text) (parts : List Text)
    → is_name part ≡ true
    → is_absolute (joined (part ∷ parts)) ≡ false
not_absolute [] parts h = absurd (ground arith)
not_absolute (c ∷ cs) [] h = ground arith
not_absolute (c ∷ cs) (next ∷ parts) h = ground arith
