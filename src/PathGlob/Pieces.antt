-- ===== src/PathGlob/Pieces.antt =====
-- path_glob.rs: the pieces that a slash separates, apart and joined.
use rust_doctor.Prelude.{
  any-append, append_nil, ℕ, ◌≡◌, refl, ◌∙◌, ap, inl, inr, Bool, true, false, not, ◌&&◌, ◌||◌, List,
  [], ◌∷◌, ◌++◌, arith, ◌==◌, is_empty, any, all, Bool-cases, ◌⊎◌,
}
use rust_doctor.Report.{Text}
use rust_doctor.PathGlob.{slash, split, push_front, strip_slash, starts_with_slash, is_refused}
use rust_doctor.WorkspacePath.{joined}

push_front_nonempty : (x : ℕ) (parts : List Text) → is_empty (push_front x parts) ≡ false
push_front_nonempty x [] = refl
push_front_nonempty x (p ∷ ps) = refl

pub split_nonempty : (c : ℕ) (text : Text) → is_empty (split c text) ≡ false
split_nonempty c [] = refl
split_nonempty c (x ∷ xs) = ground (arith, push_front_nonempty x (split c xs))

joined-push_front :
    (x : ℕ) (parts : List Text)
    → is_empty parts ≡ false
    → joined (push_front x parts) ≡ x ∷ joined parts
joined-push_front x [] h = absurd (ground arith)
joined-push_front x (p ∷ []) h = refl
joined-push_front x (p ∷ q ∷ ps) h = refl

joined-nil :
    (parts : List Text) → is_empty parts ≡ false → joined ([] ∷ parts) ≡ slash ∷ joined parts
joined-nil [] h = absurd (ground arith)
joined-nil (p ∷ ps) h = refl

pub joined-split : (text : Text) → joined (split slash text) ≡ text
joined-split [] = refl
joined-split (x ∷ xs) = elim (Bool-cases (x == slash)) [
  | inl e ↦
      rw (e, joined-nil (split slash xs) (split_nonempty slash xs), joined-split xs) (ground arith)
  | inr e ↦
      rw (e, joined-push_front x (split slash xs) (split_nonempty slash xs), joined-split xs) refl
]

-- A character that a segment may hold.
abbrev pub plain : ℕ → Bool
plain c = not (c == slash) && not (is_refused c)

push_front-plain :
    (x : ℕ) (parts : List Text)
    → plain x ≡ true
    → all (all plain) parts ≡ true
    → all (all plain) (push_front x parts) ≡ true
push_front-plain x [] h k = ground arith
push_front-plain x (p ∷ ps) h k = ground arith

pub split-plain :
    (text : Text) → any is_refused text ≡ false → all (all plain) (split slash text) ≡ true
split-plain [] h = refl
split-plain (x ∷ xs) h = elim (Bool-cases (x == slash)) [
  | inl e ↦ rw e (split-plain xs (ground arith))
  | inr e ↦
      rw e (push_front-plain x (split slash xs) (ground arith) (split-plain xs (ground arith)))
]

-- A piece with characters, all of them plain.
abbrev pub filled : Text → Bool
filled part = not (is_empty part) && all plain part

pub joined-filled :
    (part : Text) (parts : List Text)
    → filled part ≡ true
    → (is_empty (joined (part ∷ parts)) || starts_with_slash (joined (part ∷ parts))) ≡ false
joined-filled [] parts h = absurd (ground arith)
joined-filled (c ∷ cs) [] h = ground arith
joined-filled (c ∷ cs) (next ∷ parts) h = ground arith

plain-refused : (xs : Text) → all plain xs ≡ true → any is_refused xs ≡ false
plain-refused [] h = refl
plain-refused (x ∷ xs) h = ground (arith, plain-refused xs)

pub joined-refused :
    (parts : List Text) → all filled parts ≡ true → any is_refused (joined parts) ≡ false
unfolding is_refused
joined-refused [] h = refl
joined-refused (part ∷ []) h = plain-refused part (ground arith)
joined-refused (part ∷ next ∷ parts) h =
    any-append is_refused part (slash ∷ joined (next ∷ parts))
    ∙ ground
        (arith, plain-refused part (ground arith), joined-refused (next ∷ parts) (ground arith))

plain-slash : (xs : Text) → all plain xs ≡ true → any (λ c. c == slash) xs ≡ false
plain-slash [] h = refl
plain-slash (x ∷ xs) h = ground (arith, plain-slash xs)

pub filled-slash :
    (parts : List Text)
    → all filled parts ≡ true
    → all (λ p. not (any (λ c. c == slash) p)) parts ≡ true
filled-slash [] h = refl
filled-slash (part ∷ parts) h =
    ground (arith, plain-slash part (ground arith), filled-slash parts (ground arith))

-- What ends in no slash is left, and what ends in one loses it.
strip_slash-append :
    (xs : Text) (y : ℕ) (ys : Text) → strip_slash (xs ++ y ∷ ys) ≡ xs ++ strip_slash (y ∷ ys)
strip_slash-append [] y ys = refl
strip_slash-append (x ∷ []) y ys = refl
strip_slash-append (x ∷ z ∷ xs) y ys = ap (λ t. x ∷ t) (strip_slash-append (z ∷ xs) y ys)

pub strip_slash_off : (xs : Text) → strip_slash (xs ++ slash ∷ []) ≡ xs
strip_slash_off xs = strip_slash-append xs slash [] ∙ append_nil xs

strip_slash-plain : (xs : Text) → all plain xs ≡ true → strip_slash xs ≡ xs
strip_slash-plain [] h = refl
strip_slash-plain (x ∷ []) h = ground arith
strip_slash-plain (x ∷ y ∷ xs) h = ap (λ t. x ∷ t) (strip_slash-plain (y ∷ xs) (ground arith))

strip_slash-after :
    (xs : Text) → is_empty xs ≡ false → strip_slash (slash ∷ xs) ≡ slash ∷ strip_slash xs
strip_slash-after [] h = absurd (ground arith)
strip_slash-after (x ∷ xs) h = refl

pub strip_slash-joined :
    (parts : List Text) → all filled parts ≡ true → strip_slash (joined parts) ≡ joined parts
strip_slash-joined [] h = refl
strip_slash-joined (part ∷ []) h = strip_slash-plain part (ground arith)
strip_slash-joined (part ∷ next ∷ parts) h =
    strip_slash-append part slash (joined (next ∷ parts))
    ∙ ap (λ t. part ++ t)
        (strip_slash-after (joined (next ∷ parts))
            (ground (arith, joined-filled next parts (ground arith)))
          ∙ ap (λ t. slash ∷ t) (strip_slash-joined (next ∷ parts) (ground arith)))

pub strip_slash_lem : (xs : Text) → (xs ≡ strip_slash xs) ⊎ (xs ≡ strip_slash xs ++ slash ∷ [])
strip_slash_lem [] = inl refl
strip_slash_lem (x ∷ []) = elim (Bool-cases (x == slash)) [
  | inl e ↦ inr (rw e (ground arith))
  | inr e ↦ inl (rw e refl)
]
strip_slash_lem (x ∷ y ∷ xs) = elim (strip_slash_lem (y ∷ xs)) [
  | inl e ↦ inl (ap (λ t. x ∷ t) e)
  | inr e ↦ inr (ap (λ t. x ∷ t) e)
]
