-- ===== src/PathGlob/Below.antt =====
-- path_glob.rs: paths below a match.
use rust_doctor.Prelude.{
  append_assoc, ℕ, ◌≡◌, refl, ◌∙◌, ap, Bool, true, false, List, [], ◌∷◌, ◌++◌, arith, ◌==◌,
  is_empty, retain, Bool-cases, inl, inr,
}
use rust_doctor.Report.{Text}
use rust_doctor.PathGlob.{PathGlob, slash, split, push_front, components, matches}
use rust_doctor.PathGlob.Pieces.{split_nonempty}
use rust_doctor.PathGlob.Grammar.{matches-Denotes}

push_front-append :
    (x : ℕ) (parts qs : List Text)
    → is_empty parts ≡ false
    → push_front x (parts ++ qs) ≡ push_front x parts ++ qs
push_front-append x [] qs h = absurd (ground arith)
push_front-append x (p ∷ ps) qs h = refl

-- The parts of a path are those above a separator and those below it.
split-slash :
    (path below : Text)
    → split slash (path ++ slash ∷ below) ≡ split slash path ++ split slash below
split-slash [] below = refl
split-slash (x ∷ path) below = elim (Bool-cases (x == slash)) [
  | inl e ↦ rw (e, split-slash path below) refl
  | inr e ↦
      rw (e, split-slash path below)
        (push_front-append x (split slash path) (split slash below) (split_nonempty slash path))
]

retain-append :
    (p : Text → Bool) (xs ys : List Text) → retain p (xs ++ ys) ≡ retain p xs ++ retain p ys
retain-append p [] ys = refl
retain-append p (x ∷ xs) ys = elim (Bool-cases (p x)) [
  | inl e ↦ rw (e, retain-append p xs ys) refl
  | inr e ↦ rw (e, retain-append p xs ys) refl
]

components-below :
    (path below : Text) → components (path ++ slash ∷ below) ≡ components path ++ components below
components-below path below = rw (split-slash path below, retain-append) refl

-- A glob that matches a path matches every path that continues it after a slash.
matches-below :
    (glob : PathGlob) (path below : Text)
    → matches glob path ≡ true
    → matches glob (path ++ slash ∷ below) ≡ true
matches-below glob path below h =
    let (first, others, rest, q, k) = (matches-Denotes glob path).0 h in
    (matches-Denotes glob (path ++ slash ∷ below)).1 (
      first,
      others,
      rest ++ components below,
      components-below path below
          ∙ ap (λ xs. xs ++ components below) q
          ∙ append_assoc (first ∷ others) rest (components below),
      k,
    )
