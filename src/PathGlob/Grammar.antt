-- ===== src/PathGlob/Grammar.antt =====
-- path_glob.rs: what a glob denotes, said without a search, against its matching.
use rust_doctor.Prelude.{
  ℕ, ◌≡◌, refl, sym, ◌∙◌, ap, subst, ◌↔◌, ◌⊎◌, inl, inr, Bool, true, false, ◌&&◌, ◌||◌, List, [],
  ◌∷◌, ◌++◌, map, arith, ◌==◌, if◌then◌else◌, is_empty, any, Bool-cases,
}
use rust_doctor.Report.{Text}
use rust_doctor.PathGlob.{
  Segment, any_depth, name, PathGlob, star, question, suffixes, prefixes, matches_name,
  matches_segments, components, matches,
}

-- A list cut in two, with a property of the second part, and with one of a first part that is not
-- empty.
abbrev pub AfterSkip {ℓ κ} : {A : Type ℓ} → (List A → Type κ) → List A → Type (ℓ ⊔ κ)
AfterSkip {A = A} P xs = (skipped : List A) × (tail : List A) × (xs ≡ skipped ++ tail) × P tail

abbrev pub AtDepth {ℓ κ} : {A : Type ℓ} → (List A → Type κ) → List A → Type (ℓ ⊔ κ)
AtDepth {A = A} P xs =
    (first : A) × (others : List A) × (below : List A) × (xs ≡ (first ∷ others) ++ below)
    × P (first ∷ others)

abbrev pub OneMore : ℕ → (Text → Type 0) → Text → Type 0
OneMore c P n =
    (first : ℕ) × (tail : Text) × (n ≡ first ∷ tail) × ((c ≡ question) ⊎ (first ≡ c)) × P tail

-- The names that a name pattern denotes: `*` is any run of characters, `?` is any one of them.
unfoldable pub Spells : Text → Text → Type 0
Spells [] n = n ≡ []
Spells (c ∷ rest) n = if c == star then AfterSkip (Spells rest) n else OneMore c (Spells rest) n

-- The paths that a list of segments denotes: `**` is any run of directories.
unfoldable pub Denotes : List Segment → List Text → Type 0
unfolding Spells
Denotes [] path = path ≡ []
Denotes (any_depth ∷ rest) path = AfterSkip (Denotes rest) path
Denotes (name n ∷ rest) path =
    (first : Text) × (tail : List Text) × (path ≡ first ∷ tail) × Spells n first × Denotes rest tail

module _ {ℓ κ} {A : Type ℓ} (p : List A → Bool) (P : List A → Type κ) where
  skip_to :
      ((tail : List A) → p tail ≡ true → P tail)
      → (xs : List A) → any p (suffixes xs) ≡ true
      → AfterSkip P xs
  skip_to f [] h = ([], [], refl, f [] (ground arith))
  skip_to f (x ∷ xs) h = elim (Bool-cases (p (x ∷ xs))) [
    | inl e ↦ ([], x ∷ xs, refl, f (x ∷ xs) e)
    | inr e ↦
        let (skipped, tail, q, k) = skip_to f xs (ground arith) in
        (x ∷ skipped, tail, ap (λ rest. x ∷ rest) q, k)
  ]

  skip_from :
      ((tail : List A) → P tail → p tail ≡ true)
      → (skipped tail : List A) → P tail
      → any p (suffixes (skipped ++ tail)) ≡ true
  skip_from f [] [] k = rw (f [] k) refl
  skip_from f [] (x ∷ xs) k = rw (f (x ∷ xs) k) refl
  skip_from f (x ∷ skipped) tail k = ground (arith, skip_from f skipped tail k)

any-map :
    {A : Type 0} (g : List A → List A) (p : List A → Bool) (xss : List (List A))
    → any p (map g xss) ≡ any (λ xs. p (g xs)) xss
any-map g p [] = refl
any-map g p (xs ∷ xss) = rw (any-map g p xss) refl

module _ {κ} {A : Type 0} where
  depth_to :
      (p : List A → Bool) (P : List A → Type κ)
      → ((part : List A) → p part ≡ true → P part)
      → (xs : List A) → any p (prefixes xs) ≡ true
      → AtDepth P xs
  depth_to p P f [] h = absurd (ground arith)
  depth_to p P f (x ∷ xs) h = elim (Bool-cases (p (x ∷ []))) [
    | inl e ↦ (x, [], xs, refl, f (x ∷ []) e)
    | inr e ↦
        let deeper : any (λ part. p (x ∷ part)) (prefixes xs) ≡ true =
          ground (arith, any-map (λ part. x ∷ part) p (prefixes xs)) in
        let (first, others, below, q, k) =
          depth_to (λ part. p (x ∷ part)) (λ part. P (x ∷ part)) (λ part. f (x ∷ part)) xs deeper in
        (x, first ∷ others, below, ap (λ rest. x ∷ rest) q, k)
  ]

  depth_from :
      (p : List A → Bool) (first : A) (others below : List A)
      → p (first ∷ others) ≡ true
      → any p (prefixes ((first ∷ others) ++ below)) ≡ true
  depth_from p first [] below h = rw h refl
  depth_from p first (x ∷ others) below h = ground (
    arith,
    any-map (λ part. first ∷ part) p (prefixes ((x ∷ others) ++ below)),
    depth_from (λ part. p (first ∷ part)) x others below h,
  )

empty_iff : {A : Type 0} (xs : List A) → (is_empty xs ≡ true) ↔ (xs ≡ [])
empty_iff [] = (λ h. refl, λ e. refl)
empty_iff (x ∷ xs) = (λ h. absurd (ground arith), λ e. absurd (ground arith))

name_empty : (text : Text) → text ≡ [] → matches_name [] text ≡ true
unfolding matches_name
name_empty text h = (empty_iff text).1 h

name_star :
    (c : ℕ) (rest text : Text)
    → (c == star) ≡ true
    → matches_name (c ∷ rest) text ≡ any (λ tail. matches_name rest tail) (suffixes text)
unfolding matches_name
name_star c rest text e = rw e refl

name_literal :
    (c : ℕ) (rest : Text) (first : ℕ) (tail : Text)
    → (c == star) ≡ false
    → matches_name (c ∷ rest) (first ∷ tail)
      ≡ ((c == question || first == c) && matches_name rest tail)
unfolding matches_name
name_literal c rest first tail e = rw e refl

one_iff : (c first : ℕ) → ((c == question || first == c) ≡ true) ↔ ((c ≡ question) ⊎ (first ≡ c))
one_iff c first = ground arith

name_to : (pattern text : Text) → matches_name pattern text ≡ true → Spells pattern text
unfolding matches_name Spells
name_to [] text h = (empty_iff text).0 h
name_to (c ∷ rest) [] h = elim (Bool-cases (c == star)) [
  | inl e ↦ rw e (
      skip_to (matches_name rest) (Spells rest) (name_to rest) [] (sym (name_star c rest [] e) ∙ h))
  | inr e ↦ absurd (ground arith)
]
name_to (c ∷ rest) (first ∷ tail) h = elim (Bool-cases (c == star)) [
  | inl e ↦ rw e (
      skip_to (matches_name rest) (Spells rest) (name_to rest) (first ∷ tail)
        (sym (name_star c rest (first ∷ tail) e) ∙ h))
  | inr e ↦ rw e (
      let both : ((c == question || first == c) && matches_name rest tail) ≡ true =
        sym (name_literal c rest first tail e) ∙ h in
      (first, tail, refl, (one_iff c first).0 (ground arith), name_to rest tail (ground arith)))
]

-- The branch that a test takes, of types.
if_true : (A B : Type 0) (b : Bool) → b ≡ true → (if b then A else B) → A
if_true A B true e x = x
if_true A B false e x = absurd (ground arith)

if_false : (A B : Type 0) (b : Bool) → b ≡ false → (if b then A else B) → B
if_false A B true e x = absurd (ground arith)
if_false A B false e x = x

name_from : (pattern text : Text) → Spells pattern text → matches_name pattern text ≡ true
unfolding Spells
name_from [] text h = name_empty text h
name_from (c ∷ rest) text h = elim (Bool-cases (c == star)) [
  | inl e ↦
      let (skipped, tail, q, k) = if_true (AfterSkip (Spells rest) text) _ (c == star) e h in
      name_star c rest text e
      ∙ subst (λ t. any (matches_name rest) (suffixes t) ≡ true) (sym q)
          (skip_from (matches_name rest) (Spells rest) (name_from rest) skipped tail k)
  | inr e ↦
      let (first, tail, q, fits, k) = if_false _ (OneMore c (Spells rest) text) (c == star) e h in
      subst (λ t. matches_name (c ∷ rest) t ≡ true) (sym q)
        (name_literal c rest first tail e
          ∙ rw ((one_iff c first).1 fits, name_from rest tail k) refl)
]

segments_to :
    (pattern : List Segment) (path : List Text)
    → matches_segments pattern path ≡ true
    → Denotes pattern path
unfolding matches_segments Denotes
segments_to [] path h = (empty_iff path).0 h
segments_to (any_depth ∷ rest) path h =
    skip_to (matches_segments rest) (Denotes rest) (segments_to rest) path h
segments_to (name n ∷ rest) [] h = absurd (ground arith)
segments_to (name n ∷ rest) (first ∷ tail) h =
    (first, tail, refl, name_to n first (ground arith), segments_to rest tail (ground arith))

segments_from :
    (pattern : List Segment) (path : List Text)
    → Denotes pattern path
    → matches_segments pattern path ≡ true
unfolding matches_segments Denotes
segments_from [] path h = (empty_iff path).1 h
segments_from (any_depth ∷ rest) path h =
    let (skipped, tail, q, k) = h in
    subst (λ t. any (matches_segments rest) (suffixes t) ≡ true) (sym q)
      (skip_from (matches_segments rest) (Denotes rest) (segments_from rest) skipped tail k)
segments_from (name n ∷ rest) path h =
    let (first, tail, q, spelled, k) = h in
    subst (λ t. matches_segments (name n ∷ rest) t ≡ true) (sym q)
      (rw (name_from n first spelled, segments_from rest tail k) refl)

-- A glob matches a path just when its segments denote the components of the path or a prefix of
-- them that is not empty.
pub matches-Denotes :
    (glob : PathGlob) (path : Text)
    → (matches glob path ≡ true) ↔ AtDepth (Denotes glob.segments) (components path)
unfolding matches
matches-Denotes glob path = (
  depth_to (matches_segments glob.segments) (Denotes glob.segments) (segments_to glob.segments)
      (components path),
  λ h.
      let (first, others, below, q, k) = h in
      subst (λ t. any (matches_segments glob.segments) (prefixes t) ≡ true) (sym q)
        (depth_from {0} (matches_segments glob.segments) first others below
          (segments_from glob.segments (first ∷ others) k)),
)
