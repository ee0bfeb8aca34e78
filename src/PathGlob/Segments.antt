-- ===== src/PathGlob/Segments.antt =====
-- path_glob.rs: the segments that a pattern may have, in words of their characters.
use rust_doctor.Prelude.{
  ℕ, ◌≡◌, ◌≢◌, refl, ap, inl, inr, true, false, ◌&&◌, ◌||◌, [], ◌∷◌, ◌++◌, arith, ◌==◌, ◌<◌,
  is_empty, all, Every, Bool-cases, ◌⊎◌, ◌↔◌,
}
use rust_doctor.Report.{Text}
use rust_doctor.PathGlob.{
  Segment, any_depth, name, star, is_refused, is_dots, is_double_star, has_double_star,
}
use rust_doctor.PathGlob.Pieces.{plain}

-- A character that is no slash, none of `[ ] { } ! \`, and no control character.
abbrev pub IsPlain : ℕ → Type 0
IsPlain c =
    (c ≢ 47)
    × (c ≢ 91)
    × (c ≢ 93)
    × (c ≢ 123)
    × (c ≢ 125)
    × (c ≢ 33)
    × (c ≢ 92)
    × (31 < c)
    × ((c < 127) ⊎ (159 < c))

-- Two stars in a row somewhere in a text.
abbrev pub HasRun : Text → Type 0
HasRun text = (before : Text) × (after : Text) × (text ≡ before ++ star ∷ star ∷ after)

abbrev pub IsName : Text → Type 0
IsName n = (n ≢ []) × (n ≢ 46 ∷ []) × (n ≢ 46 ∷ 46 ∷ []) × ¬ HasRun n × Every IsPlain n

abbrev pub IsSegment : Segment → Type 0
IsSegment any_depth = Unit
IsSegment (name n) = IsName n

-- The text of a segment.
abbrev pub print : Segment → Text
print any_depth = star ∷ star ∷ []
print (name n) = n

plain-IsPlain : (c : ℕ) → (plain c ≡ true) ↔ IsPlain c
unfolding is_refused
plain-IsPlain c = (
  (λ h. (
    ground arith,
    ground arith,
    ground arith,
    ground arith,
    ground arith,
    ground arith,
    ground arith,
    ground arith,
    ground arith,
  )),
  (λ h. ground arith),
)

pub all-plain : (text : Text) → (all plain text ≡ true) ↔ Every IsPlain text
all-plain [] = ((λ h. tt), (λ h. refl))
all-plain (c ∷ cs) = (
  (λ h. ((plain-IsPlain c).0 (ground arith), (all-plain cs).0 (ground arith))),
  (λ (p, h). ground (arith, (plain-IsPlain c).1 p, (all-plain cs).1 h)),
)

pub has_double_star-HasRun : (text : Text) → has_double_star text ≡ true → HasRun text
has_double_star-HasRun [] h = absurd (ground arith)
has_double_star-HasRun (a ∷ []) h = absurd (ground arith)
has_double_star-HasRun (a ∷ b ∷ cs) h = elim (Bool-cases (a == star && b == star)) [
  | inl e ↦
      let p : a ≡ star = ground arith in let q : b ≡ star = ground arith in ([], cs, rw (p, q) refl)
  | inr e ↦
      let (before, after, k) = has_double_star-HasRun (b ∷ cs) (ground arith) in
      (a ∷ before, after, ap (λ t. a ∷ t) k)
]

has_double_star-cons :
    (a : ℕ) (text : Text) → has_double_star text ≡ true → has_double_star (a ∷ text) ≡ true
has_double_star-cons a [] h = absurd (ground arith)
has_double_star-cons a (b ∷ cs) h = ground arith

pub run_found : (before after : Text) → has_double_star (before ++ star ∷ star ∷ after) ≡ true
run_found [] after = refl
run_found (a ∷ before) after =
    has_double_star-cons a (before ++ star ∷ star ∷ after) (run_found before after)

pub is_dots_to : (n : Text) → is_dots n ≡ true → (n ≡ 46 ∷ []) ⊎ (n ≡ 46 ∷ 46 ∷ [])
is_dots_to [] h = absurd (ground arith)
is_dots_to (a ∷ []) h = ground arith
is_dots_to (a ∷ b ∷ []) h = ground arith
is_dots_to (a ∷ b ∷ c ∷ cs) h = absurd (ground arith)

pub is_double_star_to : (n : Text) → is_double_star n ≡ true → n ≡ star ∷ star ∷ []
is_double_star_to [] h = absurd (ground arith)
is_double_star_to (a ∷ []) h = absurd (ground arith)
is_double_star_to (a ∷ b ∷ []) h = ground arith
is_double_star_to (a ∷ b ∷ c ∷ cs) h = absurd (ground arith)

pub is_empty_to : (n : Text) → is_empty n ≡ true → n ≡ []
is_empty_to [] h = refl
is_empty_to (c ∷ cs) h = absurd (ground arith)

-- A text of plain characters that no test refuses is a name.
pub plain-IsName :
    (n : Text)
    → (is_empty n || is_dots n) ≡ false
    → has_double_star n ≡ false
    → all plain n ≡ true
    → IsName n
plain-IsName n h k p = (
  (λ e. absurd (ground (arith, ap is_empty e))),
  (λ e. absurd (ground (arith, ap is_dots e))),
  (λ e. absurd (ground (arith, ap is_dots e))),
  (λ (before, after, e). absurd (ground (arith, ap has_double_star e, run_found before after))),
  (all-plain n).0 p,
)
