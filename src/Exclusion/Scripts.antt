-- ===== src/Exclusion/Scripts.antt =====
-- report/exclusion.rs: `edit_distance` against edit scripts.
use rust_doctor.Prelude.{
  ℕ, suc, ◌+◌, ◌≤◌, ◌≡◌, refl, ap, subst, ◌⊎◌, inl, inr, List, [], ◌∷◌, arith, min, ◌==◌, length,
  Bool-cases, ==_iff,
}
use rust_doctor.Report.{Text}
use rust_doctor.Exclusion.Distance.{unequal, edit_distance, after, lev, from_end, edit_distance-lev}

-- Edits of a text into another. A script is listed from the ends of the texts.
pub data Step : Type 0 where
  kept : ℕ → Step
  substituted : ℕ → ℕ → Step
  deleted : ℕ → Step
  inserted : ℕ → Step

abbrev pub source : List Step → Text
source [] = []
source (kept c ∷ s) = c ∷ source s
source (substituted c d ∷ s) = c ∷ source s
source (deleted c ∷ s) = c ∷ source s
source (inserted d ∷ s) = source s

abbrev pub target : List Step → Text
target [] = []
target (kept c ∷ s) = c ∷ target s
target (substituted c d ∷ s) = d ∷ target s
target (deleted c ∷ s) = target s
target (inserted d ∷ s) = d ∷ target s

abbrev pub cost : List Step → ℕ
cost [] = 0
cost (kept c ∷ s) = cost s
cost (substituted c d ∷ s) = suc (cost s)
cost (deleted c ∷ s) = suc (cost s)
cost (inserted d ∷ s) = suc (cost s)

lev-both : (x : ℕ) (xs : Text) (y : ℕ) (ys : Text) → lev (x ∷ xs) (y ∷ ys) ≤ lev xs ys + unequal x y
unfolding lev
lev-both x xs y ys = omega arith

lev-deleted : (x : ℕ) (xs ys : Text) → lev (x ∷ xs) ys ≤ suc (lev xs ys)
unfolding lev
lev-deleted x xs [] = omega arith
lev-deleted x xs (y ∷ ys) = omega arith

lev-inserted : (xs : Text) (y : ℕ) (ys : Text) → lev xs (y ∷ ys) ≤ suc (lev xs ys)
unfolding lev
lev-inserted [] y ys = omega arith
lev-inserted (x ∷ xs) y ys = omega arith

unequal_self : (x : ℕ) → unequal x x ≡ 0
unequal_self x = ground arith

unequal-le : (x y : ℕ) → unequal x y ≤ 1
unequal-le x y = ground arith

no_script_below : (s : List Step) → lev (source s) (target s) ≤ cost s
no_script_below [] = unfold lev in omega arith
no_script_below (kept c ∷ s) =
    omega (arith, lev-both c (source s) c (target s), unequal_self c, no_script_below s)
no_script_below (substituted c d ∷ s) =
    omega (arith, lev-both c (source s) d (target s), unequal-le c d, no_script_below s)
no_script_below (deleted c ∷ s) =
    omega (arith, lev-deleted c (source s) (target s), no_script_below s)
no_script_below (inserted d ∷ s) =
    omega (arith, lev-inserted (source s) d (target s), no_script_below s)

-- A script of a cost between two texts.
abbrev pub Reaches : Text → Text → ℕ → Type 0
Reaches xs ys n = (s : List Step) × (source s ≡ xs) × (target s ≡ ys) × (cost s ≡ n)

reach-nil : (ys : Text) → Reaches [] ys (length ys)
reach-nil [] = ([], refl, refl, refl)
reach-nil (y ∷ ys) =
    let (s, p, q, r) = reach-nil ys in (inserted y ∷ s, p, ap (λ t. y ∷ t) q, ap suc r)

min-cases : (a b c : ℕ) → (min (min a b) c ≡ a) ⊎ ((min (min a b) c ≡ b) ⊎ (min (min a b) c ≡ c))
min-cases a b c = ground arith

reach-deleted : (x : ℕ) (xs ys : Text) (n : ℕ) → Reaches xs ys n → Reaches (x ∷ xs) ys (suc n)
reach-deleted x xs ys n (s, p, q, r) = (deleted x ∷ s, ap (λ t. x ∷ t) p, q, ap suc r)

reach-inserted : (y : ℕ) (xs ys : Text) (n : ℕ) → Reaches xs ys n → Reaches xs (y ∷ ys) (suc n)
reach-inserted y xs ys n (s, p, q, r) = (inserted y ∷ s, p, ap (λ t. y ∷ t) q, ap suc r)

reach-both :
    (x y : ℕ) (xs ys : Text) (n : ℕ) → Reaches xs ys n → Reaches (x ∷ xs) (y ∷ ys) (n + unequal x y)
reach-both x y xs ys n (s, p, q, r) = elim (Bool-cases (x == y)) [
  | inl e ↦
      rw e (kept x ∷ s, ap (λ t. x ∷ t) p, rw ((==_iff x y).0 e) (ap (λ t. y ∷ t) q), omega arith)
  | inr e ↦ rw e (substituted x y ∷ s, ap (λ t. x ∷ t) p, ap (λ t. y ∷ t) q, omega arith)
]

reach-after :
    (x : ℕ) (xs : Text)
    → ((ys : Text) → Reaches xs ys (lev xs ys))
    → (ys : Text) → Reaches (x ∷ xs) ys (after x (lev xs) ys)
reach-after x xs ih [] = reach-deleted x xs [] (lev xs []) (ih [])
reach-after x xs ih (y ∷ ys) =
    elim (min-cases (lev xs ys + unequal x y) (lev xs (y ∷ ys) + 1) (after x (lev xs) ys + 1)) [
      | inl e ↦ rw e (reach-both x y xs ys (lev xs ys) (ih ys))
      | inr (inl e) ↦ rw e (
          subst (Reaches (x ∷ xs) (y ∷ ys)) (omega arith)
            (reach-deleted x xs (y ∷ ys) (lev xs (y ∷ ys)) (ih (y ∷ ys))))
      | inr (inr e) ↦ rw e (
          subst (Reaches (x ∷ xs) (y ∷ ys)) (omega arith)
            (reach-inserted y (x ∷ xs) ys (after x (lev xs) ys) (reach-after x xs ih ys)))
    ]

reach-lev : (xs ys : Text) → Reaches xs ys (lev xs ys)
unfolding lev
reach-lev [] ys = reach-nil ys
reach-lev (x ∷ xs) ys = reach-after x xs (reach-lev xs) ys

-- Some edit script of the two texts, listed from their ends, costs their distance.
pub edit_distance-reached :
    (left right : Text) → Reaches (from_end left []) (from_end right []) (edit_distance left right)
edit_distance-reached left right =
    rw (edit_distance-lev left right) (reach-lev (from_end left []) (from_end right []))

-- No edit script of the two texts, listed from their ends, costs less than their distance.
pub edit_distance-least :
    (left right : Text) (n : ℕ)
    → Reaches (from_end left []) (from_end right []) n
    → edit_distance left right ≤ n
edit_distance-least left right n (s, p, q, r) =
    rw (edit_distance-lev left right, ← p, ← q, ← r) (no_script_below s)
