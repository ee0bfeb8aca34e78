-- ===== src/Prelude/Members.antt =====
-- What a list holds, against the Boolean search of it.
use mathlib.Core.Path.{◌≡◌, refl, subst}
use mathlib.Core.Logic.{◌⊎◌, ◌↔◌, inl, inr}
use mathlib.Core.Bool.{Bool, true}
use mathlib.Core.List.{List, [], ◌∷◌}
use native.Mathlib.Omega.{arith}
use rust_doctor.Prelude.Tests.{Bool-cases}
use rust_doctor.Prelude.Order.{Ord, same, same_iff}
use rust_doctor.Prelude.Lists.{any}

abbrev pub Member : {A : Type 0} → A → List A → Type 0
Member a [] = ⊥
Member a (x ∷ xs) = (a ≡ x) ⊎ Member a xs

module _ {A : Type 0} (p : A → Bool) where
  pub any_to : (xs : List A) → any p xs ≡ true → (a : A) × Member a xs × (p a ≡ true)
  any_to [] h = absurd (ground arith)
  any_to (x ∷ xs) h = elim (Bool-cases (p x)) [
    | inl e ↦ (x, inl refl, e)
    | inr e ↦ let (a, m, q) = any_to xs (ground arith) in (a, inr m, q)
  ]

  pub any-Member : (xs : List A) (a : A) → Member a xs → p a ≡ true → any p xs ≡ true
  any-Member [] a m h = absurd m
  any-Member (x ∷ xs) a (inl e) h = rw (← e) (rw h refl)
  any-Member (x ∷ xs) a (inr m) h = ground (arith, any-Member xs a m h)

-- Whether a list holds an element, by the test that compares.
pub any-same-Member :
    {A : Type 0} ⦃o : Ord A⦄ (xs : List A) (a : A) → (any (λ x. same x a) xs ≡ true) ↔ Member a xs
any-same-Member xs a = (
  (λ h.
      let (other, m, e) = any_to (λ x. same x a) xs h in
      subst (λ x. Member x xs) ((same_iff other a).0 e) m),
  (λ m. any-Member (λ x. same x a) xs a m ((same_iff a a).1 refl)),
)
