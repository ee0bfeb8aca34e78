-- ===== src/Prelude/Order.antt =====
-- Total orders (`Ord` of the standard library): numbers, lists, options and pairs, as Rust derives them.
use Prim.Native.Nat.{ℕ, compare, Ordering}
use Prim.Native.Nat.Ordering.{lt, eq, gt}
use mathlib.Core.Path.{◌≡◌, refl}
use mathlib.Core.Logic.{◌↔◌, ◌⊎◌, inl, inr}
use mathlib.Core.Bool.{Bool, true, false}
use mathlib.Core.List.{List, [], ◌∷◌}
use mathlib.Core.Option.{Option, none, some}
use native.Mathlib.Omega.{arith}

abbrev pub converse : Ordering → Ordering
converse lt = gt
converse eq = eq
converse gt = lt

pub Ordering-cases : (x : Ordering) → (x ≡ lt) ⊎ ((x ≡ eq) ⊎ (x ≡ gt))
Ordering-cases lt = inl refl
Ordering-cases eq = inr (inl refl)
Ordering-cases gt = inr (inr refl)

-- `Ordering::then`.
abbrev pub then_with : Ordering → Ordering → Ordering
then_with eq o = o
then_with lt o = lt
then_with gt o = gt

pub record Ord {ℓ} (A : Type ℓ) : Type ℓ where
  pub cmp : A → A → Ordering
  pub cmp_self : (a : A) → cmp a a ≡ eq
  pub cmp_eq : (a b : A) → cmp a b ≡ eq → a ≡ b
  pub cmp_swap : (a b : A) → cmp b a ≡ converse (cmp a b)
  pub cmp_trans : (a b c : A) → cmp a b ≡ lt → cmp b c ≡ lt → cmp a c ≡ lt

abbrev pub same {ℓ} : {A : Type ℓ} ⦃o : Ord A⦄ → A → A → Bool
same ⦃o⦄ a b = elim (o.cmp a b) [ eq ↦ true | _ ↦ false ]

pub same_iff {ℓ} : {A : Type ℓ} ⦃o : Ord A⦄ (a b : A) → (same a b ≡ true) ↔ (a ≡ b)
same_iff ⦃o⦄ a b = (λ h. o.cmp_eq a b (ground arith), λ e. rw e (rw (o.cmp_self b, same)))

pub nat_trans : (a b c : ℕ) → compare a b ≡ lt → compare b c ≡ lt → compare a c ≡ lt
nat_trans a b c p q = ground arith

pub nat_self : (a : ℕ) → compare a a ≡ eq
nat_self a = ground arith

pub nat_eq : (a b : ℕ) → compare a b ≡ eq → a ≡ b
nat_eq a b h = ground arith

pub nat_swap : (a b : ℕ) → compare b a ≡ converse (compare a b)
nat_swap a b = ground arith

instance abbrev pub nat_ord : Ord ℕ
nat_ord = record {
  cmp = compare;
  cmp_self = nat_self;
  cmp_eq = nat_eq;
  cmp_swap = nat_swap;
  cmp_trans = nat_trans;
}

module _ {ℓ} {A : Type ℓ} ⦃o : Ord A⦄ where
  unfoldable pub cmp_option : Option A → Option A → Ordering
  cmp_option none none = eq
  cmp_option none (some b) = lt
  cmp_option (some a) none = gt
  cmp_option (some a) (some b) = o.cmp a b

  pub option_self : (a : Option A) → cmp_option a a ≡ eq
  unfolding cmp_option
  option_self none = refl
  option_self (some a) = o.cmp_self a

  pub option_eq : (a b : Option A) → cmp_option a b ≡ eq → a ≡ b
  unfolding cmp_option
  option_eq none none h = refl
  option_eq none (some b) h = cc
  option_eq (some a) none h = cc
  option_eq (some a) (some b) h = cc (o.cmp_eq a b h)

  pub option_swap : (a b : Option A) → cmp_option b a ≡ converse (cmp_option a b)
  unfolding cmp_option
  option_swap none none = refl
  option_swap none (some b) = refl
  option_swap (some a) none = refl
  option_swap (some a) (some b) = o.cmp_swap a b

  pub option_trans :
      (a b c : Option A) → cmp_option a b ≡ lt → cmp_option b c ≡ lt → cmp_option a c ≡ lt
  unfolding cmp_option
  option_trans none none c p q = cc
  option_trans none (some b) none p q = cc
  option_trans none (some b) (some c) p q = refl
  option_trans (some a) none c p q = cc
  option_trans (some a) (some b) none p q = cc
  option_trans (some a) (some b) (some c) p q = o.cmp_trans a b c p q

  instance abbrev pub option_ord : Ord (Option A)
  option_ord = record {
    cmp = cmp_option;
    cmp_self = option_self;
    cmp_eq = option_eq;
    cmp_swap = option_swap;
    cmp_trans = option_trans;
  }

module _ {ℓ} {A : Type ℓ} ⦃o : Ord A⦄ where
  unfoldable pub cmp_list : List A → List A → Ordering
  cmp_list [] [] = eq
  cmp_list [] (y ∷ ys) = lt
  cmp_list (x ∷ xs) [] = gt
  cmp_list (x ∷ xs) (y ∷ ys) = then_with (o.cmp x y) (cmp_list xs ys)

  pub list_self : (xs : List A) → cmp_list xs xs ≡ eq
  unfolding cmp_list
  list_self [] = refl
  list_self (x ∷ xs) = rw (o.cmp_self x) (list_self xs)

  pub list_eq : (xs ys : List A) → cmp_list xs ys ≡ eq → xs ≡ ys
  unfolding cmp_list
  list_eq [] [] h = refl
  list_eq [] (y ∷ ys) h = cc
  list_eq (x ∷ xs) [] h = cc
  list_eq (x ∷ xs) (y ∷ ys) h = ground (arith, o.cmp_eq x y, list_eq xs ys)

  pub list_swap : (xs ys : List A) → cmp_list ys xs ≡ converse (cmp_list xs ys)
  unfolding cmp_list
  list_swap [] [] = refl
  list_swap [] (y ∷ ys) = refl
  list_swap (x ∷ xs) [] = refl
  list_swap (x ∷ xs) (y ∷ ys) = ground (arith, o.cmp_swap x y, list_swap xs ys)

  pub list_trans :
      (xs ys zs : List A) → cmp_list xs ys ≡ lt → cmp_list ys zs ≡ lt → cmp_list xs zs ≡ lt
  unfolding cmp_list
  list_trans [] [] zs p q = cc
  list_trans [] (y ∷ ys) [] p q = cc
  list_trans [] (y ∷ ys) (z ∷ zs) p q = refl
  list_trans (x ∷ xs) [] zs p q = cc
  list_trans (x ∷ xs) (y ∷ ys) [] p q = cc
  list_trans (x ∷ xs) (y ∷ ys) (z ∷ zs) p q =
      ground
        (arith, o.cmp_eq x y, o.cmp_eq y z, o.cmp_self x, o.cmp_trans x y z, list_trans xs ys zs)

  instance abbrev pub list_ord : Ord (List A)
  list_ord = record {
    cmp = cmp_list;
    cmp_self = list_self;
    cmp_eq = list_eq;
    cmp_swap = list_swap;
    cmp_trans = list_trans;
  }

module _ {ℓ κ} {A : Type ℓ} {B : Type κ} ⦃a : Ord A⦄ ⦃b : Ord B⦄ where
  unfoldable pub cmp_pair : A × B → A × B → Ordering
  cmp_pair x y = then_with (a.cmp x.0 y.0) (b.cmp x.1 y.1)

  pub pair_trans : (x y z : A × B) → cmp_pair x y ≡ lt → cmp_pair y z ≡ lt → cmp_pair x z ≡ lt
  unfolding cmp_pair
  pair_trans x y z p q = ground (
    arith,
    a.cmp_eq x.0 y.0,
    a.cmp_eq y.0 z.0,
    a.cmp_self x.0,
    a.cmp_trans x.0 y.0 z.0,
    b.cmp_trans x.1 y.1 z.1,
  )

  pub pair_self : (x : A × B) → cmp_pair x x ≡ eq
  unfolding cmp_pair
  pair_self x = rw (a.cmp_self x.0) (b.cmp_self x.1)

  pub pair_eq : (x y : A × B) → cmp_pair x y ≡ eq → x ≡ y
  unfolding cmp_pair
  pair_eq x y h = ground (arith, a.cmp_eq x.0 y.0, b.cmp_eq x.1 y.1)

  pub pair_swap : (x y : A × B) → cmp_pair y x ≡ converse (cmp_pair x y)
  unfolding cmp_pair
  pair_swap x y = ground (arith, a.cmp_swap x.0 y.0, b.cmp_swap x.1 y.1)

  instance abbrev pub pair_ord : Ord (A × B)
  pair_ord = record {
    cmp = cmp_pair;
    cmp_self = pair_self;
    cmp_eq = pair_eq;
    cmp_swap = pair_swap;
    cmp_trans = pair_trans;
  }
