-- ===== src/BTree.antt =====
-- The standard library's `BTreeMap` as the source uses it: an association list in key order,
-- searched from the least key. `entry` is `entry(key).or_insert(default)` followed by a write
-- through the reference, `modify` a write through `get_mut`, and `get` a lookup.
use Prim.Native.Nat.Ordering.{lt, eq, gt}
use rust_doctor.Prelude.{
  ◌≡◌, Ordering, Every, Bool, true, false, ◌||◌, Option, none, some, List, [], ◌∷◌, arith, Ord,
  same, unwrap_or, if◌then◌else◌, and_then,
}

abbrev pub Map {ℓ κ} : Type ℓ → Type κ → Type (ℓ ⊔ κ)
Map K V = List (K × V)

module _ {ℓ κ} {K : Type ℓ} {V : Type κ} ⦃o : Ord K⦄ where
  unfoldable pub get : K → Map K V → Option V
  get k [] = none
  get k ((j, v) ∷ m) = elim (o.cmp k j) [ lt ↦ none | eq ↦ some v | gt ↦ get k m ]

  unfoldable pub entry : K → V → (V → V) → Map K V → Map K V
  entry k d f [] = (k, f d) ∷ []
  entry k d f ((j, v) ∷ m) = elim (o.cmp k j) [
    | lt ↦ (k, f d) ∷ (j, v) ∷ m
    | eq ↦ (j, f v) ∷ m
    | gt ↦ (j, v) ∷ entry k d f m
  ]

  unfoldable pub modify : K → (V → V) → Map K V → Map K V
  modify k f [] = []
  modify k f ((j, v) ∷ m) = elim (o.cmp k j) [
    | lt ↦ (j, v) ∷ m
    | eq ↦ (j, f v) ∷ m
    | gt ↦ (j, v) ∷ modify k f m
  ]

  -- A key that the map does not hold reads as the default under `entry`.
  pub get-entry :
      (j k : K) (d : V) (f : V → V) (m : Map K V)
      → get j (entry k d f m) ≡ (if same j k then some (f (unwrap_or (get k m) d)) else get j m)
  unfolding get entry
  get-entry j k d f [] = ground arith
  get-entry j k d f ((i, v) ∷ m) = ground (
    arith,
    get-entry j k d f m,
    o.cmp_eq k i,
    o.cmp_eq j k,
    o.cmp_eq j i,
    o.cmp_self k,
    o.cmp_self i,
    o.cmp_swap k i,
    o.cmp_swap j k,
    o.cmp_swap j i,
    o.cmp_trans j k i,
    o.cmp_trans i k j,
    o.cmp_trans k i j,
    o.cmp_trans i j k,
  )

-- `into_values`.
abbrev pub values {ℓ κ} : {K : Type ℓ} {V : Type κ} → Map K V → List V
values [] = []
values ((k, v) ∷ m) = v ∷ values m

module _ {ℓ κ} {K : Type ℓ} {V : Type κ} ⦃o : Ord K⦄ where
  pub get-modify :
      (j k : K) (f : V → V) (m : Map K V)
      → get j (modify k f m) ≡ (if same j k then and_then (get j m) (λ v. some (f v)) else get j m)
  unfolding get modify
  get-modify j k f [] = ground arith
  get-modify j k f ((i, v) ∷ m) = ground (
    arith,
    get-modify j k f m,
    o.cmp_eq k i,
    o.cmp_eq j k,
    o.cmp_eq j i,
    o.cmp_self k,
    o.cmp_self i,
    o.cmp_swap k i,
    o.cmp_swap j k,
    o.cmp_swap j i,
    o.cmp_trans j k i,
    o.cmp_trans i k j,
    o.cmp_trans k i j,
    o.cmp_trans i j k,
  )

module _ {ℓ κ ν} {K : Type ℓ} {V : Type κ} (P : V → Type ν) where
  Every-cases :
      (c : Ordering) (xs ys zs : Map K V)
      → Every P (values xs)
      → Every P (values ys)
      → Every P (values zs)
      → Every P (values (elim c [ lt ↦ xs | eq ↦ ys | gt ↦ zs ]))
  Every-cases lt xs ys zs p q r = p
  Every-cases eq xs ys zs p q r = q
  Every-cases gt xs ys zs p q r = r

-- A property of the default's image that the write keeps holds of every value after `entry`.
pub Every-entry {ℓ κ ν} :
    {K : Type ℓ} {V : Type κ} ⦃o : Ord K⦄ (P : V → Type ν) (k : K) (d : V) (f : V → V) (m : Map K V)
    → Every P (values m)
    → P (f d)
    → ((v : V) → P v → P (f v))
    → Every P (values (entry k d f m))
unfolding entry
Every-entry P k d f [] h hd hf = (hd, tt)
Every-entry ⦃o⦄ P k d f ((j, v) ∷ m) h hd hf =
    Every-cases P (o.cmp k j) ((k, f d) ∷ (j, v) ∷ m) ((j, f v) ∷ m) ((j, v) ∷ entry k d f m)
      (hd, h) (hf v h.0, h.1) (h.0, Every-entry P k d f m h.1 hd hf)

-- `BTreeSet`: the keys in order, `insert` and `contains`.
abbrev pub Set {ℓ} : Type ℓ → Type ℓ
Set K = List K

module _ {ℓ} {K : Type ℓ} ⦃o : Ord K⦄ where
  unfoldable pub contains : K → Set K → Bool
  contains k [] = false
  contains k (j ∷ m) = elim (o.cmp k j) [ lt ↦ false | eq ↦ true | gt ↦ contains k m ]

  unfoldable pub insert : K → Set K → Set K
  insert k [] = k ∷ []
  insert k (j ∷ m) = elim (o.cmp k j) [ lt ↦ k ∷ j ∷ m | eq ↦ j ∷ m | gt ↦ j ∷ insert k m ]

  pub contains-insert : (j k : K) (m : Set K) → contains j (insert k m) ≡ (same j k || contains j m)
  unfolding contains insert
  contains-insert j k [] = ground arith
  contains-insert j k (i ∷ m) = ground (
    arith,
    contains-insert j k m,
    o.cmp_eq k i,
    o.cmp_eq j k,
    o.cmp_eq j i,
    o.cmp_self k,
    o.cmp_self i,
    o.cmp_swap k i,
    o.cmp_swap j k,
    o.cmp_swap j i,
    o.cmp_trans j k i,
    o.cmp_trans i k j,
    o.cmp_trans k i j,
    o.cmp_trans i j k,
  )

-- `extend` with the items of an `Option`, and of a collection.
abbrev pub insert_option {ℓ} : {K : Type ℓ} ⦃o : Ord K⦄ → Option K → Set K → Set K
insert_option none m = m
insert_option (some k) m = insert k m

abbrev pub insert_all {ℓ} : {K : Type ℓ} ⦃o : Ord K⦄ → List K → Set K → Set K
insert_all [] m = m
insert_all (k ∷ ks) m = insert_all ks (insert k m)
