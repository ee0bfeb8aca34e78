-- ===== src/Delta/Distance.antt =====
-- delta.rs: `nearest` and the distances of lines.
use rust_doctor.Prelude.{
  ℕ, ◌+◌, ◌-◌, ◌≤◌, ◌<◌, ◌≡◌, refl, ◌⊎◌, inl, inr, Bool, true, Option, none, some, List, [], ◌∷◌,
  arith, ◌==◌, ltb, retain, Every, Bool-cases,
}
use rust_doctor.Delta.Nearest.{
  Slot, slot_before, insert_slot, last, range_below, range_from, closer, nearest,
}
use rust_doctor.Delta.Occurrences.{In}

-- The order in which a `BTreeSet` of slots stands.
abbrev pub IsSorted : List Slot → Type 0
IsSorted [] = Unit
IsSorted (s ∷ ss) = Every (λ t. slot_before s t ≡ true) ss × IsSorted ss

abbrev pub distance : ℕ → ℕ → ℕ
distance a b = (a - b) + (b - a)

strictly : (d e x y : ℕ) → (d ≤ e) × (d ≡ e → x ≤ y) → (d < e) ⊎ ((d ≡ e) × (x ≤ y))
strictly d e x y (h, k) = elim (Bool-cases (d == e)) [
  | inl q ↦ let q' : d ≡ e = ground arith in inr (q', k q')
  | inr q ↦ inl (ground arith)
]

Every-insert_slot :
    (r : Slot) (l i : ℕ) (ss : List Slot)
    → slot_before r (l, i) ≡ true
    → Every (λ t. slot_before r t ≡ true) ss
    → Every (λ t. slot_before r t ≡ true) (insert_slot (l, i) ss)
unfolding insert_slot
Every-insert_slot r l i [] h e = (h, tt)
Every-insert_slot r l i ((m, j) ∷ ss) h e = ground (arith, Every-insert_slot r l i ss)

Every-before :
    (l i m j : ℕ) (ss : List Slot)
    → slot_before (l, i) (m, j) ≡ true
    → Every (λ t. slot_before (m, j) t ≡ true) ss
    → Every (λ t. slot_before (l, i) t ≡ true) ss
Every-before l i m j [] h e = tt
Every-before l i m j ((n, k) ∷ ss) h e = (ground arith, Every-before l i m j ss h e.1)

-- Inserting a slot into a sorted set of slots leaves it sorted.
pub insert_slot-IsSorted :
    (l i : ℕ) (ss : List Slot) → IsSorted ss → IsSorted (insert_slot (l, i) ss)
unfolding insert_slot
insert_slot-IsSorted l i [] h = (tt, tt)
insert_slot-IsSorted l i ((m, j) ∷ ss) h =
    ground
      (arith, insert_slot-IsSorted l i ss, Every-before l i m j ss, Every-insert_slot (m, j) l i ss)

Every-In :
    (l i : ℕ) (s : Slot) (ss : List Slot)
    → Every (λ t. slot_before (l, i) t ≡ true) ss
    → In s ss
    → l ≤ s.0
Every-In l i s [] e h = absurd h
Every-In l i s (t ∷ ss) e (inl h) = ground arith
Every-In l i s (t ∷ ss) e (inr h) = Every-In l i s ss e.1 h

In-retain :
    (p : Slot → Bool) (s : Slot) (ss : List Slot) → In s ss → p s ≡ true → In s (retain p ss)
In-retain p s [] m h = absurd m
In-retain p s (t ∷ ss) (inl e) h = rw (← e, h) (inl refl)
In-retain p s (t ∷ ss) (inr m) h = elim (Bool-cases (p t)) [
  | inl e ↦ rw e (inr (In-retain p s ss m h))
  | inr e ↦ rw e (In-retain p s ss m h)
]

retain-holds : (p : Slot → Bool) (s : Slot) (ss : List Slot) → In s (retain p ss) → p s ≡ true
retain-holds p s [] m = absurd m
retain-holds p s (t ∷ ss) m = elim (Bool-cases (p t)) [
  | inl e ↦ elim (rw e at m) [ inl q ↦ rw q e | inr q ↦ retain-holds p s ss q ]
  | inr e ↦ retain-holds p s ss (rw e at m)
]

Every-retain :
    (p : Slot → Bool) (r : Slot) (ss : List Slot)
    → Every (λ t. slot_before r t ≡ true) ss
    → Every (λ t. slot_before r t ≡ true) (retain p ss)
Every-retain p r [] h = tt
Every-retain p r (t ∷ ss) h = elim (Bool-cases (p t)) [
  | inl e ↦ rw e (h.0, Every-retain p r ss h.1)
  | inr e ↦ rw e (Every-retain p r ss h.1)
]

retain-IsSorted : (p : Slot → Bool) (ss : List Slot) → IsSorted ss → IsSorted (retain p ss)
retain-IsSorted p [] h = tt
retain-IsSorted p (t ∷ ss) h = elim (Bool-cases (p t)) [
  | inl e ↦ rw e (Every-retain p t ss h.0, retain-IsSorted p ss h.1)
  | inr e ↦ rw e (retain-IsSorted p ss h.1)
]

last-step : (r t b : Slot) (ss : List Slot) → last (r ∷ t ∷ ss) ≡ some b → last (t ∷ ss) ≡ some b
unfolding last
last-step r t b ss e = ground arith

last-max : (s b : Slot) (ss : List Slot) → IsSorted ss → last ss ≡ some b → In s ss → s.0 ≤ b.0
unfolding last
last-max s b [] h e m = absurd m
last-max s b ((l, i) ∷ []) h e (inl q) = ground arith
last-max s b ((l, i) ∷ []) h e (inr q) = absurd q
last-max s b ((l, i) ∷ t ∷ ss) h e (inl q) = ground (
  arith,
  Every-In l i t (t ∷ ss) h.0 (inl refl),
  last-max t b (t ∷ ss) h.1 (last-step (l, i) t b ss e) (inl refl),
)
last-max s b ((l, i) ∷ t ∷ ss) h e (inr q) = last-max s b (t ∷ ss) h.1 (last-step (l, i) t b ss e) q

last-none : (s : Slot) (ss : List Slot) → last ss ≡ none → In s ss → ⊥
unfolding last
last-none s [] e m = m
last-none s (t ∷ ss) e m = ground arith

find-min :
    (line : ℕ) (s b : Slot) (ss : List Slot)
    → IsSorted ss
    → range_from (line, 0) ss ≡ some b
    → In s ss
    → line ≤ s.0
    → b.0 ≤ s.0
unfolding range_from
find-min line s b [] h e m le = absurd m
find-min line s b ((l, i) ∷ ss) h e (inl q) le = ground arith
find-min line s b ((l, i) ∷ ss) h e (inr q) le =
    ground (arith, Every-In l i s ss h.0 q, find-min line s b ss h.1)

find-none :
    (line : ℕ) (s : Slot) (ss : List Slot) → range_from (line, 0) ss ≡ none → In s ss → s.0 < line
unfolding range_from
find-none line s [] e m = absurd m
find-none line s ((l, i) ∷ ss) e (inl q) = ground arith
find-none line s ((l, i) ∷ ss) e (inr q) = ground (arith, find-none line s ss)

find-from : (line : ℕ) (b : Slot) (ss : List Slot) → range_from (line, 0) ss ≡ some b → line ≤ b.0
unfolding range_from
find-from line b [] e = cc
find-from line b ((l, i) ∷ ss) e = ground (arith, find-from line b ss)

last-In : (b : Slot) (ss : List Slot) → last ss ≡ some b → In b ss
unfolding last
last-In b [] e = cc
last-In b (t ∷ ss) e = ground (arith, last-In b ss)

closer_lem :
    (line : ℕ) (s b : Slot) (below from : Option Slot)
    → closer line below from ≡ some b
    → ((x : Slot) → below ≡ some x → (x.0 < line) × (s.0 < line → s.0 ≤ x.0))
    → (below ≡ none → line ≤ s.0)
    → ((y : Slot) → from ≡ some y → (line ≤ y.0) × (line ≤ s.0 → y.0 ≤ s.0))
    → (from ≡ none → s.0 < line)
    → (distance b.0 line ≤ distance s.0 line) × (distance b.0 line ≡ distance s.0 line → b.0 ≤ s.0)
unfolding closer
closer_lem line s b none none e hx hn hy hm = cc
closer_lem line s b (some x) none e hx hn hy hm = ground (arith, hx x, hm)
closer_lem line s b none (some y) e hx hn hy hm = ground (arith, hy y, hn)
closer_lem line s b (some x) (some y) e hx hn hy hm = ground (arith, hx x, hy y)

-- The three facts of the slots above a line.
module _ (line : ℕ) (free : List Slot) (sorted : IsSorted free) where
  above_max :
      (s b : Slot) → range_below (line, 0) free ≡ some b → In s free → s.0 < line → s.0 ≤ b.0
  unfolding range_below
  above_max s b e m lt =
      last-max s b _ (retain-IsSorted _ free sorted) e (In-retain _ s free m (ground arith))

  above_bound : (b : Slot) → range_below (line, 0) free ≡ some b → b.0 < line
  unfolding range_below
  above_bound b e =
      ground (arith, retain-holds (λ s. slot_before s (line, 0)) b free (last-In b _ e))

  above_none : (s : Slot) → range_below (line, 0) free ≡ none → In s free → line ≤ s.0
  unfolding range_below
  above_none s e m = elim (Bool-cases (ltb s.0 line)) [
    | inl lt ↦ absurd (last-none s _ e (In-retain _ s free m (ground arith)))
    | inr ge ↦ ground arith
  ]

  nearest-bounds :
      (s b : Slot)
      → nearest free line ≡ some b
      → In s free
      → (distance b.0 line ≤ distance s.0 line)
        × (distance b.0 line ≡ distance s.0 line → b.0 ≤ s.0)
  unfolding nearest
  nearest-bounds s b e m =
      closer_lem line s b (range_below (line, 0) free) (range_from (line, 0) free) e
        (λ x h. (above_bound x h, above_max s x h m)) (λ h. above_none s h m)
        (λ y h. (find-from line y free h, find-min line s y free sorted h m))
        (λ h. find-none line s free h m)

  -- Over a sorted set of free findings, the finding that `nearest` answers is nearer to the line
  -- than any free finding, or as near and not below it.
  pub nearest_lem :
      (s b : Slot)
      → nearest free line ≡ some b
      → In s free
      → (distance b.0 line < distance s.0 line)
        ⊎ ((distance b.0 line ≡ distance s.0 line) × (b.0 ≤ s.0))
  nearest_lem s b e m =
      strictly (distance b.0 line) (distance s.0 line) b.0 s.0 (nearest-bounds s b e m)
