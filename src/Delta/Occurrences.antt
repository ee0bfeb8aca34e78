-- ===== src/Delta/Occurrences.antt =====
-- How often an index stands among the slots of a group and of a grouping, and what each step of
-- `pass` does to that number.
use rust_doctor.Prelude.{
  ℕ, suc, ◌+◌, ◌≤◌, ◌≡◌, refl, ◌∙◌, ◌⊎◌, inl, inr, Bool, true, false, Option, none, some, List, [],
  ◌∷◌, ◌++◌, arith, Ord, leb, ◌==◌, if◌then◌else◌, not, find, retain,
}
use rust_doctor.BTree.{Map, entry, modify, values}
use rust_doctor.Delta.Nearest.{
  Slot, slot_before, insert_slot, remove_slot, last, nearest, insert_sorted, sort_slots,
}
use rust_doctor.Delta.Matching.{
  Candidate, Group, unconsumed, unmatched, add_base, add_free, collect_bases, collect_free,
}

abbrev pub one_if : Bool → ℕ
one_if true = 1
one_if false = 0

abbrev pub occ : ℕ → List Slot → ℕ
occ i [] = 0
occ i ((l, j) ∷ ss) = one_if (j == i) + occ i ss

-- Over the bases, or over the free findings, of all groups.
abbrev pub occ_bases : ℕ → List Group → ℕ
occ_bases i [] = 0
occ_bases i ((bases, free) ∷ gs) = occ i bases + occ_bases i gs

abbrev pub occ_frees : ℕ → List Group → ℕ
occ_frees i [] = 0
occ_frees i ((bases, free) ∷ gs) = occ i free + occ_frees i gs

abbrev pub In : Slot → List Slot → Type 0
In s [] = ⊥
In s (t ∷ ts) = (s ≡ t) ⊎ In s ts

pub occ-snoc :
    (i : ℕ) (ss : List Slot) (l j : ℕ) → occ i (ss ++ (l, j) ∷ []) ≡ occ i ss + one_if (j == i)
occ-snoc i [] l j = omega arith
occ-snoc i ((m, k) ∷ ss) l j = omega (arith, occ-snoc i ss l j)

pub occ-insert_sorted :
    (i l j : ℕ) (ss : List Slot) → occ i (insert_sorted (l, j) ss) ≡ one_if (j == i) + occ i ss
unfolding insert_sorted
occ-insert_sorted i l j [] = refl
occ-insert_sorted i l j ((m, k) ∷ ss) = ground (arith, occ-insert_sorted i l j ss)

pub occ-sort_slots : (i : ℕ) (ss : List Slot) → occ i (sort_slots ss) ≡ occ i ss
unfolding sort_slots
occ-sort_slots i [] = refl
occ-sort_slots i ((l, j) ∷ ss) =
    omega (arith, occ-insert_sorted i l j (sort_slots ss), occ-sort_slots i ss)

pub occ-insert_slot :
    (i l j : ℕ) (ss : List Slot) → occ i (insert_slot (l, j) ss) ≤ occ i ss + one_if (j == i)
unfolding insert_slot
occ-insert_slot i l j [] = omega arith
occ-insert_slot i l j ((m, k) ∷ ss) = ground (arith, occ-insert_slot i l j ss)

pub occ-remove_slot :
    (i l j : ℕ) (ss : List Slot)
    → In (l, j) ss
    → occ i (remove_slot (l, j) ss) + one_if (j == i) ≡ occ i ss
unfolding remove_slot
occ-remove_slot i l j [] h = absurd h
occ-remove_slot i l j ((m, k) ∷ ss) (inl e) = ground arith
occ-remove_slot i l j ((m, k) ∷ ss) (inr h) = ground (arith, occ-remove_slot i l j ss h)

-- What `nearest` answers is free.
last-In : (p : Slot → Bool) (ss : List Slot) (s : Slot) → last (retain p ss) ≡ some s → In s ss
unfolding last
last-In p [] s h = cc
last-In p (t ∷ ss) s h = ground (arith, last-In p ss s)

find-In : (p : Slot → Bool) (ss : List Slot) (s : Slot) → find p ss ≡ some s → In s ss
find-In p [] s h = cc
find-In p (t ∷ ss) s h = ground (arith, find-In p ss s)

pub nearest-In : (free : List Slot) (line : ℕ) (s : Slot) → nearest free line ≡ some s → In s free
unfolding nearest
nearest-In free line s h = ground (
  arith,
  last-In (λ t. slot_before t (line, 0)) free s,
  find-In (λ t. not (slot_before t (line, 0))) free s,
)

module _ {K : Type 0} ⦃o : Ord K⦄ where
  occ_bases-entry :
      (i l j : ℕ) (k : K) (groups : Map K Group)
      → occ_bases i (values (entry k ([], []) (λ g. (g.0 ++ (l, j) ∷ [], g.1)) groups))
        ≡ occ_bases i (values groups) + one_if (j == i)
  unfolding entry
  occ_bases-entry i l j k [] = omega arith
  occ_bases-entry i l j k ((k', (bases, free)) ∷ groups) =
      ground (arith, occ-snoc i bases l j, occ_bases-entry i l j k groups)

  occ_frees-entry :
      (i l j : ℕ) (k : K) (groups : Map K Group)
      → occ_frees i (values (entry k ([], []) (λ g. (g.0 ++ (l, j) ∷ [], g.1)) groups))
        ≡ occ_frees i (values groups)
  unfolding entry
  occ_frees-entry i l j k [] = omega arith
  occ_frees-entry i l j k ((k', (bases, free)) ∷ groups) =
      ground (arith, occ_frees-entry i l j k groups)

  occ_bases-modify :
      (i l j : ℕ) (k : K) (groups : Map K Group)
      → occ_bases i (values (modify k (λ g. (g.0, insert_slot (l, j) g.1)) groups))
        ≡ occ_bases i (values groups)
  unfolding modify
  occ_bases-modify i l j k [] = omega arith
  occ_bases-modify i l j k ((k', (bases, free)) ∷ groups) =
      ground (arith, occ_bases-modify i l j k groups)

  occ_frees-modify :
      (i l j : ℕ) (k : K) (groups : Map K Group)
      → occ_frees i (values (modify k (λ g. (g.0, insert_slot (l, j) g.1)) groups))
        ≤ occ_frees i (values groups) + one_if (j == i)
  unfolding modify
  occ_frees-modify i l j k [] = omega arith
  occ_frees-modify i l j k ((k', (bases, free)) ∷ groups) =
      ground (arith, occ-insert_slot i l j free, occ_frees-modify i l j k groups)

  occ_bases-add_base :
      (i : ℕ) (b : Bool) (key : Option K) (l j : ℕ) (groups : Map K Group)
      → occ_bases i (values (add_base b key (l, j) groups))
        ≤ occ_bases i (values groups) + (if j == i then one_if b else 0)
  unfolding add_base
  occ_bases-add_base i true (some k) l j groups = ground (arith, occ_bases-entry i l j k groups)
  occ_bases-add_base i true none l j groups = ground arith
  occ_bases-add_base i false key l j groups = ground arith

  occ_frees-add_free :
      (i : ℕ) (b : Bool) (key : Option K) (l j : ℕ) (groups : Map K Group)
      → occ_frees i (values (add_free b key (l, j) groups))
        ≤ occ_frees i (values groups) + (if j == i then one_if b else 0)
  unfolding add_free
  occ_frees-add_free i true (some k) l j groups = ground (arith, occ_frees-modify i l j k groups)
  occ_frees-add_free i true none l j groups = ground arith
  occ_frees-add_free i false key l j groups = ground arith

  occ_frees-add_base :
      (i : ℕ) (b : Bool) (key : Option K) (l j : ℕ) (groups : Map K Group)
      → occ_frees i (values (add_base b key (l, j) groups)) ≡ occ_frees i (values groups)
  unfolding add_base
  occ_frees-add_base i true (some k) l j groups = occ_frees-entry i l j k groups
  occ_frees-add_base i true none l j groups = refl
  occ_frees-add_base i false key l j groups = refl

  occ_bases-add_free :
      (i : ℕ) (b : Bool) (key : Option K) (l j : ℕ) (groups : Map K Group)
      → occ_bases i (values (add_free b key (l, j) groups)) ≡ occ_bases i (values groups)
  unfolding add_free
  occ_bases-add_free i true (some k) l j groups = occ_bases-modify i l j k groups
  occ_bases-add_free i true none l j groups = refl
  occ_bases-add_free i false key l j groups = refl

  pub occ_bases-collect_bases :
      (key : Candidate → Option K) (consumed : List Bool) (i j : ℕ) (cs : List Candidate)
      (groups : Map K Group)
      → occ_bases i (values (collect_bases key consumed j cs groups))
        ≤ occ_bases i (values groups) + (if leb j i then one_if (unconsumed consumed i) else 0)
  unfolding collect_bases
  occ_bases-collect_bases key consumed i j [] groups = ground arith
  occ_bases-collect_bases key consumed i j (c ∷ cs) groups = ground (
    arith,
    occ_bases-add_base i (unconsumed consumed j) (key c) c.line j groups,
    occ_bases-collect_bases key consumed i (suc j) cs
        (add_base (unconsumed consumed j) (key c) (c.line, j) groups),
  )

  pub occ_frees-collect_free :
      (key : Candidate → Option K) (matched : List (Option ℕ)) (i j : ℕ) (cs : List Candidate)
      (groups : Map K Group)
      → occ_frees i (values (collect_free key matched j cs groups))
        ≤ occ_frees i (values groups) + (if leb j i then one_if (unmatched matched i) else 0)
  unfolding collect_free
  occ_frees-collect_free key matched i j [] groups = ground arith
  occ_frees-collect_free key matched i j (c ∷ cs) groups = ground (
    arith,
    occ_frees-add_free i (unmatched matched j) (key c) c.line j groups,
    occ_frees-collect_free key matched i (suc j) cs
        (add_free (unmatched matched j) (key c) (c.line, j) groups),
  )

  -- What one loop collects the other leaves alone.
  pub occ_frees-collect_bases :
      (key : Candidate → Option K) (consumed : List Bool) (i j : ℕ) (cs : List Candidate)
      (groups : Map K Group)
      → occ_frees i (values (collect_bases key consumed j cs groups)) ≡ occ_frees i (values groups)
  unfolding collect_bases
  occ_frees-collect_bases key consumed i j [] groups = refl
  occ_frees-collect_bases key consumed i j (c ∷ cs) groups =
      occ_frees-collect_bases key consumed i (suc j) cs
        (add_base (unconsumed consumed j) (key c) (c.line, j) groups)
      ∙ occ_frees-add_base i (unconsumed consumed j) (key c) c.line j groups

  pub occ_bases-collect_free :
      (key : Candidate → Option K) (matched : List (Option ℕ)) (i j : ℕ) (cs : List Candidate)
      (groups : Map K Group)
      → occ_bases i (values (collect_free key matched j cs groups)) ≡ occ_bases i (values groups)
  unfolding collect_free
  occ_bases-collect_free key matched i j [] groups = refl
  occ_bases-collect_free key matched i j (c ∷ cs) groups =
      occ_bases-collect_free key matched i (suc j) cs
        (add_free (unmatched matched j) (key c) (c.line, j) groups)
      ∙ occ_bases-add_free i (unmatched matched j) (key c) c.line j groups
