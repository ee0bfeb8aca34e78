-- ===== src/Delta/Collected.antt =====
-- What the two loops that fill `groups` put into the group of one key.
use rust_doctor.Prelude.{
  ℕ, zero, suc, ◌+◌, ◌≤◌, ◌≡◌, refl, ◌∙◌, Bool, true, false, Option, none, some, List, [], ◌∷◌,
  ◌++◌, arith, Ord, same_iff, get_elem?,
}
use rust_doctor.BTree.{Map, get, get-entry, get-modify}
use rust_doctor.Delta.Nearest.{Slot, insert_slot}
use rust_doctor.Delta.Matching.{
  Candidate, Group, unconsumed, unmatched, add_base, add_free, collect_bases, collect_free,
}
use rust_doctor.Delta.Occurrences.{occ, occ-snoc}

abbrev pub bases_of : Option Group → List Slot
bases_of none = []
bases_of (some g) = g.0

abbrev pub frees_of : Option Group → List Slot
frees_of none = []
frees_of (some g) = g.1

occ-insert_slot_self : (l i : ℕ) (ss : List Slot) → 1 ≤ occ i (insert_slot (l, i) ss)
unfolding insert_slot
occ-insert_slot_self l i [] = ground arith
occ-insert_slot_self l i ((m, j) ∷ ss) = ground (arith, occ-insert_slot_self l i ss)

occ-le-insert_slot : (l j i : ℕ) (ss : List Slot) → occ i ss ≤ occ i (insert_slot (l, j) ss)
unfolding insert_slot
occ-le-insert_slot l j i [] = omega arith
occ-le-insert_slot l j i ((m, k) ∷ ss) = ground (arith, occ-le-insert_slot l j i ss)

module _ {K : Type 0} ⦃o : Ord K⦄ where
  add_base-grows :
      (i : ℕ) (k : K) (b : Bool) (key : Option K) (l j : ℕ) (groups : Map K Group)
      → occ i (bases_of (get k groups)) ≤ occ i (bases_of (get k (add_base b key (l, j) groups)))
  unfolding add_base
  add_base-grows i k true (some h) l j groups = ground (
    arith,
    get-entry k h ([], []) (λ (g : Group). (g.0 ++ (l, j) ∷ [], g.1)) groups,
    occ-snoc i (bases_of (get h groups)) l j,
    (same_iff k h).0,
  )
  add_base-grows i k true none l j groups = omega arith
  add_base-grows i k false key l j groups = omega arith

  add_base-adds :
      (k : K) (l j : ℕ) (groups : Map K Group)
      → 1 ≤ occ j (bases_of (get k (add_base true (some k) (l, j) groups)))
  unfolding add_base
  add_base-adds k l j groups = ground (
    arith,
    get-entry k k ([], []) (λ (g : Group). (g.0 ++ (l, j) ∷ [], g.1)) groups,
    occ-snoc j (bases_of (get k groups)) l j,
    (same_iff k k).1,
  )

  collect_bases-grows :
      (i : ℕ) (k : K) (key : Candidate → Option K) (consumed : List Bool) (j : ℕ)
      (cs : List Candidate) (groups : Map K Group)
      → occ i (bases_of (get k groups))
        ≤ occ i (bases_of (get k (collect_bases key consumed j cs groups)))
  unfolding collect_bases
  collect_bases-grows i k key consumed j [] groups = omega arith
  collect_bases-grows i k key consumed j (c ∷ cs) groups = omega (
    arith,
    add_base-grows i k (unconsumed consumed j) (key c) c.line j groups,
    collect_bases-grows i k key consumed (suc j) cs
        (add_base (unconsumed consumed j) (key c) (c.line, j) groups),
  )

  -- An unconsumed base with a key is collected under it.
  pub collect_bases-adds :
      (k : K) (key : Candidate → Option K) (consumed : List Bool) (j n : ℕ) (c : Candidate)
      (cs : List Candidate) (groups : Map K Group)
      → get_elem? cs n ≡ some c
      → key c ≡ some k
      → unconsumed consumed (j + n) ≡ true
      → 1 ≤ occ (j + n) (bases_of (get k (collect_bases key consumed j cs groups)))
  unfolding collect_bases
  collect_bases-adds k key consumed j n c [] groups hn hk hu = cc
  collect_bases-adds k key consumed j zero c (x ∷ cs) groups hn hk hu =
      let e : j + 0 ≡ j = omega arith in
      let here : x ≡ c = ground arith in
      rw (e, here, hk, rw e at hu)
        (omega (
          arith,
          add_base-adds k c.line j groups,
          collect_bases-grows j k key consumed (suc j) cs
              (add_base true (some k) (c.line, j) groups),
        ))
  collect_bases-adds k key consumed j (suc n) c (x ∷ cs) groups hn hk hu =
      let e : j + suc n ≡ suc j + n = omega arith in
      rw e (
        collect_bases-adds k key consumed (suc j) n c cs
          (add_base (unconsumed consumed j) (key x) (x.line, j) groups) hn hk (rw e at hu))

  add_free-keeps :
      (i : ℕ) (k : K) (b : Bool) (key : Option K) (l j : ℕ) (groups : Map K Group)
      → bases_of (get k (add_free b key (l, j) groups)) ≡ bases_of (get k groups)
  unfolding add_free
  add_free-keeps i k true (some h) l j groups =
      ground (arith, get-modify k h (λ (g : Group). (g.0, insert_slot (l, j) g.1)) groups)
  add_free-keeps i k true none l j groups = refl
  add_free-keeps i k false key l j groups = refl

  add_free-grows :
      (i : ℕ) (k : K) (b : Bool) (key : Option K) (l j : ℕ) (groups : Map K Group)
      → occ i (frees_of (get k groups)) ≤ occ i (frees_of (get k (add_free b key (l, j) groups)))
  unfolding add_free
  add_free-grows i k true (some h) l j groups = ground (
    arith,
    get-modify k h (λ (g : Group). (g.0, insert_slot (l, j) g.1)) groups,
    occ-le-insert_slot l j i (frees_of (get k groups)),
  )
  add_free-grows i k true none l j groups = omega arith
  add_free-grows i k false key l j groups = omega arith

  add_free-adds :
      (k : K) (l j b : ℕ) (groups : Map K Group)
      → 1 ≤ occ b (bases_of (get k groups))
      → 1 ≤ occ j (frees_of (get k (add_free true (some k) (l, j) groups)))
  unfolding add_free
  add_free-adds k l j b groups has = ground (
    arith,
    get-modify k k (λ (g : Group). (g.0, insert_slot (l, j) g.1)) groups,
    occ-insert_slot_self l j (frees_of (get k groups)),
    (same_iff k k).1,
  )

  pub collect_free-keeps :
      (k : K) (key : Candidate → Option K) (matched : List (Option ℕ)) (j : ℕ) (cs : List Candidate)
      (groups : Map K Group)
      → bases_of (get k (collect_free key matched j cs groups)) ≡ bases_of (get k groups)
  unfolding collect_free
  collect_free-keeps k key matched j [] groups = refl
  collect_free-keeps k key matched j (c ∷ cs) groups =
      collect_free-keeps k key matched (suc j) cs
        (add_free (unmatched matched j) (key c) (c.line, j) groups)
      ∙ add_free-keeps j k (unmatched matched j) (key c) c.line j groups

  collect_free-grows :
      (i : ℕ) (k : K) (key : Candidate → Option K) (matched : List (Option ℕ)) (j : ℕ)
      (cs : List Candidate) (groups : Map K Group)
      → occ i (frees_of (get k groups))
        ≤ occ i (frees_of (get k (collect_free key matched j cs groups)))
  unfolding collect_free
  collect_free-grows i k key matched j [] groups = omega arith
  collect_free-grows i k key matched j (c ∷ cs) groups = omega (
    arith,
    add_free-grows i k (unmatched matched j) (key c) c.line j groups,
    collect_free-grows i k key matched (suc j) cs
        (add_free (unmatched matched j) (key c) (c.line, j) groups),
  )

  -- An unmatched current finding joins the group of its key, when a base opened that group.
  pub collect_free-adds :
      (k : K) (key : Candidate → Option K) (matched : List (Option ℕ)) (j n b : ℕ) (c : Candidate)
      (cs : List Candidate) (groups : Map K Group)
      → get_elem? cs n ≡ some c
      → key c ≡ some k
      → unmatched matched (j + n) ≡ true
      → 1 ≤ occ b (bases_of (get k groups))
      → 1 ≤ occ (j + n) (frees_of (get k (collect_free key matched j cs groups)))
  unfolding collect_free
  collect_free-adds k key matched j n b c [] groups hn hk hu has = cc
  collect_free-adds k key matched j zero b c (x ∷ cs) groups hn hk hu has =
      let e : j + 0 ≡ j = omega arith in
      let here : x ≡ c = ground arith in
      rw (e, here, hk, rw e at hu)
        (omega (
          arith,
          add_free-adds k c.line j b groups has,
          collect_free-grows j k key matched (suc j) cs (add_free true (some k) (c.line, j) groups),
        ))
  collect_free-adds k key matched j (suc n) b c (x ∷ cs) groups hn hk hu has =
      let e : j + suc n ≡ suc j + n = omega arith in
      rw e (
        collect_free-adds k key matched (suc j) n b c cs
          (add_free (unmatched matched j) (key x) (x.line, j) groups) hn hk (rw e at hu)
          (rw (add_free-keeps j k (unmatched matched j) (key x) x.line j groups) has))
