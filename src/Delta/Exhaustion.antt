-- ===== src/Delta/Exhaustion.antt =====
-- delta.rs: when the loop over a group in `Matching::pass` stops.
use rust_doctor.Prelude.{
  ℕ, ◌≤◌, ◌≡◌, refl, ◌⊎◌, inl, inr, Bool, true, false, none, some, List, [], ◌∷◌, arith, retain,
  Option-cases,
}
use rust_doctor.Delta.Nearest.{Slot, slot_before, last, nearest, remove_slot, sort_slots}
use rust_doctor.Delta.Matching.{
  Group, Matching, Pass, unconsumed, unmatched, mark, pair_group, pair_groups,
}
use rust_doctor.Delta.Occurrences.{
  one_if, occ, occ_bases, occ_frees, occ-sort_slots, occ-remove_slot, nearest-In,
}
use rust_doctor.Delta.Balance.{unconsumed-set, unmatched-set}
use rust_doctor.Delta.Pairing.{
  Fresh-sort, Fresh-rest, Fresh, Closed, rest-Fresh, pair_group-Closed, pair_groups-Closed,
}

last-none : (s : Slot) (ss : List Slot) → last (s ∷ ss) ≡ none → ⊥
unfolding last
last-none s ss h = ground arith

-- `nearest` answers nothing only when nothing is free.
pub nearest-none : (free : List Slot) (line : ℕ) → nearest free line ≡ none → free ≡ []
unfolding nearest
nearest-none [] line h = refl
nearest-none ((l, i) ∷ free) line h =
    absurd (ground (arith, last-none (l, i) (retain (λ s. slot_before s (line, 0)) free)))

-- All of the bases, or all of the free findings, are paired.
abbrev pub Exhausted : (bases free : ℕ → ℕ) → Matching → Type 0
Exhausted bases free m =
    ((i : ℕ) → 1 ≤ bases i → unconsumed m.consumed i ≡ false)
    ⊎ ((i : ℕ) → 1 ≤ free i → unmatched m.matched i ≡ false)

stays_false : (b b' : Bool) → one_if b' ≤ one_if b → b ≡ false → b' ≡ false
stays_false b true h e = ground arith
stays_false b false h e = refl

Exhausted-Closed :
    (f g f' g' : ℕ → ℕ) (m m' : Matching) → Closed f' g' m m' → Exhausted f g m → Exhausted f g m'
Exhausted-Closed f g f' g' m m' closed (inl h) =
    inl (λ i pos. stays_false _ _ (closed.bases_fall i) (h i pos))
Exhausted-Closed f g f' g' m m' closed (inr h) =
    inr (λ i pos. stays_false _ _ (closed.frees_fall i) (h i pos))

-- What is exhausted of the rest of a group after its first pairing is exhausted of the group.
Exhausted-next :
    (line b : ℕ) (bases free : List Slot) (p : Pass) (l c : ℕ) (m' : Matching)
    → nearest free line ≡ some (l, c)
    → Closed (λ i. occ i bases) (λ i. occ i (remove_slot (l, c) free)) (mark b c p).flags m'
    → Exhausted (λ i. occ i bases) (λ i. occ i (remove_slot (l, c) free)) m'
    → Exhausted (λ i. occ i ((line, b) ∷ bases)) (λ i. occ i free) m'
unfolding mark
Exhausted-next line b bases free p l c m' found closed (inl h) =
    inl (λ i pos. ground (arith, unconsumed-set p.consumed b i, closed.bases_fall i, h i))
Exhausted-next line b bases free p l c m' found closed (inr h) = inr (λ i pos. ground (
  arith,
  unmatched-set p.matched c b i,
  closed.frees_fall i,
  occ-remove_slot i l c free (nearest-In free line (l, c) found),
  h i,
))

pub pair_group-Exhausted :
    (bases free : List Slot) (p : Pass)
    → Fresh (λ i. occ i bases) (λ i. occ i free) p.flags
    → Exhausted (λ i. occ i bases) (λ i. occ i free) (pair_group bases free p).flags
unfolding pair_group
pair_group-Exhausted [] free p fresh = inl (λ i pos. absurd (omega arith))
pair_group-Exhausted ((line, b) ∷ bases) free p fresh = elim (Option-cases (nearest free line)) [
  | inl e ↦ rw (e, pair_group) (inr (λ i pos. absurd (ground (arith, nearest-none free line e))))
  | inr ((l, c), e) ↦
      rw (e, pair_group)
        (Exhausted-next line b bases free p l c _ e
          (pair_group-Closed bases (remove_slot (l, c) free) (mark b c p)
            (rest-Fresh line b bases free p l c e fresh))
          (pair_group-Exhausted bases (remove_slot (l, c) free) (mark b c p)
            (rest-Fresh line b bases free p l c e fresh)))
]

-- Every group is exhausted after the loop over the groups.
abbrev pub AllExhausted : List Group → Matching → Type 0
AllExhausted [] m = Unit
AllExhausted (g ∷ gs) m = Exhausted (λ i. occ i g.0) (λ i. occ i g.1) m × AllExhausted gs m

Exhausted-sort :
    (bases free : List Slot) (m : Matching)
    → Exhausted (λ i. occ i (sort_slots bases)) (λ i. occ i free) m
    → Exhausted (λ i. occ i bases) (λ i. occ i free) m
Exhausted-sort bases free m (inl h) = inl (λ i pos. h i (omega (arith, occ-sort_slots i bases)))
Exhausted-sort bases free m (inr h) = inr h

pub pair_groups-AllExhausted :
    (gs : List Group) (p : Pass)
    → Fresh (λ i. occ_bases i gs) (λ i. occ_frees i gs) p.flags
    → AllExhausted gs (pair_groups gs p).flags
unfolding pair_groups
pair_groups-AllExhausted [] p fresh = tt
pair_groups-AllExhausted ((bases, free) ∷ gs) p fresh =
    let rest = Fresh-rest bases free gs p fresh in
    let q = pair_group (sort_slots bases) free p in
    (
      Exhausted-Closed _ _ (λ i. occ_bases i gs) (λ i. occ_frees i gs) q.flags _
          (pair_groups-Closed gs q rest)
          (Exhausted-sort bases free _ (
            pair_group-Exhausted (sort_slots bases) free p
              (Fresh-sort bases free gs p.flags fresh))),
      pair_groups-AllExhausted gs q rest,
    )
