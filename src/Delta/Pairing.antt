-- ===== src/Delta/Pairing.antt =====
-- What one group's loop, and the loop over the groups, leave behind.
use rust_doctor.Prelude.{
  ℕ, ◌+◌, ◌≤◌, ◌≡◌, refl, inl, inr, Bool, true, false, some, List, [], ◌∷◌, arith, ◌==◌, length,
  length-set, Option-cases, ◌∙◌,
}
use rust_doctor.Delta.Nearest.{Slot, nearest, remove_slot, sort_slots}
use rust_doctor.Delta.Matching.{
  Group, Matching, Pass, unconsumed, unmatched, mark, pair_group, pair_groups,
}
use rust_doctor.Delta.Occurrences.{
  one_if, occ, occ_bases, occ_frees, In, occ-sort_slots, occ-remove_slot, nearest-In,
}
use rust_doctor.Delta.Balance.{Balanced, unconsumed-set, unmatched-set, mark-Balanced}

-- The slots of two lists are open: none stands twice, and each is still unpaired.
pub record Fresh (bases free : ℕ → ℕ) (m : Matching) : Type 0 where
  pub fresh_bases : (i : ℕ) → bases i ≤ one_if (unconsumed m.consumed i)
  pub fresh_frees : (i : ℕ) → free i ≤ one_if (unmatched m.matched i)

-- From `m` to `m'` only the slots of two lists were closed.
pub record Closed (bases free : ℕ → ℕ) (m m' : Matching) : Type 0 where
  pub kept : Balanced m → Balanced m'
  pub bases_kept :
      (i : ℕ) → one_if (unconsumed m.consumed i) ≤ one_if (unconsumed m'.consumed i) + bases i
  pub frees_kept :
      (i : ℕ) → one_if (unmatched m.matched i) ≤ one_if (unmatched m'.matched i) + free i
  pub bases_fall : (i : ℕ) → one_if (unconsumed m'.consumed i) ≤ one_if (unconsumed m.consumed i)
  pub frees_fall : (i : ℕ) → one_if (unmatched m'.matched i) ≤ one_if (unmatched m.matched i)
  pub bases_length : length m'.consumed ≡ length m.consumed
  pub frees_length : length m'.matched ≡ length m.matched

-- A slot of a list counts.
pub occ_of_In : (l i : ℕ) (ss : List Slot) → In (l, i) ss → 1 ≤ occ i ss
occ_of_In l i [] h = absurd h
occ_of_In l i ((m, j) ∷ ss) (inl e) = ground arith
occ_of_In l i ((m, j) ∷ ss) (inr h) = omega (arith, occ_of_In l i ss h)

Closed-refl : (bases free : ℕ → ℕ) (m : Matching) → Closed bases free m m
Closed-refl bases free m = record {
  kept = λ h. h;
  bases_kept = λ i. omega arith;
  frees_kept = λ i. omega arith;
  bases_fall = λ i. omega arith;
  frees_fall = λ i. omega arith;
  bases_length = refl;
  frees_length = refl;
}

one_if-pos : (b : Bool) → 1 ≤ one_if b → b ≡ true
one_if-pos true h = refl
one_if-pos false h = absurd (omega arith)

-- One pairing closes one base and one current finding.
Closed-mark :
    (b c : ℕ) (p : Pass)
    → unconsumed p.consumed b ≡ true
    → unmatched p.matched c ≡ true
    → Closed (λ i. one_if (b == i)) (λ i. one_if (c == i)) p.flags (mark b c p).flags
unfolding mark
Closed-mark b c p hb hc = record {
  kept = unfold mark in mark-Balanced b c p hb hc;
  bases_kept = λ i. ground (arith, unconsumed-set p.consumed b i);
  frees_kept = λ i. ground (arith, unmatched-set p.matched c b i);
  bases_fall = λ i. ground (arith, unconsumed-set p.consumed b i);
  frees_fall = λ i. ground (arith, unmatched-set p.matched c b i);
  bases_length = length-set p.consumed b true;
  frees_length = length-set p.matched c (some b);
}

pub Closed-trans :
    (f g f' g' f'' g'' : ℕ → ℕ) (m n k : Matching)
    → ((i : ℕ) → f i + f' i ≤ f'' i)
    → ((i : ℕ) → g i + g' i ≤ g'' i)
    → Closed f g m n
    → Closed f' g' n k
    → Closed f'' g'' m k
Closed-trans f g f' g' f'' g'' m n k ef eg p q = record {
  kept = λ h. q.kept (p.kept h);
  bases_kept = λ i. omega (arith, ef i, p.bases_kept i, q.bases_kept i);
  frees_kept = λ i. omega (arith, eg i, p.frees_kept i, q.frees_kept i);
  bases_fall = λ i. omega (arith, p.bases_fall i, q.bases_fall i);
  frees_fall = λ i. omega (arith, p.frees_fall i, q.frees_fall i);
  bases_length = q.bases_length ∙ p.bases_length;
  frees_length = q.frees_length ∙ p.frees_length;
}

-- The pairing that the loop over a group makes first, when a free finding is left.
module _ (line b : ℕ) (bases free : List Slot) (p : Pass) (l c : ℕ)
    (found : nearest free line ≡ some (l, c))
    (fresh : Fresh (λ i. occ i ((line, b) ∷ bases)) (λ i. occ i free) p.flags) where
  pub first-Closed : Closed (λ i. one_if (b == i)) (λ i. one_if (c == i)) p.flags (mark b c p).flags
  first-Closed = Closed-mark b c p (one_if-pos _ (ground (arith, fresh.fresh_bases b))) (
      one_if-pos _ (
        omega (arith, fresh.fresh_frees c, occ_of_In l c free (nearest-In free line (l, c) found))))

  pub rest-Fresh :
      Fresh (λ i. occ i bases) (λ i. occ i (remove_slot (l, c) free)) (mark b c p).flags
  rest-Fresh = record {
    fresh_bases = λ i. omega (arith, fresh.fresh_bases i, first-Closed.bases_kept i);
    fresh_frees = λ i. omega (
      arith,
      fresh.fresh_frees i,
      first-Closed.frees_kept i,
      occ-remove_slot i l c free (nearest-In free line (l, c) found),
    );
  }

pub pair_group-Closed :
    (bases free : List Slot) (p : Pass)
    → Fresh (λ i. occ i bases) (λ i. occ i free) p.flags
    → Closed (λ i. occ i bases) (λ i. occ i free) p.flags (pair_group bases free p).flags
unfolding pair_group
pair_group-Closed [] free p fresh = Closed-refl _ _ p.flags
pair_group-Closed ((line, b) ∷ bases) free p fresh = elim (Option-cases (nearest free line)) [
  | inl e ↦ rw (e, pair_group) (Closed-refl _ _ p.flags)
  | inr ((l, c), e) ↦
      rw (e, pair_group)
        (Closed-trans _ _ (λ i. occ i bases) (λ i. occ i (remove_slot (l, c) free)) _ _ p.flags
          (mark b c p).flags _ (λ i. omega arith)
          (λ i. omega (arith, occ-remove_slot i l c free (nearest-In free line (l, c) e)))
          (first-Closed line b bases free p l c e fresh)
          (pair_group-Closed bases (remove_slot (l, c) free) (mark b c p)
            (rest-Fresh line b bases free p l c e fresh)))
]

pub Fresh-sort :
    (bases free : List Slot) (gs : List Group) (m : Matching)
    → Fresh (λ i. occ_bases i ((bases, free) ∷ gs)) (λ i. occ_frees i ((bases, free) ∷ gs)) m
    → Fresh (λ i. occ i (sort_slots bases)) (λ i. occ i free) m
Fresh-sort bases free gs m fresh = record {
  fresh_bases = λ i. omega (arith, fresh.fresh_bases i, occ-sort_slots i bases);
  fresh_frees = λ i. omega (arith, fresh.fresh_frees i);
}

pub Closed-group :
    (bases free : List Slot) (gs : List Group) (p : Pass)
    → Fresh (λ i. occ_bases i ((bases, free) ∷ gs)) (λ i. occ_frees i ((bases, free) ∷ gs)) p.flags
    → Closed
        (λ i. occ i (sort_slots bases))
        (λ i. occ i free)
        p.flags
        (pair_group (sort_slots bases) free p).flags
Closed-group bases free gs p fresh =
    pair_group-Closed (sort_slots bases) free p (Fresh-sort bases free gs p.flags fresh)

-- The groups that are left are still open after one group.
pub Fresh-rest :
    (bases free : List Slot) (gs : List Group) (p : Pass)
    → Fresh (λ i. occ_bases i ((bases, free) ∷ gs)) (λ i. occ_frees i ((bases, free) ∷ gs)) p.flags
    → Fresh (λ i. occ_bases i gs) (λ i. occ_frees i gs) (pair_group (sort_slots bases) free p).flags
Fresh-rest bases free gs p fresh =
    let closed = Closed-group bases free gs p fresh in
    record {
      fresh_bases =
          λ i. omega (arith, fresh.fresh_bases i, closed.bases_kept i, occ-sort_slots i bases);
      fresh_frees = λ i. omega (arith, fresh.fresh_frees i, closed.frees_kept i);
    }

pub pair_groups-Closed :
    (gs : List Group) (p : Pass)
    → Fresh (λ i. occ_bases i gs) (λ i. occ_frees i gs) p.flags
    → Closed (λ i. occ_bases i gs) (λ i. occ_frees i gs) p.flags (pair_groups gs p).flags
unfolding pair_groups
pair_groups-Closed [] p fresh = Closed-refl _ _ p.flags
pair_groups-Closed ((bases, free) ∷ gs) p fresh =
    Closed-trans (λ i. occ i (sort_slots bases)) (λ i. occ i free) (λ i. occ_bases i gs)
      (λ i. occ_frees i gs) _ _ p.flags (pair_group (sort_slots bases) free p).flags _
      (λ i. omega (arith, occ-sort_slots i bases)) (λ i. omega arith)
      (Closed-group bases free gs p fresh)
      (pair_groups-Closed gs (pair_group (sort_slots bases) free p)
        (Fresh-rest bases free gs p fresh))
