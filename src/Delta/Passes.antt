-- ===== src/Delta/Passes.antt =====
-- delta.rs: one whole `Matching::pass`, from its groups to its vectors.
use Prim.Native.Nat.Ordering.{lt, eq, gt}
use rust_doctor.Prelude.{
  Ordering, ℕ, ◌+◌, ◌≤◌, ◌≡◌, refl, sym, ◌∙◌, ◌⊎◌, inl, inr, Bool, true, false, Option, none, some,
  List, [], ◌∷◌, arith, Ord, get_elem?,
}
use mathlib.Core.Bool.{false≢true}
use rust_doctor.BTree.{Map, get, values}
use rust_doctor.Delta.Matching.{
  Candidate, Group, Matching, unconsumed, unmatched, collect_bases, groups_of, pass,
}
use rust_doctor.Delta.Occurrences.{
  one_if, occ, occ_bases, occ_frees, occ_bases-collect_bases, occ_frees-collect_free,
  occ_frees-collect_bases, occ_bases-collect_free,
}
use rust_doctor.Delta.Pairing.{Fresh, Closed, pair_groups-Closed}
use rust_doctor.Delta.Exhaustion.{Exhausted, AllExhausted, pair_groups-AllExhausted}
use rust_doctor.Delta.Collected.{
  bases_of, frees_of, collect_bases-adds, collect_free-keeps, collect_free-adds,
}

one_if-le : (b b' : Bool) → one_if b' ≤ one_if b → b' ≡ true → b ≡ true
one_if-le true b' h e = refl
one_if-le false b' h e = ground arith

Exhausted-cases :
    (c : Ordering) (g : Group) (rest : Option Group) (m : Matching)
    → Exhausted (λ i. occ i g.0) (λ i. occ i g.1) m
    → Exhausted (λ i. occ i (bases_of rest)) (λ i. occ i (frees_of rest)) m
    → let found : Option Group = elim c [ lt ↦ none | eq ↦ some g | gt ↦ rest ] in
      Exhausted (λ i. occ i (bases_of found)) (λ i. occ i (frees_of found)) m
Exhausted-cases lt g rest m here there = inl (λ i pos. absurd (omega arith))
Exhausted-cases eq g rest m here there = here
Exhausted-cases gt g rest m here there = there

either_false : (a b : Bool) → (a ≡ true → b ≡ true → ⊥) → (a ≡ false) ⊎ (b ≡ false)
either_false false b h = inl refl
either_false true false h = inr refl
either_false true true h = absurd (h refl refl)

module _ {K : Type 0} ⦃o : Ord K⦄ where
  AllExhausted-get :
      (k : K) (groups : Map K Group) (m : Matching)
      → AllExhausted (values groups) m
      → Exhausted (λ i. occ i (bases_of (get k groups))) (λ i. occ i (frees_of (get k groups))) m
  unfolding get
  AllExhausted-get k [] m h = inl (λ i pos. absurd (omega arith))
  AllExhausted-get k ((j, g) ∷ groups) m h =
      Exhausted-cases (o.cmp k j) g (get k groups) m h.0 (AllExhausted-get k groups m h.1)

module _ {K : Type 0} ⦃o : Ord K⦄ (baseline current : List Candidate)
    (baseline_key current_key : Candidate → Option K) (m : Matching) where
  -- What a pass collects is open.
  groups_of-Fresh :
      Fresh
        (λ i. occ_bases i (values (groups_of baseline current baseline_key current_key m)))
        (λ i. occ_frees i (values (groups_of baseline current baseline_key current_key m)))
        m
  unfolding groups_of
  groups_of-Fresh =
      let collected = collect_bases baseline_key m.consumed 0 baseline [] in
      record {
        fresh_bases = λ i. ground (
          arith,
          occ_bases-collect_free current_key m.matched i 0 current collected,
          occ_bases-collect_bases baseline_key m.consumed i 0 baseline [],
        );
        fresh_frees = λ i. ground (
          arith,
          occ_frees-collect_free current_key m.matched i 0 current collected,
          occ_frees-collect_bases baseline_key m.consumed i 0 baseline [],
        );
      }

  pub pass-Closed :
      Closed
        (λ i. occ_bases i (values (groups_of baseline current baseline_key current_key m)))
        (λ i. occ_frees i (values (groups_of baseline current baseline_key current_key m)))
        m
        (pass baseline current baseline_key current_key m).flags
  unfolding pass
  pass-Closed =
      pair_groups-Closed (values (groups_of baseline current baseline_key current_key m))
        (record { flags = m; made = [] }) groups_of-Fresh

  group_Exhausted :
      (k : K)
      → let g = get k (groups_of baseline current baseline_key current_key m) in
        Exhausted
          (λ i. occ i (bases_of g))
          (λ i. occ i (frees_of g))
          (pass baseline current baseline_key current_key m).flags
  unfolding pass
  group_Exhausted k = AllExhausted-get k (groups_of baseline current baseline_key current_key m) _ (
      pair_groups-AllExhausted (values (groups_of baseline current baseline_key current_key m))
        (record { flags = m; made = [] }) groups_of-Fresh)

  collected_base :
      (k : K) (b : ℕ) (base : Candidate)
      → get_elem? baseline b ≡ some base
      → baseline_key base ≡ some k
      → unconsumed m.consumed b ≡ true
      → 1 ≤ occ b (bases_of (get k (groups_of baseline current baseline_key current_key m)))
  unfolding groups_of
  collected_base k b base hb kb hu =
      let collected = collect_bases baseline_key m.consumed 0 baseline [] in
      let e : 0 + b ≡ b = omega arith in
      rw (collect_free-keeps k current_key m.matched 0 current collected) (
        rw e at (collect_bases-adds k baseline_key m.consumed 0 b base baseline [] hb kb (rw e hu)))

  collected_free :
      (k : K) (b c : ℕ) (base finding : Candidate)
      → get_elem? baseline b ≡ some base
      → baseline_key base ≡ some k
      → unconsumed m.consumed b ≡ true
      → get_elem? current c ≡ some finding
      → current_key finding ≡ some k
      → unmatched m.matched c ≡ true
      → 1 ≤ occ c (frees_of (get k (groups_of baseline current baseline_key current_key m)))
  unfolding groups_of
  collected_free k b c base finding hb kb hu hc kc hm =
      let collected = collect_bases baseline_key m.consumed 0 baseline [] in
      let e : 0 + c ≡ c = omega arith in
      let e' : 0 + b ≡ b = omega arith in
      rw e at (
        collect_free-adds k current_key m.matched 0 c b finding current collected hc kc (rw e hm) (
          rw e' at
            (collect_bases-adds k baseline_key m.consumed 0 b base baseline [] hb kb (rw e' hu))))

  no_open_pair :
      (k : K) (b c : ℕ) (base finding : Candidate)
      → get_elem? baseline b ≡ some base
      → get_elem? current c ≡ some finding
      → baseline_key base ≡ some k
      → current_key finding ≡ some k
      → unconsumed (pass baseline current baseline_key current_key m).consumed b ≡ true
      → unmatched (pass baseline current baseline_key current_key m).matched c ≡ true
      → ⊥
  no_open_pair k b c base finding hb hc kb kc open_b open_c =
      let was_b = one_if-le _ _ (pass-Closed.bases_fall b) open_b in
      let was_c = one_if-le _ _ (pass-Closed.frees_fall c) open_c in
      elim (group_Exhausted k) [
        | inl h ↦ false≢true (sym (h b (collected_base k b base hb kb was_b)) ∙ open_b)
        | inr h ↦
            false≢true
              (sym (h c (collected_free k b c base finding hb kb was_b hc kc was_c)) ∙ open_c)
      ]

  -- After a pass a base finding and a current finding to which the pass gives the same key are not
  -- both unpaired: the base finding is consumed or the current finding is matched.
  pub pass_exhausts :
      (k : K) (b c : ℕ) (base finding : Candidate)
      → get_elem? baseline b ≡ some base
      → get_elem? current c ≡ some finding
      → baseline_key base ≡ some k
      → current_key finding ≡ some k
      → (unconsumed (pass baseline current baseline_key current_key m).consumed b ≡ false)
        ⊎ (unmatched (pass baseline current baseline_key current_key m).matched c ≡ false)
  pass_exhausts k b c base finding hb hc kb kc =
      either_false _ _ (no_open_pair k b c base finding hb hc kb kc)
