-- ===== src/Delta/Conservation.antt =====
-- delta.rs: the state after the five passes of `match_candidates`, and its report.
use rust_doctor.Prelude.{
  ℕ, zero, suc, ◌+◌, ◌≤◌, ◌≡◌, ◌⊎◌, refl, ◌∙◌, Bool, true, false, not, Option, none, some, List, [],
  ◌∷◌, arith, Ord, option_ord, list_ord, pair_ord, nat_ord, is_none, is_some, Option-cases, inl,
  inr, length, length-map, length-replicate, get_elem?, zip, retain, filter_map,
}
use rust_doctor.Report.{source_ord}
use rust_doctor.Delta.Matching.{
  Candidate, Matching, new, pass, unconsumed, unmatched, same_path_stable, same_path_unproven,
  same_path_proven, same_path_fallback, same_rule, moved_stable,
}
use rust_doctor.Delta.Summary.{
  DeltaMatch, first_passes, final_pass, introduced_of, match_of, fixed_of, match_candidates,
}
use rust_doctor.Delta.Occurrences.{one_if}
use rust_doctor.Delta.Balance.{hits, taken, count_taken, count_named, Balanced, new-Balanced}
use rust_doctor.Delta.Passes.{pass-Closed, pass_exhausts}

module _ (baseline current : List Candidate) where
  -- What holds of the vectors between two passes.
  record IsSound (m : Matching) : Type 0 where
    balanced : Balanced m
    bases_length : length m.consumed ≡ length baseline
    frees_length : length m.matched ≡ length current

  new-IsSound : IsSound (new baseline current)
  unfolding new
  new-IsSound = record {
    balanced = unfold new in new-Balanced baseline current;
    bases_length = length-replicate (length baseline) false;
    frees_length = length-replicate (length current) none;
  }

  pass-IsSound :
      {K : Type 0} ⦃o : Ord K⦄ (kb kc : Candidate → Option K) (m : Matching)
      → IsSound m
      → IsSound (pass baseline current kb kc m).flags
  pass-IsSound kb kc m h =
      let closed = pass-Closed baseline current kb kc m in
      record {
        balanced = closed.kept h.balanced;
        bases_length = closed.bases_length ∙ h.bases_length;
        frees_length = closed.frees_length ∙ h.frees_length;
      }

  final-IsSound : IsSound (final_pass baseline current).flags
  unfolding final_pass first_passes
  final-IsSound = pass-IsSound same_rule same_rule _ (
      pass-IsSound moved_stable moved_stable _ (
        pass-IsSound same_path_fallback same_path_unproven _ (
          pass-IsSound same_path_unproven same_path_proven _
            (pass-IsSound same_path_stable same_path_stable _ new-IsSound))))

  -- After the five passes the number of current findings that name a base finding is one if the
  -- base finding is consumed and zero if it is not.
  pub base_named_once :
      (b : ℕ)
      → hits b (final_pass baseline current).matched
        ≡ one_if (taken b (final_pass baseline current).consumed)
  base_named_once b = final-IsSound.balanced.once b

  -- After the five passes a base finding and a current finding of the same place, source and rule
  -- are not both unpaired: the base finding is consumed or the current finding is matched.
  pub no_pair_left :
      (b c : ℕ) (base finding : Candidate)
      → get_elem? baseline b ≡ some base
      → get_elem? current c ≡ some finding
      → base.place ≡ finding.place
      → base.diagnostic.source ≡ finding.diagnostic.source
      → base.diagnostic.code ≡ finding.diagnostic.code
      → (unconsumed (final_pass baseline current).consumed b ≡ false)
        ⊎ (unmatched (final_pass baseline current).matched c ≡ false)
  unfolding final_pass same_rule
  no_pair_left b c base finding hb hc p s r =
      pass_exhausts baseline current same_rule same_rule
        (first_passes baseline current (new baseline current))
        (finding.place, (finding.diagnostic.source, finding.diagnostic.code)) b c base finding hb hc
        (rw (p, s, r)) refl

introduced-length :
    (cs : List Candidate) (ms : List (Option ℕ))
    → length ms ≡ length cs
    → length (retain (λ (p : Candidate × Option ℕ). is_none p.1) (zip cs ms)) + count_named ms
      ≡ length cs
introduced-length [] [] h = refl
introduced-length [] (x ∷ ms) h = absurd (omega arith)
introduced-length (c ∷ cs) [] h = absurd (omega arith)
introduced-length (c ∷ cs) (none ∷ ms) h = omega (arith, introduced-length cs ms (omega arith))
introduced-length (c ∷ cs) (some b ∷ ms) h = omega (arith, introduced-length cs ms (omega arith))

fixed-length :
    (cs : List Candidate) (bs : List Bool)
    → length bs ≡ length cs
    → length (retain (λ (p : Candidate × Bool). not p.1) (zip cs bs)) + count_taken bs ≡ length cs
fixed-length [] [] h = refl
fixed-length [] (x ∷ bs) h = absurd (omega arith)
fixed-length (c ∷ cs) [] h = absurd (omega arith)
fixed-length (c ∷ cs) (true ∷ bs) h = omega (arith, fixed-length cs bs (omega arith))
fixed-length (c ∷ cs) (false ∷ bs) h = omega (arith, fixed-length cs bs (omega arith))

taken-range :
    (b : ℕ) (xs : List Bool) (ys : List Candidate)
    → length xs ≡ length ys
    → one_if (taken b xs) ≤ one_if (is_some (get_elem? ys b))
taken-range b [] ys h = omega arith
taken-range b (x ∷ xs) [] h = absurd (omega arith)
taken-range zero (x ∷ xs) (y ∷ ys) h = ground arith
taken-range (suc b) (x ∷ xs) (y ∷ ys) h = taken-range b xs ys (omega arith)

module _ (baseline : List Candidate) where
  match_of-some :
      (c : Candidate) (b : ℕ)
      → 1 ≤ one_if (is_some (get_elem? baseline b))
      → (d : DeltaMatch) × (match_of baseline (c, some b) ≡ some d)
  unfolding match_of
  match_of-some c b h = elim (Option-cases (get_elem? baseline b)) [
    | inl e ↦ absurd (ground arith)
    | inr (base, e) ↦
        (record { current_id = c.diagnostic.id; baseline_id = base.diagnostic.id }, rw e)
  ]

  match_of-none : (c : Candidate) → match_of baseline (c, none) ≡ none
  unfolding match_of
  match_of-none c = refl

  pre_existing-length :
      (cs : List Candidate) (ms : List (Option ℕ))
      → length ms ≡ length cs
      → ((b : ℕ) → hits b ms ≤ one_if (is_some (get_elem? baseline b)))
      → length (filter_map (match_of baseline) (zip cs ms)) ≡ count_named ms
  pre_existing-length [] [] h r = refl
  pre_existing-length [] (x ∷ ms) h r = absurd (omega arith)
  pre_existing-length (c ∷ cs) [] h r = absurd (omega arith)
  pre_existing-length (c ∷ cs) (none ∷ ms) h r =
      rw (match_of-none c, filter_map) (pre_existing-length cs ms (omega arith) r)
  pre_existing-length (c ∷ cs) (some b ∷ ms) h r =
      let (d, e) = match_of-some c b (ground (arith, r b)) in
      rw (e, filter_map)
        (omega (arith, pre_existing-length cs ms (omega arith) (λ a. omega (arith, r a))))

-- The report of any two lists of candidates counts every current finding as introduced or
-- pre-existing, and every base finding as pre-existing or fixed.
pub delta_conserves :
    (baseline current : List Candidate)
    → let report = match_candidates baseline current in
      (report.summary.introduced_count + report.summary.pre_existing_count
        ≡ report.current_diagnostics)
      × (report.summary.pre_existing_count + report.summary.fixed_count ≡ report.base_diagnostics)
unfolding match_candidates introduced_of fixed_of
delta_conserves baseline current =
    let m = (final_pass baseline current).flags in
    let sound = final-IsSound baseline current in
    let pre = pre_existing-length baseline current m.matched sound.frees_length (λ b.
      omega (arith, sound.balanced.once b, taken-range b m.consumed baseline sound.bases_length)) in
    (
      omega (
        arith,
        pre,
        introduced-length current m.matched sound.frees_length,
        length-map {0, 0} (λ (p : Candidate × Option ℕ). p.0.diagnostic.id)
            (retain (λ p. is_none p.1) (zip current m.matched)),
      ),
      omega (
        arith,
        pre,
        sound.balanced.counts,
        fixed-length baseline m.consumed sound.bases_length,
        length-map {0, 0} (λ (p : Candidate × Bool). p.0.diagnostic)
            (retain (λ p. not p.1) (zip baseline m.consumed)),
      ),
    )
