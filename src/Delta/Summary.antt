-- ===== src/Delta/Summary.antt =====
-- delta.rs, `match_candidates` and `into_report`: the five passes and the published report.
use rust_doctor.Prelude.{
  ℕ, Bool, false, not, Option, none, some, List, map, option_ord, list_ord, pair_ord, nat_ord, same,
  length, get_elem?, filter_map, is_none, and_then, zip, retain,
}
use rust_doctor.Report.{Text, source_ord, Diagnostic}
use rust_doctor.Delta.Matching.{
  Candidate, Matching, Pass, new, pass, same_path_stable, same_path_unproven, same_path_proven,
  same_path_fallback, same_rule, moved_stable,
}

pub record DeltaMatch : Type 0 where
  pub current_id : Text
  pub baseline_id : Text

pub record DeltaSummary : Type 0 where
  pub introduced_count : ℕ
  pub pre_existing_count : ℕ
  pub fixed_count : ℕ
  pub cross_file_matches : ℕ
  pub rule_count_matches : ℕ

pub record DeltaReport : Type 0 where
  pub fingerprint_version : ℕ
  pub base_diagnostics : ℕ
  pub current_diagnostics : ℕ
  pub introduced : List Text
  pub pre_existing : List DeltaMatch
  pub fixed : List Diagnostic
  pub summary : DeltaSummary

abbrev pub fingerprint_version : ℕ
fingerprint_version = 1

unfoldable pub introduced_of : List (Candidate × Option ℕ) → List Text
introduced_of pairs = map (λ p. p.0.diagnostic.id) (retain (λ p. is_none p.1) pairs)

unfoldable pub fixed_of : List (Candidate × Bool) → List Diagnostic
fixed_of pairs = map (λ p. p.0.diagnostic) (retain (λ p. not p.1) pairs)

-- A pair of findings in two files.
unfoldable pub crosses : List Candidate → Candidate → Option ℕ → Bool
crosses baseline candidate matched = elim (and_then matched (get_elem? baseline)) [
  | none ↦ false
  | some base ↦ not (same base.diagnostic.path candidate.diagnostic.path)
]

unfoldable pub match_of : List Candidate → Candidate × Option ℕ → Option DeltaMatch
match_of baseline (candidate, matched) = and_then matched (λ index.
    and_then (get_elem? baseline index) (λ base.
      some (record { current_id = candidate.diagnostic.id; baseline_id = base.diagnostic.id })))

module _ (baseline current : List Candidate) where
  -- The passes of `match_candidates` before the last, and the last.
  unfoldable pub first_passes : Matching → Matching
  unfolding pass
  first_passes m0 =
      let m1 = (pass baseline current same_path_stable same_path_stable m0).flags in
      let m2 = (pass baseline current same_path_unproven same_path_proven m1).flags in
      let m3 = (pass baseline current same_path_fallback same_path_unproven m2).flags in
      (pass baseline current moved_stable moved_stable m3).flags

  unfoldable pub final_pass : Pass
  unfolding first_passes new
  final_pass = pass baseline current same_rule same_rule (first_passes (new baseline current))

  unfoldable pub into_report : Matching → ℕ → DeltaReport
  unfolding crosses introduced_of match_of fixed_of
  into_report m rule_count =
      let pairs = zip current m.matched in
      let introduced = introduced_of pairs in
      let pre_existing = filter_map (match_of baseline) pairs in
      let fixed = fixed_of (zip baseline m.consumed) in
      record {
        fingerprint_version = fingerprint_version;
        base_diagnostics = length baseline;
        current_diagnostics = length current;
        introduced = introduced;
        pre_existing = pre_existing;
        fixed = fixed;
        summary = record {
          introduced_count = length introduced;
          pre_existing_count = length pre_existing;
          fixed_count = length fixed;
          cross_file_matches = length (retain (λ p. crosses baseline p.0 p.1) pairs);
          rule_count_matches = rule_count;
        };
      }

  unfoldable pub match_candidates : DeltaReport
  unfolding final_pass into_report
  match_candidates = into_report final_pass.flags (length final_pass.made)
