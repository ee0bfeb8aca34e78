-- ===== src/Tests/Deltas.antt =====
-- The theorems on deltas at two findings on each side.
use rust_doctor.Prelude.{◌+◌, ◌≤◌, ◌<◌, ◌≡◌, ◌⊎◌, inl, inr, refl, false, some, List, [], ◌∷◌, arith}
use rust_doctor.Prelude.{list_ord, nat_ord, option_ord, pair_ord, cmp_list}
use rust_doctor.Report.{codes, source_ord, clippy}
use rust_doctor.Delta.Nearest.{Slot, nearest}
use rust_doctor.Delta.Matching.{new, pass, same_rule, unconsumed, unmatched}
use rust_doctor.Delta.Summary.{final_pass, match_candidates}
use rust_doctor.Delta.Occurrences.{one_if}
use rust_doctor.Delta.Balance.{hits, taken}
use rust_doctor.Delta.Distance.{distance, nearest_lem}
use rust_doctor.Delta.Passes.{pass_exhausts}
use rust_doctor.Delta.Conservation.{base_named_once, no_pair_left, delta_conserves}
use rust_doctor.Delta.DiffMap.{DiffMap, mapped_line}
use rust_doctor.Delta.DiffMap.Script.{Edit, keep, change, hunks_of, carried}
use rust_doctor.Delta.DiffMap.Carried.{mapped_line-carried}
use rust_doctor.BTree.{get}
use rust_doctor.Tests.Data.{candidate, baseline, current}

delta_conserves_example :
    let report = match_candidates baseline current in
    (report.summary.introduced_count + report.summary.pre_existing_count
      ≡ report.current_diagnostics)
    × (report.summary.pre_existing_count + report.summary.fixed_count ≡ report.base_diagnostics)
delta_conserves_example = delta_conserves baseline current

base_named_once_example :
    hits 0 (final_pass baseline current).matched
    ≡ one_if (taken 0 (final_pass baseline current).consumed)
base_named_once_example = base_named_once baseline current 0

pass_exhausts_example :
    (unconsumed (pass baseline current same_rule same_rule (new baseline current)).consumed 1
      ≡ false)
    ⊎ (unmatched (pass baseline current same_rule same_rule (new baseline current)).matched 0
        ≡ false)
unfolding same_rule
pass_exhausts_example =
    pass_exhausts baseline current same_rule same_rule (new baseline current)
      (some (codes "src/a.rs"), (clippy, some (codes "clippy::a"))) 1 0
      (candidate (codes "src/a.rs") 9) (candidate (codes "src/a.rs") 5) refl refl refl refl

no_pair_left_example :
    (unconsumed (final_pass baseline current).consumed 1 ≡ false)
    ⊎ (unmatched (final_pass baseline current).matched 0 ≡ false)
no_pair_left_example =
    no_pair_left baseline current 1 0 (candidate (codes "src/a.rs") 9)
      (candidate (codes "src/a.rs") 5) refl refl refl refl refl

abbrev free : List Slot
free = (3, 0) ∷ (7, 1) ∷ []

nearest_lem_example : (distance 3 5 < distance 7 5) ⊎ ((distance 3 5 ≡ distance 7 5) × (3 ≤ 7))
unfolding nearest
nearest_lem_example = nearest_lem 5 free ((refl, tt), (tt, tt)) (7, 1) (3, 0) refl (inr (inl refl))

abbrev edits : List Edit
edits = keep 2 ∷ change 1 3 ∷ keep 4 ∷ change 0 1 ∷ []

abbrev diff : DiffMap
diff = record { renames = []; hunks = (codes "src/a.rs", hunks_of edits 0 0) ∷ [] }

mapped_line-carried_example : mapped_line diff (codes "src/a.rs") 9 ≡ 12
unfolding carried get cmp_list
mapped_line-carried_example =
    mapped_line-carried diff (codes "src/a.rs") edits 9 12 refl (omega arith) refl
