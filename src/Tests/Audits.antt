-- ===== src/Tests/Audits.antt =====
-- The theorems on audits at two findings, with whole numbers for floats.
use rust_doctor.Prelude.{
  ℕ, ◌≤◌, ◌≡◌, refl, true, none, some, List, [], ◌∷◌, map, list_ord, nat_ord, arith,
}
use rust_doctor.Report.{Text, codes, warning, Status}
use rust_doctor.Audit.Model.{security_dimension, stage_failed, p1, security}
use rust_doctor.Audit.Float.{whole_float, whole_float-IsOrdered}
use rust_doctor.Audit.Density.{RuleAggregate, Scale, scale_of, per_kiloline}
use rust_doctor.Audit.Ranking.{projection}
use rust_doctor.Audit.Aggregate.{Catalog, aggregate_rules}
use rust_doctor.Audit.Score.{scored_state, score, projected_rules_are_named_once, is_valid_score}
use rust_doctor.Audit.Build.{
  SourceFileInventory, Audit, build_from_inventory, rebuild_for_scope, is_valid,
}
use rust_doctor.Audit.Validity.Projected.{projection_named_once}
use rust_doctor.Audit.Validity.Repaired.{scale_of-IsScaled, scored_state_mono}
use rust_doctor.Audit.Validity.Valid.{score-is_valid}
use rust_doctor.Audit.Validity.Whole.{build-is_valid, rebuild-is_valid}
use rust_doctor.Tests.Data.{findings}

abbrev catalog : Catalog
catalog = record { find_rule = λ id. none; noise_of = λ id. none }

abbrev held : SourceFileInventory
held = record { files = 3; production_lines = 1200; complete = true }

abbrev audit : Audit
audit =
    build_from_inventory whole_float catalog held ((codes "app", held) ∷ []) [] Status.complete []
      findings

abbrev rule : Text → ℕ → RuleAggregate
rule id numerator = record {
  id = id;
  effective_severity = warning;
  category = some security;
  dimension = some security_dimension;
  scope = per_kiloline;
  tier = some p1;
  occurrences = 2;
  numerator = numerator;
  owned = 0;
  noise = none;
  contribution = 0;
}

abbrev rules : List RuleAggregate
rules = rule (codes "a") 5 ∷ rule (codes "b") 3 ∷ []

abbrev scale : Scale whole_float
scale = scale_of whole_float 1200 1

build-is_valid_example : is_valid audit ≡ true
build-is_valid_example =
    build-is_valid whole_float whole_float-IsOrdered catalog held ((codes "app", held) ∷ []) []
      Status.complete [] findings (omega arith, (omega arith, tt))

rebuild-is_valid_example :
    is_valid (rebuild_for_scope whole_float catalog audit Status.incomplete findings) ≡ true
rebuild-is_valid_example =
    rebuild-is_valid whole_float whole_float-IsOrdered catalog audit Status.incomplete findings
      (omega arith, (omega arith, tt))

score-is_valid_example :
    is_valid_score
      (score whole_float (aggregate_rules whole_float catalog 1200 1 findings) (stage_failed ∷ []))
    ≡ true
score-is_valid_example =
    score-is_valid whole_float whole_float-IsOrdered catalog 1200 1 findings (stage_failed ∷ [])

projection_named_once_example :
    projected_rules_are_named_once (map (λ r. r.id) (projection whole_float rules scale).0) ≡ true
projection_named_once_example = projection_named_once whole_float rules scale (refl, (refl, tt))

scored_state_mono_example :
    (scored_state whole_float rules [] scale).value
    ≤ (scored_state whole_float rules (codes "a" ∷ []) scale).value
scored_state_mono_example =
    scored_state_mono whole_float whole_float-IsOrdered (codes "a" ∷ []) scale rules
      (scale_of-IsScaled whole_float whole_float-IsOrdered 1200 1)
