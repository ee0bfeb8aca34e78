-- ===== src/Audit/Validity/Valid.antt =====
-- audit.rs, `score` against `AuditScore::is_valid`.
use rust_doctor.Prelude.{
  ℕ, ◌≤◌, ◌≡◌, refl, Bool, true, false, not, ◌&&◌, Option, none, some, List, [], ◌∷◌, map, arith,
  if◌then◌else◌, ltb, ◌==◌, le→leb, is_empty, any, find, retain, Every, and_then, same, list_ord,
  nat_ord, cmp_list,
}
use rust_doctor.BTree.{contains, insert_all}
use rust_doctor.Report.{Text, Diagnostic}
use rust_doctor.Audit.Model.{
  ScoreDimension, security_dimension, reliability_dimension, maintainability_dimension,
  performance_dimension, dependencies_dimension, all_dimensions, ScoreLabel, ScoreReason,
}
use rust_doctor.Audit.Tiers.{tier_overall_ceiling, capped, capped_le}
use rust_doctor.Audit.Float.{Float, IsOrdered}
use rust_doctor.Audit.Density.{RuleAggregate, remains, Scale}
use rust_doctor.Audit.Ceilings.{overall, ceilings}
use rust_doctor.Audit.Ranking.{projection}
use rust_doctor.Audit.Aggregate.{Catalog, RuleAggregation, aggregate_rules}
use rust_doctor.Audit.Score.{
  ScoreDimensions, value_for, dimensions_from, weighted_score, score_model, scored_state, score,
  projected_holds, same_number, same_label, same_bool, overall_agrees,
  projected_rules_are_named_once, projection_agrees, is_valid_score,
}
use rust_doctor.Audit.Validity.Projected.{IsNamed, projection_named_once}
use rust_doctor.Audit.Validity.Published.{ceilings_agree, ceilings_named}
use rust_doctor.Audit.Validity.Repaired.{
  IsScaled, scale_of-IsScaled, dimension_value-le, scored_state_mono,
}
use rust_doctor.Audit.Validity.Named.{aggregate_rules-IsNamed}

retain_all : (rules : List RuleAggregate) → retain (remains []) rules ≡ rules
unfolding remains contains
retain_all [] = refl
retain_all (r ∷ rules) = rw (retain_all rules) refl

model_agrees : same score_model score_model ≡ true
unfolding cmp_list
model_agrees = refl

number_agrees : (n : Option ℕ) → same_number n n ≡ true
number_agrees none = refl
number_agrees (some n) = ground arith

label_agrees : (l : ScoreLabel) → same_label l l ≡ true
label_agrees l = ground arith

flag_agrees : (b : Bool) → same_bool b b ≡ true
flag_agrees b = ground arith

weighted_score-le : (d : ScoreDimensions) → weighted_score d ≤ 100
unfolding weighted_score
weighted_score-le d = omega arith

projection-agrees :
    (authoritative : Bool) (ids : List Text) (v : ℕ)
    → projection_agrees authoritative
        (if authoritative && not (is_empty ids) then some v else none)
        (if authoritative then ids else [])
      ≡ true
unfolding projection_agrees
projection-agrees authoritative ids v = ground arith

named_once_if :
    (b : Bool) (ids : List Text)
    → projected_rules_are_named_once ids ≡ true
    → projected_rules_are_named_once (if b then ids else []) ≡ true
unfolding projected_rules_are_named_once
named_once_if true ids h = h
named_once_if false ids h = refl

projected_if :
    (b : Bool) (value v : ℕ)
    → v ≤ 100
    → value ≤ v
    → projected_holds value (if b then some v else none) ≡ true
projected_if b value v h k = ground (arith, le→leb v 100 h, le→leb value v k)

module _ (f : Float) (o : IsOrdered f) where
  value_le :
      (rules : List RuleAggregate) (scale : Scale f) (removed : List Text)
      → (scored_state f rules removed scale).value ≤ 100
  unfolding scored_state
  value_le rules scale removed = omega (arith, capped_le (weighted_score _) _, weighted_score-le _)

  dimensions_le :
      (rules : List RuleAggregate) (scale : Scale f) (d : ScoreDimension)
      → ltb 100 (value_for (scored_state f rules [] scale).dimensions d) ≡ false
  unfolding scored_state dimensions_from value_for
  dimensions_le rules scale security_dimension =
      ground (arith, dimension_value-le f o [] scale security_dimension rules)
  dimensions_le rules scale reliability_dimension =
      ground (arith, dimension_value-le f o [] scale reliability_dimension rules)
  dimensions_le rules scale maintainability_dimension =
      ground (arith, dimension_value-le f o [] scale maintainability_dimension rules)
  dimensions_le rules scale performance_dimension =
      ground (arith, dimension_value-le f o [] scale performance_dimension rules)
  dimensions_le rules scale dependencies_dimension =
      ground (arith, dimension_value-le f o [] scale dependencies_dimension rules)

  no_dimension_above :
      (rules : List RuleAggregate) (scale : Scale f)
      → any (λ d. ltb 100 (value_for (scored_state f rules [] scale).dimensions d)) all_dimensions
        ≡ false
  no_dimension_above rules scale =
      rw
        (
          dimensions_le rules scale security_dimension,
          dimensions_le rules scale reliability_dimension,
          dimensions_le rules scale maintainability_dimension,
          dimensions_le rules scale performance_dimension,
          dimensions_le rules scale dependencies_dimension,
        )
        refl

  ceilings_agree_scored :
      (rules : List RuleAggregate) (scale : Scale f)
      → overall_agrees
          (find (λ c. same c.dimension overall) (ceilings rules))
          (scored_state f rules [] scale).worst_tier
          (scored_state f rules [] scale).applied_ceiling
        ≡ true
  unfolding scored_state
  ceilings_agree_scored rules scale = rw (retain_all rules) (ceilings_agree rules)

  value_is :
      (rules : List RuleAggregate) (scale : Scale f)
      → ((scored_state f rules [] scale).value
          == capped
              (weighted_score (scored_state f rules [] scale).dimensions)
              (scored_state f rules [] scale).applied_ceiling)
        ≡ true
  unfolding scored_state
  value_is rules scale = ground arith

  applied_is :
      (rules : List RuleAggregate) (scale : Scale f)
      → same_number
          (scored_state f rules [] scale).applied_ceiling
          (and_then (scored_state f rules [] scale).worst_tier tier_overall_ceiling)
        ≡ true
  unfolding scored_state
  applied_is rules scale = number_agrees (scored_state f rules [] scale).applied_ceiling

  aggregated_is_valid :
      (a : RuleAggregation f) (reasons : List ScoreReason)
      → Every IsNamed a.rules
      → IsScaled f o a.scale
      → is_valid_score (score f a reasons) ≡ true
  unfolding is_valid_score score
  aggregated_is_valid a reasons named scaled =
      let authoritative = is_empty reasons in
      let ids = map (λ (r : RuleAggregate). r.id) (projection f a.rules a.scale).0 in
      let after = insert_all ids [] in
      rw
        (
          model_agrees,
          le→leb _ 100 (value_le a.rules a.scale []),
          flag_agrees authoritative,
          applied_is a.rules a.scale,
          ceilings_agree_scored a.rules a.scale,
          ceilings_named a.rules,
          value_is a.rules a.scale,
          label_agrees,
          no_dimension_above a.rules a.scale,
          projected_if (authoritative && not (is_empty ids)) _ _ (value_le a.rules a.scale after)
              (scored_state_mono f o after a.scale a.rules scaled),
          named_once_if authoritative ids (projection_named_once f a.rules a.scale named),
          projection-agrees authoritative ids,
        )
        refl

-- For every scale of floats that meets the order laws, every rule catalogue, line count, member
-- count, findings and reasons, the score of the aggregated findings passes `AuditScore::is_valid`.
pub score-is_valid :
    (f : Float) (o : IsOrdered f) (catalog : Catalog) (lines members : ℕ)
    (diagnostics : List Diagnostic) (reasons : List ScoreReason)
    → is_valid_score (score f (aggregate_rules f catalog lines members diagnostics) reasons) ≡ true
unfolding aggregate_rules
score-is_valid f o catalog lines members diagnostics reasons =
    aggregated_is_valid f o (aggregate_rules f catalog lines members diagnostics) reasons
      (aggregate_rules-IsNamed f catalog lines members diagnostics)
      (scale_of-IsScaled f o lines members)
