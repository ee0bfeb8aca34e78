-- ===== src/Audit/Score.antt =====
-- audit.rs: the weighted score, its label, the published score and the test that guards its
-- serialisation.
use rust_doctor.Prelude.{
  ℕ, ◌*◌, ◌/◌, Bool, true, false, not, ◌&&◌, Option, none, some, List, [], map, min, ltb, leb, ◌==◌,
  if◌then◌else◌, is_empty, is_none, and_then, any, all, find, retain, fold, length, same, list_ord,
  nat_ord, option_ord,
}
use rust_doctor.BTree.{insert_all, Set}
use rust_doctor.Report.{Text, codes}
use rust_doctor.Audit.Model.{
  ScoreDimension, security_dimension, reliability_dimension, maintainability_dimension,
  performance_dimension, dependencies_dimension, all_dimensions, dimension_weight_twice, RuleTier,
  ScoreReason, ScoreLabel, great, needs_work, critical,
}
use rust_doctor.Audit.Tiers.{tier_overall_ceiling, capped}
use rust_doctor.Audit.Counts.{saturating_add}
use rust_doctor.Audit.Float.{Float}
use rust_doctor.Audit.Density.{RuleAggregate, Scale, worst_tier_of, remains, dimension_value}
use rust_doctor.Audit.Ceilings.{ScoreCeiling, overall, ceilings, tier_is}
use rust_doctor.Audit.Ranking.{projection}
use rust_doctor.Audit.Aggregate.{RuleAggregation}

pub record ScoreDimensions : Type 0 where
  pub security : ℕ
  pub reliability : ℕ
  pub maintainability : ℕ
  pub performance : ℕ
  pub dependencies : ℕ

unfoldable pub value_for : ScoreDimensions → ScoreDimension → ℕ
value_for d security_dimension = d.security
value_for d reliability_dimension = d.reliability
value_for d maintainability_dimension = d.maintainability
value_for d performance_dimension = d.performance
value_for d dependencies_dimension = d.dependencies

-- `ScoreDimensions::from_fn`.
unfoldable pub dimensions_from : (ScoreDimension → ℕ) → ScoreDimensions
dimensions_from score_for = record {
  security = score_for security_dimension;
  reliability = score_for reliability_dimension;
  maintainability = score_for maintainability_dimension;
  performance = score_for performance_dimension;
  dependencies = score_for dependencies_dimension;
}

unfoldable pub weighted_score : ScoreDimensions → ℕ
unfolding value_for dimension_weight_twice
weighted_score d =
    let numerator =
      fold
        (λ (sum : ℕ) (x : ScoreDimension).
          saturating_add sum (value_for d x * dimension_weight_twice x))
        0 all_dimensions in
    min (saturating_add numerator 6 / 13) 100

unfoldable pub score_label : ℕ → ScoreLabel
score_label score = if leb 75 score then great else if leb 50 score then needs_work else critical

pub record AuditScore : Type 0 where
  pub model : Text
  pub value : ℕ
  pub label : ScoreLabel
  pub authoritative : Bool
  pub reasons : List ScoreReason
  pub dimensions : ScoreDimensions
  pub worst_tier : Option RuleTier
  pub applied_ceiling : Option ℕ
  pub ceilings : List ScoreCeiling
  pub projected_after_top_three : Option ℕ
  pub projected_rule_ids : List Text
  pub withheld_rule_ids : List Text

abbrev pub score_model : Text
score_model = codes "core-v6"

pub record ScoredState : Type 0 where
  pub dimensions : ScoreDimensions
  pub worst_tier : Option RuleTier
  pub applied_ceiling : Option ℕ
  pub value : ℕ

module _ (f : Float) where
  unfoldable pub scored_state : List RuleAggregate → Set Text → Scale f → ScoredState
  unfolding dimensions_from dimension_value worst_tier_of weighted_score capped
  scored_state rules removed scale =
      let dimensions = dimensions_from (dimension_value f rules removed scale) in
      let worst_tier = worst_tier_of (retain (remains removed) rules) in
      let applied_ceiling = and_then worst_tier tier_overall_ceiling in
      record {
        dimensions = dimensions;
        worst_tier = worst_tier;
        applied_ceiling = applied_ceiling;
        value = capped (weighted_score dimensions) applied_ceiling;
      }

  unfoldable pub score : RuleAggregation f → List ScoreReason → AuditScore
  unfolding scored_state projection score_label ceilings
  score aggregation reasons =
      let scored = scored_state aggregation.rules [] aggregation.scale in
      let authoritative = is_empty reasons in
      let (projected, withheld) = projection f aggregation.rules aggregation.scale in
      let ids = map (λ r. r.id) projected in
      let after = scored_state aggregation.rules (insert_all ids []) aggregation.scale in
      record {
        model = score_model;
        value = scored.value;
        label = score_label scored.value;
        authoritative = authoritative;
        reasons = reasons;
        dimensions = scored.dimensions;
        worst_tier = scored.worst_tier;
        applied_ceiling = scored.applied_ceiling;
        ceilings = ceilings aggregation.rules;
        projected_after_top_three =
            if authoritative && not (is_empty ids) then some after.value else none;
        projected_rule_ids = if authoritative then ids else [];
        withheld_rule_ids = if authoritative then map (λ r. r.id) withheld else [];
      }

abbrev pub same_number : Option ℕ → Option ℕ → Bool
same_number none none = true
same_number (some a) (some b) = a == b
same_number _ _ = false

abbrev pub same_label : ScoreLabel → ScoreLabel → Bool
same_label great great = true
same_label needs_work needs_work = true
same_label critical critical = true
same_label _ _ = false

abbrev pub same_bool : Bool → Bool → Bool
same_bool true b = b
same_bool false b = not b

-- `overall == self.worst_tier.zip(self.applied_ceiling)`.
unfoldable pub overall_agrees : Option ScoreCeiling → Option RuleTier → Option ℕ → Bool
overall_agrees (some c) (some tier) (some ceiling) =
    tier_is c.tier (some tier) && c.ceiling == ceiling
overall_agrees (some c) (some tier) none = false
overall_agrees (some c) none ceiling = false
overall_agrees none (some tier) (some ceiling) = false
overall_agrees none (some tier) none = true
overall_agrees none none ceiling = true

unfoldable pub projected_rules_are_named_once : List Text → Bool
projected_rules_are_named_once ids =
    leb (length ids) 3
    && length (insert_all ids []) == length ids
    && all (λ rule. not (is_empty rule)) ids

unfoldable pub projection_agrees : Bool → Option ℕ → List Text → Bool
projection_agrees true none ids = is_empty ids
projection_agrees true (some v) ids = not (is_empty ids)
projection_agrees false projected ids = is_none projected && is_empty ids

-- `projected.is_none_or(|projected| projected <= 100 && projected >= self.value)`.
abbrev pub projected_holds : ℕ → Option ℕ → Bool
projected_holds value none = true
projected_holds value (some projected) = leb projected 100 && leb value projected

-- `AuditScore::is_valid`: its early returns as one conjunction, in their order.
unfoldable pub is_valid_score : AuditScore → Bool
unfolding overall_agrees projected_rules_are_named_once projection_agrees weighted_score score_label
    capped value_for
is_valid_score s =
    same s.model score_model
    && leb s.value 100
    && same_bool s.authoritative (is_empty s.reasons)
    && same_number s.applied_ceiling (and_then s.worst_tier tier_overall_ceiling)
    && overall_agrees (find (λ c. same c.dimension overall) s.ceilings) s.worst_tier
        s.applied_ceiling
    && not (any (λ c. is_empty c.rule_ids) s.ceilings)
    && s.value == capped (weighted_score s.dimensions) s.applied_ceiling
    && same_label s.label (score_label s.value)
    && not (any (λ d. ltb 100 (value_for s.dimensions d)) all_dimensions)
    && projected_holds s.value s.projected_after_top_three
    && projected_rules_are_named_once s.projected_rule_ids
    && projection_agrees s.authoritative s.projected_after_top_three s.projected_rule_ids
