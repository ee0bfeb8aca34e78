-- ===== src/Audit/Ceilings.antt =====
-- audit/ceilings.rs: the published ceilings, one for each dimension that a tier caps and one overall.
use rust_doctor.Prelude.{
  ℕ, Bool, true, false, Option, some, List, [], ◌∷◌, ◌++◌, map, retain, filter_map, and_then,
  list_ord, nat_ord,
}
use rust_doctor.BTree.{insert_all}
use rust_doctor.Report.{Text, codes}
use rust_doctor.Audit.Model.{
  ScoreDimension, all_dimensions, dimension_name, RuleTier, p0, p1, p2, p3,
}
use rust_doctor.Audit.Tiers.{tier_dimension_ceiling, tier_overall_ceiling}
use rust_doctor.Audit.Density.{RuleAggregate, dimension_is, scoring_tier, worst_tier_of}

pub record ScoreCeiling : Type 0 where
  pub dimension : Text
  pub tier : RuleTier
  pub ceiling : ℕ
  pub rule_ids : List Text

abbrev pub overall : Text
overall = codes "overall"

abbrev pub tier_is : RuleTier → Option RuleTier → Bool
tier_is p0 (some p0) = true
tier_is p1 (some p1) = true
tier_is p2 (some p2) = true
tier_is p3 (some p3) = true
tier_is _ _ = false

unfoldable pub imposed : List RuleAggregate → (RuleTier → Option ℕ) → Text → Option ScoreCeiling
imposed rules ceiling_of dimension = and_then (worst_tier_of rules) (λ tier.
    and_then (ceiling_of tier) (λ ceiling. some (record {
      dimension = dimension;
      tier = tier;
      ceiling = ceiling;
      rule_ids =
          insert_all (map (λ r. r.id) (retain (λ r. tier_is tier (scoring_tier r)) rules)) [];
    })))

unfoldable pub dimension_ceiling : List RuleAggregate → ScoreDimension → Option ScoreCeiling
unfolding imposed
dimension_ceiling rules dimension =
    imposed (retain (λ r. dimension_is dimension r.dimension) rules) tier_dimension_ceiling
      (dimension_name dimension)

unfoldable pub ceilings : List RuleAggregate → List ScoreCeiling
unfolding dimension_ceiling
ceilings rules =
    filter_map (dimension_ceiling rules) all_dimensions
    ++ filter_map (λ c. c) (imposed rules tier_overall_ceiling overall ∷ [])
