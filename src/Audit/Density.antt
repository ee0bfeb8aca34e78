-- ===== src/Audit/Density.antt =====
-- audit/density.rs, with the rule aggregates of audit.rs and the noise tests of audit/ranking.rs
-- that it reads: from the findings of a rule to the score of a dimension.
use rust_doctor.Prelude.{
  ℕ, ◌-◌, ◌*◌, Bool, true, false, not, ◌&&◌, Option, none, some, List, [], ◌∷◌, map, min, max, ltb,
  if◌then◌else◌, and_then, is_some, retain, fold, list_ord, nat_ord, unwrap_or,
}
use rust_doctor.BTree.{contains, Set}
use rust_doctor.Report.{Text, Severity, error, warning, info, unknown}
use rust_doctor.Audit.Counts.{word_max}
use rust_doctor.Audit.Model.{
  AuditCategoryName, ScoreDimension, security_dimension, reliability_dimension,
  maintainability_dimension, performance_dimension, dependencies_dimension, all_dimensions,
  dimension_weight_twice, RuleTier, Producer, clippy_lints, cargo_health, source_kernel, structure,
  repo,
}
use rust_doctor.Audit.Tiers.{
  tier_dimension_ceiling, tier_overall_ceiling, capped, worse_tier, tier_weight,
}
use rust_doctor.Audit.Float.{Float}

pub data DensityScope : Type 0 where
  per_kiloline workspace : DensityScope

pub record RuleAggregate : Type 0 where
  pub id : Text
  pub effective_severity : Severity
  pub category : Option AuditCategoryName
  pub dimension : Option ScoreDimension
  pub scope : DensityScope
  pub tier : Option RuleTier
  pub occurrences : ℕ
  pub numerator : ℕ
  pub owned : ℕ
  pub noise : Option ℕ
  pub contribution : ℕ

abbrev pub basis_points : ℕ
basis_points = 10000

-- `WITHHOLD_NOISE_BASIS_POINTS` and `UNMEASURED_NOISE_BASIS_POINTS` of policy/noise.rs.
abbrev pub withhold_noise : ℕ
withhold_noise = 5000

abbrev pub unmeasured_noise : ℕ
unmeasured_noise = 5000

abbrev pub dimension_is : ScoreDimension → Option ScoreDimension → Bool
dimension_is security_dimension (some security_dimension) = true
dimension_is reliability_dimension (some reliability_dimension) = true
dimension_is maintainability_dimension (some maintainability_dimension) = true
dimension_is performance_dimension (some performance_dimension) = true
dimension_is dependencies_dimension (some dependencies_dimension) = true
dimension_is _ _ = false

unfoldable pub is_scorable : RuleAggregate → Bool
is_scorable rule = ltb 0 rule.numerator && is_some rule.dimension

unfoldable pub is_withheld : RuleAggregate → Bool
is_withheld rule = elim rule.noise [ none ↦ false | some noise ↦ ltb withhold_noise noise ]

unfoldable pub scoring_tier : RuleAggregate → Option RuleTier
unfolding is_scorable is_withheld
scoring_tier rule = if is_scorable rule && not (is_withheld rule) then rule.tier else none

unfoldable pub severity_weight : Severity → Option ℕ
severity_weight error = some 2
severity_weight warning = some 1
severity_weight info = some 0
severity_weight unknown = none

unfoldable pub scope_of : Producer → DensityScope
scope_of clippy_lints = per_kiloline
scope_of source_kernel = per_kiloline
scope_of structure = per_kiloline
scope_of cargo_health = workspace
scope_of repo = workspace

unfoldable pub lambda : ScoreDimension → ℕ
lambda security_dimension = 4
lambda reliability_dimension = 10
lambda maintainability_dimension = 3
lambda performance_dimension = 4
lambda dependencies_dimension = 6

-- The tests of the filters over rules that were not removed.
unfoldable pub remains : Set Text → RuleAggregate → Bool
remains removed rule = not (contains rule.id removed)

-- The fold for the worst tier of the rules that remain.
unfoldable pub worst_tier_of : List RuleAggregate → Option RuleTier
worst_tier_of rules = fold (λ worst rule. worse_tier worst (scoring_tier rule)) none rules

module _ (f : Float) where
  open f use {F, of_ℕ, plus, minus, times, over, neg, exp, round, greater, lesser, clamp}

  pub record Scale : Type 0 where
    pub kilolines : F
    pub members : F

  unfoldable pub scale_of : ℕ → ℕ → Scale
  scale_of production_lines members = record {
    kilolines = greater (over (of_ℕ production_lines) (of_ℕ 1000)) (of_ℕ 2);
    members = of_ℕ (max members 1);
  }

  -- `charge`: saturating product of the sites and the tier's weight, less the noise.
  unfoldable pub charge : RuleAggregate → ℕ → F
  charge rule sites =
      let kept : ℕ = elim rule.noise [ none ↦ basis_points | some noise ↦ basis_points - noise ] in
      let weighted = min (sites * tier_weight rule.tier) word_max in
      over (times (of_ℕ weighted) (of_ℕ kept)) (of_ℕ basis_points)

  unfoldable pub density_for : DensityScope → Scale → RuleAggregate → F
  unfolding charge
  density_for per_kiloline scale rule = over (charge rule rule.numerator) scale.kilolines
  density_for workspace scale rule =
      let owned = min rule.owned rule.numerator in
      plus (charge rule (rule.numerator - owned)) (over (charge rule owned) scale.members)

  unfoldable pub density : Scale → RuleAggregate → F
  unfolding density_for
  density scale rule = density_for rule.scope scale rule

  unfoldable pub decayed : F → ScoreDimension → F
  unfolding lambda
  decayed density dimension =
      clamp (times (of_ℕ 100) (exp (over (neg density) (of_ℕ (lambda dimension))))) (of_ℕ 0)
        (of_ℕ 100)

  unfoldable pub dimension_score : F → ScoreDimension → ℕ
  unfolding decayed
  dimension_score density dimension = f.as_u8_or_100 (round (decayed density dimension))

  pub record DimensionState : Type 0 where
    pub sum : F
    pub worst_tier : Option RuleTier

  -- The rules of a dimension that were not removed.
  unfoldable pub counts_for : Set Text → ScoreDimension → RuleAggregate → Bool
  unfolding remains
  counts_for removed dimension rule = dimension_is dimension rule.dimension && remains removed rule

  unfoldable pub state_of : List RuleAggregate → Set Text → Scale → ScoreDimension → DimensionState
  unfolding counts_for density
  state_of rules removed scale dimension =
      fold
        (λ state rule. record {
          sum = plus state.sum (density scale rule);
          worst_tier = worse_tier state.worst_tier (scoring_tier rule);
        })
        (record { sum = of_ℕ 0; worst_tier = none }) (retain (counts_for removed dimension) rules)

  unfoldable pub dimension_value : List RuleAggregate → Set Text → Scale → ScoreDimension → ℕ
  unfolding state_of dimension_score
  dimension_value rules removed scale dimension =
      let state = state_of rules removed scale dimension in
      capped (dimension_score state.sum dimension)
        (and_then state.worst_tier tier_dimension_ceiling)

  -- `uncapped_score` and `capped_score_micro` sum over the dimensions in order.
  unfoldable pub sum_floats : List F → F
  sum_floats xs = fold (λ total x. plus total x) (of_ℕ 0) xs

  unfoldable pub uncapped_score : List RuleAggregate → Set Text → Scale → F
  unfolding sum_floats
  uncapped_score rules removed scale =
      over
        (sum_floats (
          map
            (λ dimension.
              times (decayed (state_of rules removed scale dimension).sum dimension)
                (of_ℕ (dimension_weight_twice dimension)))
            all_dimensions))
        (of_ℕ 13)

  -- `(value * CONTRIBUTION_SCALE).round()`, or 0 when that is not a positive number.
  unfoldable pub to_micro : F → ℕ
  to_micro value =
      let scaled = round (times value (of_ℕ 1000000)) in
      if f.is_finite scaled && f.is_positive scaled then f.as_u64 scaled else 0

  unfoldable pub ceiling_or_100 : Option ℕ → F
  ceiling_or_100 ceiling = of_ℕ (unwrap_or ceiling 100)

  unfoldable pub capped_score_micro : List RuleAggregate → Set Text → Scale → ℕ
  unfolding sum_floats to_micro ceiling_or_100
  capped_score_micro rules removed scale =
      let states = map (λ d. state_of rules removed scale d) all_dimensions in
      let worst = fold (λ worst (s : DimensionState). worse_tier worst s.worst_tier) none states in
      let numerator = sum_floats (
        map
          (λ dimension.
            let state = state_of rules removed scale dimension in
            times
              (lesser (decayed state.sum dimension)
                (ceiling_or_100 (and_then state.worst_tier tier_dimension_ceiling)))
              (of_ℕ (dimension_weight_twice dimension)))
          all_dimensions) in
      to_micro
        (lesser (over numerator (of_ℕ 13)) (ceiling_or_100 (and_then worst tier_overall_ceiling)))

  unfoldable pub contributions : List RuleAggregate → Scale → List ℕ
  unfolding uncapped_score to_micro
  contributions rules scale =
      let base = uncapped_score rules [] scale in
      map
        (λ rule.
          if not (is_scorable rule)
          then 0
          else to_micro (minus (uncapped_score rules (rule.id ∷ []) scale) base))
        rules
