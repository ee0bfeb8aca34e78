-- ===== src/Audit/Validity/Repaired.antt =====
-- audit/density.rs and audit/ceilings.rs: scores before and after rules are removed.
use rust_doctor.Prelude.{
  ℕ, ◌*◌, ◌/◌, ◌≤◌, ◌≡◌, refl, inl, inr, true, Option, none, List, [], ◌∷◌, min, max, arith, retain,
  fold, Bool-cases, list_ord, nat_ord,
}
use native.Mathlib.Nat.{le_trans}
use rust_doctor.BTree.{Set, contains}
use rust_doctor.Report.{Text}
use rust_doctor.Audit.Model.{
  ScoreDimension, security_dimension, reliability_dimension, maintainability_dimension,
  performance_dimension, dependencies_dimension, RuleTier,
}
use rust_doctor.Audit.Tiers.{
  worse_tier, severity_of, capped_le, worse_tier-severity, worse_tier-le, capped_mono_dimension,
  capped_mono_overall,
}
use rust_doctor.Audit.Counts.{saturating_add}
use rust_doctor.Audit.Float.{Float, IsOrdered}
use rust_doctor.Audit.Density.{
  per_kiloline, workspace, RuleAggregate, scoring_tier, lambda, remains, worst_tier_of,
  DensityScope, Scale, scale_of, charge, density_for, density, dimension_score, DimensionState,
  counts_for, state_of, dimension_value,
}
use rust_doctor.Audit.Score.{ScoreDimensions, weighted_score, scored_state}

sat_mono : (a c b d : ℕ) → a ≤ c → b ≤ d → saturating_add a b ≤ saturating_add c d
sat_mono a c b d h k = omega arith

times_le : (a b n : ℕ) → a ≤ b → a * n ≤ b * n
times_le a b n h = grind arith

final_mono : (a b : ℕ) → a ≤ b → min (a / 13) 100 ≤ min (b / 13) 100
final_mono a b h = omega arith

-- A pointwise better score weighs at least as much.
pub weighted_score_mono :
    (a b : ScoreDimensions)
    → a.security ≤ b.security
    → a.reliability ≤ b.reliability
    → a.maintainability ≤ b.maintainability
    → a.performance ≤ b.performance
    → a.dependencies ≤ b.dependencies
    → weighted_score a ≤ weighted_score b
unfolding weighted_score
weighted_score_mono a b s r m p d =
    let total =
      sat_mono _ _ _ _
        (sat_mono _ _ _ _
          (sat_mono _ _ _ _
            (sat_mono _ _ _ _ (sat_mono 0 0 _ _ (omega arith) (times_le a.security b.security 4 s))
              (times_le a.reliability b.reliability 3 r))
            (times_le a.maintainability b.maintainability 2 m))
          (times_le a.performance b.performance 2 p))
        (times_le a.dependencies b.dependencies 2 d) in
    final_mono _ _ (sat_mono _ _ 6 6 total (omega arith))

remains-nothing : (r : RuleAggregate) → remains [] r ≡ true
unfolding remains contains
remains-nothing r = refl

-- Fewer rules give no worse a tier.
fold_tier_mono :
    (removed : Set Text) (rules : List RuleAggregate) (a b : Option RuleTier)
    → severity_of a ≤ severity_of b
    → severity_of (fold (λ w r. worse_tier w (scoring_tier r)) a (retain (remains []) rules))
      ≤ severity_of (fold (λ w r. worse_tier w (scoring_tier r)) b (retain (remains removed) rules))
fold_tier_mono removed [] a b h = h
fold_tier_mono removed (r ∷ rules) a b h =
    rw (remains-nothing r) (elim (Bool-cases (remains removed r)) [
      | inl e ↦ rw e (fold_tier_mono removed rules _ _ (worse_tier-severity a b (scoring_tier r) h))
      | inr e ↦
          rw e (fold_tier_mono removed rules _ _ (omega (arith, worse_tier-le a (scoring_tier r))))
    ])

pub worst_tier_mono :
    (removed : Set Text) (rules : List RuleAggregate)
    → severity_of (worst_tier_of (retain (remains []) rules))
      ≤ severity_of (worst_tier_of (retain (remains removed) rules))
unfolding worst_tier_of
worst_tier_mono removed rules = fold_tier_mono removed rules none none (omega arith)

module _ (f : Float) (o : IsOrdered f) where
  open f use {F, of_ℕ, plus, times, over}
  open o use {le}

  -- The two divisors are at least one.
  pub record IsScaled (s : Scale f) : Type 0 where
    pub kilolines_pos : le (of_ℕ 1) s.kilolines
    pub members_pos : le (of_ℕ 1) s.members

  pub scale_of-IsScaled : (lines members : ℕ) → IsScaled (scale_of f lines members)
  unfolding scale_of
  scale_of-IsScaled lines members = record {
    kilolines_pos = o.le_chain _ _ _ (o.of_ℕ_mono 1 2 (omega arith)) (o.greater_right _ _);
    members_pos = o.of_ℕ_mono 1 (max members 1) (omega arith);
  }

  charge_nonneg : (r : RuleAggregate) (sites : ℕ) → le (of_ℕ 0) (charge f r sites)
  unfolding charge
  charge_nonneg r sites =
      o.over_nonneg _ _ (o.times_nonneg _ _ (o.of_ℕ_nonneg _) (o.of_ℕ_nonneg _))
        (o.of_ℕ_mono 1 10000 (omega arith))

  density_for_nonneg :
      (c : DensityScope) (s : Scale f) (r : RuleAggregate)
      → IsScaled s
      → le (of_ℕ 0) (density_for f c s r)
  unfolding density_for
  density_for_nonneg per_kiloline s r h =
      o.over_nonneg _ _ (charge_nonneg r r.numerator) h.kilolines_pos
  density_for_nonneg workspace s r h =
      o.plus_nonneg _ _ (charge_nonneg r _) (o.over_nonneg _ _ (charge_nonneg r _) h.members_pos)

  -- The scores of a dimension before and after a repair.
  abbrev Better : DimensionState f → DimensionState f → Type 0
  Better a b = le b.sum a.sum × (severity_of a.worst_tier ≤ severity_of b.worst_tier)

  abbrev next : Scale f → DimensionState f → RuleAggregate → DimensionState f
  next s state rule = record {
    sum = plus state.sum (density f s rule);
    worst_tier = worse_tier state.worst_tier (scoring_tier rule);
  }

  counts_for-remains :
      (removed : Set Text) (d : ScoreDimension) (r : RuleAggregate)
      → counts_for f removed d r ≡ true
      → counts_for f [] d r ≡ true
  unfolding counts_for contains
  counts_for-remains removed d r h = ground arith

  next-both :
      (s : Scale f) (a b : DimensionState f) (r : RuleAggregate)
      → Better a b
      → Better (next s a r) (next s b r)
  next-both s a b r h =
      (o.plus_left _ _ _ h.0, worse_tier-severity a.worst_tier b.worst_tier (scoring_tier r) h.1)

  next-one :
      (s : Scale f) (a b : DimensionState f) (r : RuleAggregate)
      → IsScaled s
      → Better a b
      → Better (next s a r) b
  unfolding density
  next-one s a b r sc h = (
    o.le_chain _ _ _ h.0 (o.plus_grows a.sum _ (density_for_nonneg r.scope s r sc)),
    omega (arith, h.1, worse_tier-le a.worst_tier (scoring_tier r)),
  )

  fold-Better :
      (removed : Set Text) (s : Scale f) (d : ScoreDimension) (rules : List RuleAggregate)
      (a b : DimensionState f)
      → IsScaled s
      → Better a b
      → Better
          (fold (next s) a (retain (counts_for f [] d) rules))
          (fold (next s) b (retain (counts_for f removed d) rules))
  fold-Better removed s d [] a b sc h = h
  fold-Better removed s d (r ∷ rules) a b sc h = elim (Bool-cases (counts_for f removed d r)) [
    | inl e ↦
        rw (e, counts_for-remains removed d r e)
          (fold-Better removed s d rules _ _ sc (next-both s a b r h))
    | inr e ↦ rw e (elim (Bool-cases (counts_for f [] d r)) [
      | inl e' ↦ rw e' (fold-Better removed s d rules _ _ sc (next-one s a b r sc h))
      | inr e' ↦ rw e' (fold-Better removed s d rules a b sc h)
    ])
  ]

  state_of-Better :
      (removed : Set Text) (s : Scale f) (d : ScoreDimension) (rules : List RuleAggregate)
      → IsScaled s
      → Better (state_of f rules [] s d) (state_of f rules removed s d)
  unfolding state_of
  state_of-Better removed s d rules sc =
      fold-Better removed s d rules _ _ sc (o.le_self _, omega arith)

  lambda_pos : (d : ScoreDimension) → 1 ≤ lambda d
  unfolding lambda
  lambda_pos d = ground arith

  -- On floats that meet the order laws, a dimension of higher density scores no higher.
  pub dimension_score_anti :
      (x y : F) (d : ScoreDimension) → le x y → dimension_score f y d ≤ dimension_score f x d
  unfolding dimension_score
  dimension_score_anti x y d h = o.round_mono _ _ (
      o.clamp_mono _ _ (
        o.times_mono 100 _ _
          (o.exp_mono _ _ (o.over_mono _ _ (lambda d) (lambda_pos d) (o.neg_anti x y h)))))

  pub dimension_value_mono :
      (removed : Set Text) (s : Scale f) (d : ScoreDimension) (rules : List RuleAggregate)
      → IsScaled s
      → dimension_value f rules [] s d ≤ dimension_value f rules removed s d
  unfolding dimension_value
  dimension_value_mono removed s d rules sc =
      let (sums, tiers) = state_of-Better removed s d rules sc in
      capped_mono_dimension _ _ _ _ (dimension_score_anti _ _ d sums) tiers

  pub dimension_value-le :
      (removed : Set Text) (s : Scale f) (d : ScoreDimension) (rules : List RuleAggregate)
      → dimension_value f rules removed s d ≤ 100
  unfolding dimension_value dimension_score
  dimension_value-le removed s d rules = le_trans (capped_le _ _) (o.round_bound _)

  -- For every scale whose divisors are at least one, on floats that meet the order laws, the score
  -- without the removed rules is at least the score with all rules.
  pub scored_state_mono :
      (removed : Set Text) (s : Scale f) (rules : List RuleAggregate)
      → IsScaled s
      → (scored_state f rules [] s).value ≤ (scored_state f rules removed s).value
  unfolding scored_state
  scored_state_mono removed s rules sc =
      capped_mono_overall _ _ _ _
        (weighted_score_mono _ _ (dimension_value_mono removed s security_dimension rules sc)
          (dimension_value_mono removed s reliability_dimension rules sc)
          (dimension_value_mono removed s maintainability_dimension rules sc)
          (dimension_value_mono removed s performance_dimension rules sc)
          (dimension_value_mono removed s dependencies_dimension rules sc))
        (worst_tier_mono removed rules)
