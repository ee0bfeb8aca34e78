-- ===== src/Audit/Ranking.antt =====
-- audit/ranking.rs: the rules that a repair should start with, chosen one by one for the gain that
-- each brings once the ones before it are repaired.
use rust_doctor.Prelude.{
  ℕ, zero, suc, ◌-◌, ◌*◌, ◌/◌, Bool, true, false, not, ◌&&◌, Option, none, some, List, [], ◌∷◌, map,
  min, compare, Ordering, then_with, ltb, if◌then◌else◌, is_some, retain, fold, list_ord, nat_ord,
}
use Prim.Native.Nat.Ordering.{lt, eq, gt}
use rust_doctor.BTree.{insert, Set}
use rust_doctor.Report.{Text}
use rust_doctor.Audit.Counts.{word_max}
use rust_doctor.Audit.Float.{Float}
use rust_doctor.Audit.Ceilings.{tier_is}
use rust_doctor.Audit.Density.{
  RuleAggregate, basis_points, unmeasured_noise, is_scorable, is_withheld, scoring_tier, remains,
  worst_tier_of, Scale, capped_score_micro,
}

unfoldable pub kept_basis_points : RuleAggregate → ℕ
kept_basis_points rule =
    if is_some rule.noise then basis_points else basis_points - unmeasured_noise

unfoldable pub expected_repair_value : RuleAggregate → ℕ
unfolding kept_basis_points
expected_repair_value rule =
    min (rule.contribution * kept_basis_points rule) word_max / basis_points

-- The tuple that `max_by` compares, its rule last.
pub record Gain : Type 0 where
  pub gain : ℕ
  pub holds_the_ceiling : Bool
  pub repair_value : ℕ
  pub rule : RuleAggregate

abbrev pub cmp_bool : Bool → Bool → Ordering
cmp_bool false true = lt
cmp_bool true false = gt
cmp_bool false false = eq
cmp_bool true true = eq

abbrev pub cmp_text : Text → Text → Ordering
cmp_text = (list_ord {A = ℕ}).cmp

unfoldable pub cmp_gain : Gain → Gain → Ordering
cmp_gain left right = then_with (compare left.gain right.gain) (
    then_with (cmp_bool left.holds_the_ceiling right.holds_the_ceiling) (
      then_with (compare left.repair_value right.repair_value)
        (cmp_text right.rule.id left.rule.id)))

-- `max_by` answers the last of several greatest items.
abbrev pub pick : Option Gain → Gain → Option Gain
pick none g = some g
pick (some best) g = elim (cmp_gain best g) [ gt ↦ some best | _ ↦ some g ]

unfoldable pub max_by : List Gain → Option Gain
unfolding cmp_gain
max_by gains = fold pick none gains

-- The order of the withheld rules: the greatest contribution first, then the id.
unfoldable pub withheld_before : RuleAggregate → RuleAggregate → Bool
withheld_before left right =
    elim (then_with (compare right.contribution left.contribution) (cmp_text left.id right.id)) [
      | gt ↦ false
      | _ ↦ true
    ]

unfoldable pub insert_withheld : RuleAggregate → List RuleAggregate → List RuleAggregate
unfolding withheld_before
insert_withheld r [] = r ∷ []
insert_withheld r (s ∷ ss) = if withheld_before r s then r ∷ s ∷ ss else s ∷ insert_withheld r ss

unfoldable pub sort_withheld : List RuleAggregate → List RuleAggregate
unfolding insert_withheld
sort_withheld [] = []
sort_withheld (r ∷ rs) = insert_withheld r (sort_withheld rs)

unfoldable pub is_candidate : RuleAggregate → Bool
is_candidate rule = is_scorable rule && ltb 0 rule.contribution

-- The rounds of the loop: at most `PROJECTED_RULES` rules are named.
abbrev pub projected_rules : ℕ
projected_rules = 3

module _ (f : Float) (rules : List RuleAggregate) (scale : Scale f) where
  unfoldable pub gain_of : Set Text → RuleAggregate → Gain
  unfolding kept_basis_points expected_repair_value remains
  gain_of removed rule =
      let reached = capped_score_micro f rules removed scale in
      let worst = worst_tier_of (retain (remains removed) rules) in
      let after = capped_score_micro f rules (insert rule.id removed) scale in
      record {
        gain = min ((after - reached) * kept_basis_points rule) word_max / basis_points;
        holds_the_ceiling = elim worst [
          | none ↦ false
          | some tier ↦ tier_is tier (scoring_tier rule)
        ];
        repair_value = expected_repair_value rule;
        rule = rule;
      }

  unfoldable pub best_of : List RuleAggregate → Set Text → Option Gain
  unfolding gain_of max_by
  best_of candidates removed = max_by (map (gain_of removed) (retain (remains removed) candidates))

  -- The `while` loop, with the rounds left.
  unfoldable pub project : ℕ → List RuleAggregate → Set Text → List RuleAggregate
  unfolding best_of
  project zero candidates removed = []
  project (suc n) candidates removed = elim (best_of candidates removed) [
    | none ↦ []
    | some best ↦ best.rule ∷ project n candidates (insert best.rule.id removed)
  ]

  -- `RuleAggregation::projection`: the projected rules and the withheld ones.
  unfoldable pub projection : List RuleAggregate × List RuleAggregate
  unfolding project sort_withheld is_candidate
  projection =
      let eligible = retain is_candidate rules in
      (
        project projected_rules (retain (λ r. not (is_withheld r)) eligible) [],
        sort_withheld (retain is_withheld eligible),
      )
