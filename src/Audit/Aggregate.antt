-- ===== src/Audit/Aggregate.antt =====
-- audit.rs, `aggregate_rules`: the findings gathered by rule. The catalogue (`policy::find`) and the
-- corpus table (`corpus_measurement`, as basis points) are tables of the policy: they are arguments.
use rust_doctor.Prelude.{
  ℕ, Bool, true, false, not, ◌&&◌, Option, none, some, List, [], ◌∷◌, map, ltb, if◌then◌else◌,
  and_then, is_some, is_none, list_ord, nat_ord,
}
use rust_doctor.BTree.{Map, Set, get, entry, insert_option, values}
use rust_doctor.Report.{Text, Severity, rank, Diagnostic, weighs}
use rust_doctor.Audit.Counts.{saturating_add}
use rust_doctor.Audit.Model.{
  AuditCategoryName, category_ord, ScoreDimension, RuleTier, Producer, ScoreReason, reason_ord,
  stage_failed, category_mapping_conflict, category_mapping,
}
use rust_doctor.Audit.Float.{Float}
use rust_doctor.Audit.Density.{
  DensityScope, workspace, RuleAggregate, dimension_is, severity_weight, scope_of, Scale, scale_of,
  contributions,
}

-- What the catalogue and the corpus say of a rule.
pub record Definition : Type 0 where
  pub producer : Producer
  pub tier : RuleTier

pub record Catalog : Type 0 where
  pub find_rule : Text → Option Definition
  pub noise_of : Text → Option ℕ

unfoldable pub void_reason : Bool → Bool → Bool → Option ScoreReason
void_reason false catalogued scores = none
void_reason true true true = none
void_reason true false scores = some stage_failed
void_reason true true false = some category_mapping_conflict

pub record PendingRule : Type 0 where
  pub id : Text
  pub severity : Severity
  pub category : Option AuditCategoryName
  pub dimension : Option ScoreDimension
  pub scope : DensityScope
  pub mapping_conflict : Bool
  pub tier : Option RuleTier
  pub occurrences : ℕ
  pub numerator : ℕ
  pub owned : ℕ
  pub noise : Option ℕ

unfoldable pub new_rule : Catalog → Text → Severity → PendingRule
unfolding scope_of
new_rule catalog id severity = record {
  id = id;
  severity = severity;
  category = none;
  dimension = none;
  scope = elim (catalog.find_rule id) [ none ↦ workspace | some d ↦ scope_of d.producer ];
  mapping_conflict = false;
  tier = elim (catalog.find_rule id) [ none ↦ none | some d ↦ some d.tier ];
  occurrences = 0;
  numerator = 0;
  owned = 0;
  noise = catalog.noise_of id;
}

-- A finding that scores adds its weight, and settles the rule's dimension or contradicts it.
unfoldable pub weigh_in : AuditCategoryName → ScoreDimension → ℕ → Bool → PendingRule → PendingRule
weigh_in category dimension weight owned rule =
    let heavier = record rule {
      numerator = saturating_add rule.numerator weight;
      owned = if owned then saturating_add rule.owned weight else rule.owned;
    } in
    elim rule.dimension [
      | none ↦ record heavier { category = some category; dimension = some dimension }
      | some current ↦
          if dimension_is dimension (some current)
          then heavier
          else record heavier { mapping_conflict = true }
    ]

-- The rule after one finding: its occurrences, its worst severity, and its weight.
unfoldable pub update_rule : Diagnostic → PendingRule → PendingRule
unfolding weighs rank weigh_in severity_weight category_mapping
update_rule diagnostic rule =
    let counted = record rule {
      occurrences = saturating_add rule.occurrences diagnostic.occurrences;
      severity =
          if ltb (rank diagnostic.severity) (rank rule.severity)
          then diagnostic.severity
          else rule.severity;
    } in
    let mapping = and_then diagnostic.category category_mapping in
    let unweighed : PendingRule = elim mapping [
      | none ↦ counted
      | some m ↦ if is_none rule.category then record counted { category = some m.0 } else counted
    ] in
    if weighs diagnostic
    then elim (severity_weight diagnostic.severity) [
      | none ↦ unweighed
      | some weight ↦ elim mapping [
        | none ↦ unweighed
        | some m ↦ weigh_in m.0 m.1 weight (is_some diagnostic.owner) counted
      ]
    ]
    else unweighed

-- `diagnostic.code.filter(|code| !code.is_empty())`.
abbrev pub named_code : Option Text → Option Text
named_code none = none
named_code (some []) = none
named_code (some (c ∷ cs)) = some (c ∷ cs)

-- `weighs && weight.is_some() && mapping.is_some()`.
unfoldable pub does_score : Diagnostic → Bool
unfolding weighs severity_weight category_mapping
does_score diagnostic =
    weighs diagnostic
    && is_some (severity_weight diagnostic.severity)
    && is_some (and_then diagnostic.category category_mapping)

-- A finding of a rule whose dimension is settled, and is another one.
unfoldable pub contradicts : Option PendingRule → Option Text → Bool
unfolding category_mapping
contradicts none category = false
contradicts (some rule) category = elim (and_then category category_mapping) [
  | none ↦ false
  | some m ↦ is_some rule.dimension && not (dimension_is m.1 rule.dimension)
]

-- The two accumulators of the loop.
pub record Pending : Type 0 where
  pub voided : Set ScoreReason
  pub rules : Map Text PendingRule

module _ (catalog : Catalog) where
  unfoldable pub aggregate_one : Diagnostic → Pending → Pending
  unfolding void_reason does_score new_rule update_rule contradicts
  aggregate_one diagnostic p = elim (named_code diagnostic.code) [
    | none ↦ record p {
      voided = insert_option (void_reason (weighs diagnostic) false false) p.voided;
    }
    | some id ↦
        let scores = does_score diagnostic in
        let reason = void_reason (weighs diagnostic) (is_some (catalog.find_rule id)) scores in
        let rules =
          entry id (new_rule catalog id diagnostic.severity) (update_rule diagnostic) p.rules in
        let conflicts = scores && contradicts (get id p.rules) diagnostic.category in
        record {
          voided =
              insert_option (if conflicts then some category_mapping_conflict else none)
                (insert_option reason p.voided);
          rules = rules;
        }
  ]

  unfoldable pub aggregate_all : List Diagnostic → Pending → Pending
  unfolding aggregate_one
  aggregate_all [] p = p
  aggregate_all (diagnostic ∷ rest) p = aggregate_all rest (aggregate_one diagnostic p)

-- `(!conflict).then_some(category).flatten()`, and the dimension of a rule that weighs.
unfoldable pub settle : PendingRule → RuleAggregate
settle rule = record {
  id = rule.id;
  effective_severity = rule.severity;
  category = if rule.mapping_conflict then none else rule.category;
  dimension = if not rule.mapping_conflict && ltb 0 rule.numerator then rule.dimension else none;
  scope = rule.scope;
  tier = rule.tier;
  occurrences = rule.occurrences;
  numerator = rule.numerator;
  owned = rule.owned;
  noise = rule.noise;
  contribution = 0;
}

-- The loop that writes the contributions back.
unfoldable pub with_contributions : List RuleAggregate → List ℕ → List RuleAggregate
with_contributions [] ns = []
with_contributions (r ∷ rs) [] = r ∷ rs
with_contributions (r ∷ rs) (n ∷ ns) = record r { contribution = n } ∷ with_contributions rs ns

module _ (f : Float) where
  pub record RuleAggregation : Type 0 where
    pub rules : List RuleAggregate
    pub scale : Scale f
    pub voided : Set ScoreReason

  unfoldable pub aggregate_rules : Catalog → ℕ → ℕ → List Diagnostic → RuleAggregation
  unfolding aggregate_all settle with_contributions contributions scale_of
  aggregate_rules catalog production_lines members diagnostics =
      let pending = aggregate_all catalog diagnostics (record { voided = []; rules = [] }) in
      let scale = scale_of f production_lines members in
      let rules = map settle (values pending.rules) in
      record {
        rules = with_contributions rules (contributions f rules scale);
        scale = scale;
        voided = pending.voided;
      }
