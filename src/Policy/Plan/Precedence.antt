-- ===== src/Policy/Plan/Precedence.antt =====
-- policy.rs: which table gives the level of a rule.
use rust_doctor.Prelude.{
  ℕ, ◌≡◌, refl, ◌⊎◌, inl, inr, true, Option, none, some, List, [], ◌∷◌, map, arith, leb, same,
  same_iff, list_ord, nat_ord, and_then, Bool-cases, Option-cases,
}
use rust_doctor.BTree.{get}
use rust_doctor.Report.{Text}
use rust_doctor.Audit.Model.{Producer}
use rust_doctor.Policy.Levels.{RuleLevel}
use rust_doctor.Policy.Accepted.{RuleDefinition, ValidatedPolicy, by_id, find_in}
use rust_doctor.Policy.Plan.{
  RuleLevelSource, default_source, config_category, config_rule, request_category, request_rule,
  PlannedRule, WorkspaceConfiguration, choose, compile_rule, compile_rules, compile, planned,
  active_rules_in, turns_off,
}

abbrev pub priority : RuleLevelSource → ℕ
priority default_source = 0
priority config_category = 1
priority config_rule = 2
priority request_category = 3
priority request_rule = 4

abbrev level_in :
    Option RuleLevel
    → Option RuleLevel
    → Option RuleLevel
    → Option RuleLevel
    → RuleLevel
    → RuleLevelSource
    → Option RuleLevel
level_in a b c d e request_rule = a
level_in a b c d e request_category = b
level_in a b c d e config_rule = c
level_in a b c d e config_category = d
level_in a b c d e default_source = some e

-- What a source says of a rule.
abbrev pub source_level :
    ValidatedPolicy → WorkspaceConfiguration → RuleDefinition → RuleLevelSource → Option RuleLevel
source_level policy configuration definition source =
    level_in (get definition.id policy.rules) (get definition.category policy.categories)
      (get definition.id configuration.rules) (get definition.category configuration.categories)
      definition.default_level source

prevails :
    (a b c d : Option RuleLevel) (e : RuleLevel) (other : RuleLevelSource)
    → (level_in a b c d e (choose a b c d e).1 ≡ some (choose a b c d e).0)
      × ((leb (priority other) (priority (choose a b c d e).1) ≡ true)
          ⊎ (level_in a b c d e other ≡ none))
unfolding choose
prevails (some a) b c d e request_rule = (refl, inl refl)
prevails (some a) b c d e request_category = (refl, inl refl)
prevails (some a) b c d e config_rule = (refl, inl refl)
prevails (some a) b c d e config_category = (refl, inl refl)
prevails (some a) b c d e default_source = (refl, inl refl)
prevails none (some b) c d e request_rule = (refl, inr refl)
prevails none (some b) c d e request_category = (refl, inl refl)
prevails none (some b) c d e config_rule = (refl, inl refl)
prevails none (some b) c d e config_category = (refl, inl refl)
prevails none (some b) c d e default_source = (refl, inl refl)
prevails none none (some c) d e request_rule = (refl, inr refl)
prevails none none (some c) d e request_category = (refl, inr refl)
prevails none none (some c) d e config_rule = (refl, inl refl)
prevails none none (some c) d e config_category = (refl, inl refl)
prevails none none (some c) d e default_source = (refl, inl refl)
prevails none none none (some d) e request_rule = (refl, inr refl)
prevails none none none (some d) e request_category = (refl, inr refl)
prevails none none none (some d) e config_rule = (refl, inr refl)
prevails none none none (some d) e config_category = (refl, inl refl)
prevails none none none (some d) e default_source = (refl, inl refl)
prevails none none none none e request_rule = (refl, inr refl)
prevails none none none none e request_category = (refl, inr refl)
prevails none none none none e config_rule = (refl, inr refl)
prevails none none none none e config_category = (refl, inr refl)
prevails none none none none e default_source = (refl, inl refl)

pub find-map :
    (policy : ValidatedPolicy) (configuration : WorkspaceConfiguration)
    (catalog : List RuleDefinition) (id : Text)
    → by_id (λ rule. rule.definition.id) (map (compile_rule policy configuration) catalog) id
      ≡ and_then
          (find_in catalog id)
          (λ definition. some (compile_rule policy configuration definition))
unfolding compile_rule
find-map policy configuration [] id = refl
find-map policy configuration (d ∷ ds) id = ground (arith, find-map policy configuration ds id)

find-id :
    (catalog : List RuleDefinition) (id : Text) (d : RuleDefinition)
    → find_in catalog id ≡ some d
    → d.id ≡ id
find-id [] id d h = cc
find-id (c ∷ cs) id d h = elim (Bool-cases (same c.id id)) [
  | inl e ↦ ground (arith, (same_iff c.id id).0 e)
  | inr e ↦ find-id cs id d (ground arith)
]

-- The rule that the plan has for an id.
abbrev pub Prevails :
    ValidatedPolicy → WorkspaceConfiguration → Text → RuleLevelSource → PlannedRule → Type 0
Prevails policy configuration id other rule =
    (rule.definition.id ≡ id)
    × (source_level policy configuration rule.definition rule.source ≡ some rule.level)
    × ((leb (priority other) (priority rule.source) ≡ true)
        ⊎ (source_level policy configuration rule.definition other ≡ none))

rule-Prevails :
    (policy : ValidatedPolicy) (configuration : WorkspaceConfiguration) (d : RuleDefinition)
    (id : Text) (other : RuleLevelSource)
    → d.id ≡ id
    → Prevails policy configuration id other (compile_rule policy configuration d)
unfolding compile_rule
rule-Prevails policy configuration d id other h =
    let (a, b) =
      prevails (get d.id policy.rules) (get d.category policy.categories)
        (get d.id configuration.rules) (get d.category configuration.categories) d.default_level
        other in
    (h, a, b)

-- The rule that the compiled plan has for an id has that id, its level is what its source says of
-- it, and any source is of no higher priority or says nothing of the rule.
pub planned-Prevails :
    (catalog : List RuleDefinition) (policy : ValidatedPolicy)
    (configuration : WorkspaceConfiguration) (id : Text) (rule : PlannedRule)
    (other : RuleLevelSource)
    → planned (compile catalog policy configuration) id ≡ some rule
    → Prevails policy configuration id other rule
unfolding planned compile compile_rules
planned-Prevails catalog policy configuration id rule other h =
    elim (Option-cases (find_in catalog id)) [
      | inl e ↦ absurd (ground (arith, find-map policy configuration catalog id, e))
      | inr (d, e) ↦
          let q : compile_rule policy configuration d ≡ rule =
            ground (arith, find-map policy configuration catalog id, e) in
          rw (← q) (rule-Prevails policy configuration d id other (find-id catalog id d e))
    ]

-- Where the request turns off a producer, the rules compiled with any configuration have no active
-- rule of that producer.
pub turns_off-active_rules_in :
    (policy : ValidatedPolicy) (configuration : WorkspaceConfiguration) (producer : Producer)
    (catalog : List RuleDefinition)
    → turns_off catalog policy producer ≡ true
    → active_rules_in (compile_rules catalog policy configuration) producer ≡ []
unfolding turns_off active_rules_in compile_rules compile_rule choose
turns_off-active_rules_in policy configuration producer [] h = refl
turns_off-active_rules_in policy configuration producer (d ∷ ds) h =
    ground (arith, turns_off-active_rules_in policy configuration producer ds)
