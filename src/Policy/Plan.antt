-- ===== src/Policy/Plan.antt =====
-- policy.rs and policy/paths.rs: the plan of levels that a request, a configuration and the default
-- levels of the catalogue give. Of the configuration the settings of other parts are left out.
pub mod Precedence
pub mod Stated
pub mod Paths
use rust_doctor.Prelude.{
  ℕ, ◌≡◌, Bool, true, false, not, ◌&&◌, Option, none, some, List, [], ◌∷◌, map, if◌then◌else◌, any,
  all, is_some, is_none, same, list_ord, nat_ord, or, and_then, filter_map, retain, unwrap_or,
}
use rust_doctor.BTree.{Map, get, Set, insert}
use rust_doctor.Report.{Text}
use rust_doctor.PathGlob.{PathGlob, matches}
use rust_doctor.Audit.Model.{Producer, clippy_lints, cargo_health, source_kernel, structure, repo}
use rust_doctor.Policy.Levels.{
  RuleLevel, off, warn, error, is_active_level, BlockingLevel, blocks_error,
}
use rust_doctor.Policy.Accepted.{RuleDefinition, Levels, ValidatedPolicy, PolicyInput, by_id}

pub data RuleLevelSource : Type 0 where
  default_source config_category config_rule request_category request_rule : RuleLevelSource

pub data BlockingLevelSource : Type 0 where
  default_blocking config_blocking request_blocking : BlockingLevelSource

pub record PlannedRule : Type 0 where
  pub definition : RuleDefinition
  pub level : RuleLevel
  pub source : RuleLevelSource

pub record PathOverride : Type 0 where
  pub paths : List PathGlob
  pub rules : Levels
  pub categories : Levels

pub record PathPolicy : Type 0 where
  pub ignore : List PathGlob
  pub overrides : List PathOverride

pub record WorkspaceConfiguration : Type 0 where
  pub file_name : Option Text
  pub blocking : Option BlockingLevel
  pub categories : Levels
  pub rules : Levels
  pub paths : PathPolicy

pub record PolicyPlan : Type 0 where
  pub rules : List PlannedRule
  pub blocking : BlockingLevel
  pub blocking_source : BlockingLevelSource
  pub config_file : Option Text
  pub paths : PathPolicy

-- `PlannedRule::restamped`.
abbrev pub restamped : PlannedRule → Bool
restamped rule = elim rule.source [ default_source ↦ false | _ ↦ true ]

-- The closure of `compile_rules`: a level and its source, by the tables that name the rule.
unfoldable pub choose :
    Option RuleLevel
    → Option RuleLevel
    → Option RuleLevel
    → Option RuleLevel
    → RuleLevel
    → RuleLevel × RuleLevelSource
choose (some level) request_categories config_rules config_categories default =
    (level, request_rule)
choose none (some level) config_rules config_categories default = (level, request_category)
choose none none (some level) config_categories default = (level, config_rule)
choose none none none (some level) default = (level, config_category)
choose none none none none default = (default, default_source)

unfoldable pub compile_rule :
    ValidatedPolicy → WorkspaceConfiguration → RuleDefinition → PlannedRule
unfolding choose
compile_rule policy configuration definition =
    let (level, source) =
      choose (get definition.id policy.rules) (get definition.category policy.categories)
        (get definition.id configuration.rules) (get definition.category configuration.categories)
        definition.default_level in
    record { definition = definition; level = level; source = source }

unfoldable pub compile_rules :
    List RuleDefinition → ValidatedPolicy → WorkspaceConfiguration → List PlannedRule
unfolding compile_rule
compile_rules catalog policy configuration = map (compile_rule policy configuration) catalog

abbrev pub choose_blocking :
    Option BlockingLevel → Option BlockingLevel → BlockingLevel × BlockingLevelSource
choose_blocking (some blocking) configured = (blocking, request_blocking)
choose_blocking none (some blocking) = (blocking, config_blocking)
choose_blocking none none = (blocks_error, default_blocking)

-- `PolicyPlan::compile_with_configuration`.
unfoldable pub compile : List RuleDefinition → ValidatedPolicy → WorkspaceConfiguration → PolicyPlan
unfolding compile_rules
compile catalog policy configuration =
    let (blocking, blocking_source) =
      choose_blocking policy.input.blocking configuration.blocking in
    record {
      rules = compile_rules catalog policy configuration;
      blocking = blocking;
      blocking_source = blocking_source;
      config_file = configuration.file_name;
      paths = configuration.paths;
    }

-- `PolicyPlan::default`.
unfoldable pub default_plan : List RuleDefinition → PolicyPlan
default_plan catalog = record {
  rules =
      map
        (λ definition. record {
          definition = definition;
          level = definition.default_level;
          source = default_source;
        })
        catalog;
  blocking = blocks_error;
  blocking_source = default_blocking;
  config_file = none;
  paths = record { ignore = []; overrides = [] };
}

unfoldable pub planned : PolicyPlan → Text → Option PlannedRule
planned plan id = by_id (λ rule. rule.definition.id) plan.rules id

unfoldable pub level_of : PolicyPlan → Text → Option RuleLevel
unfolding planned
level_of plan id = and_then (planned plan id) (λ rule. some rule.level)

unfoldable pub is_active : PolicyPlan → Text → Bool
unfolding level_of
is_active plan id = elim (level_of plan id) [ none ↦ false | some level ↦ is_active_level level ]

unfoldable pub restamp_level : PolicyPlan → Text → Option RuleLevel
unfolding planned
restamp_level plan id =
    and_then (planned plan id) (λ rule. if restamped rule then some rule.level else none)

-- `PathPolicy::level`: the tables are tried from the last.
unfoldable pub table_level : RuleDefinition → Text → PathOverride → Option RuleLevel
unfolding matches
table_level definition path table =
    if any (λ glob. matches glob path) table.paths
    then or (get definition.id table.rules) (get definition.category table.categories)
    else none

unfoldable pub last_level : RuleDefinition → Text → List PathOverride → Option RuleLevel
unfolding table_level
last_level definition path [] = none
last_level definition path (table ∷ tables) =
    or (last_level definition path tables) (table_level definition path table)

abbrev pub is_request : RuleLevelSource → Bool
is_request request_rule = true
is_request request_category = true
is_request _ = false

unfoldable pub path_level : PolicyPlan → Text → Text → Option RuleLevel
unfolding planned last_level
path_level plan id path = and_then (planned plan id) (λ rule.
    if is_request rule.source then none else last_level rule.definition path plan.paths.overrides)

abbrev pub same_producer : Producer → Producer → Bool
same_producer clippy_lints clippy_lints = true
same_producer cargo_health cargo_health = true
same_producer source_kernel source_kernel = true
same_producer structure structure = true
same_producer repo repo = true
same_producer _ _ = false

-- `active_rules_in`.
unfoldable pub active_rules_in : List PlannedRule → Producer → List (RuleDefinition × RuleLevel)
active_rules_in rules producer =
    filter_map
      (λ rule.
        if same_producer rule.definition.producer producer && is_active_level rule.level
        then some (rule.definition, rule.level)
        else none)
      rules

-- `ActiveRules::of`: the set of ids.
abbrev pub ids_of : List (RuleDefinition × RuleLevel) → Set Text
ids_of [] = []
ids_of (rule ∷ rules) = insert rule.0.id (ids_of rules)

unfoldable pub active_rules : PolicyPlan → Producer → Set Text
unfolding active_rules_in
active_rules plan producer = ids_of (active_rules_in plan.rules producer)

unfoldable pub turns_off : List RuleDefinition → ValidatedPolicy → Producer → Bool
turns_off catalog policy producer =
    all
      (λ definition.
        elim (or (get definition.id policy.rules) (get definition.category policy.categories)) [
          | none ↦ false
          | some level ↦ not (is_active_level level)
        ])
      (retain (λ definition. same_producer definition.producer producer) catalog)
