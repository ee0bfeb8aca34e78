-- ===== src/Tests/Policies.antt =====
-- The theorems on levels, overrides and plans.
use rust_doctor.Prelude.{
  ◌≡◌, ◌↔◌, refl, false, none, [], ◌∷◌, List, any, is_empty, ◌==◌, list_ord, nat_ord, ok, cmp_list,
}
use rust_doctor.BTree.{get, entry}
use rust_doctor.Report.{codes}
use rust_doctor.PathGlob.{name, matches}
use rust_doctor.Audit.Model.{clippy_lints, repo}
use rust_doctor.Policy.Levels.{
  off, warn, error, Override, equals, print_override, parse_override, is_rule_selector,
}
use rust_doctor.Policy.Levels.Printed.{parse_override_iff}
use rust_doctor.Policy.Accepted.{
  RuleDefinition, PolicyInput, ValidatedPolicy, validated, accepted, validate_rule_selector,
  knows_rule, unknown_rule, duplicate_rule, accept,
}
use rust_doctor.Policy.Accepted.Refused.{Verdict, accepted-Verdict}
use rust_doctor.Policy.Plan.{
  WorkspaceConfiguration, PlannedRule, compile, compile_rules, compile_rule, choose, planned,
  level_of, path_level, is_request, config_rule, default_source, active_rules_in, turns_off,
  last_level, table_level,
}
use rust_doctor.Policy.Plan.Precedence.{Prevails, planned-Prevails, turns_off-active_rules_in}
use rust_doctor.Policy.Plan.Stated.{stated_level, level_of-stated_level}
use rust_doctor.Policy.Plan.Paths.{LastTable, path_level-LastTable}

abbrev todo : RuleDefinition
todo = record {
  id = codes "clippy::todo";
  category = codes "maintainability";
  producer = clippy_lints;
  default_level = warn;
}

abbrev lockfile : RuleDefinition
lockfile = record {
  id = codes "repo::lock";
  category = codes "dependencies";
  producer = repo;
  default_level = error;
}

abbrev catalog : List RuleDefinition
catalog = todo ∷ lockfile ∷ []

abbrev override : Override
override = record { selector = codes "clippy::todo"; level = off }

abbrev request : PolicyInput
request = record { rule_overrides = override ∷ []; category_overrides = []; blocking = none }

abbrev policy : ValidatedPolicy
policy = record { input = request; rules = (codes "clippy::todo", off) ∷ []; categories = [] }

abbrev configuration : WorkspaceConfiguration
configuration = record {
  file_name = none;
  blocking = none;
  categories = [];
  rules = (codes "repo::lock", warn) ∷ [];
  paths = record {
    ignore = [];
    overrides =
        record {
          paths = record { pattern = codes "src"; segments = name (codes "src") ∷ [] } ∷ [];
          rules = (codes "repo::lock", off) ∷ [];
          categories = [];
        }
        ∷ [];
  };
}

parse_override_iff_example : (parse_override (codes "clippy::todo=off") ≡ ok override) ↔ (
    (print_override override ≡ codes "clippy::todo=off")
    × (is_empty override.selector ≡ false)
    × (any (λ c. c == equals) override.selector ≡ false))
parse_override_iff_example = parse_override_iff (codes "clippy::todo=off") override

accepted-Verdict_example :
    Verdict validate_rule_selector
      (knows_rule catalog)
      unknown_rule
      duplicate_rule
      (codes "clippy::todo")
      (override ∷ override ∷ [])
      []
      (accepted validate_rule_selector
        (knows_rule catalog)
        unknown_rule
        duplicate_rule
        (override ∷ override ∷ []))
accepted-Verdict_example =
    accepted-Verdict validate_rule_selector (knows_rule catalog) unknown_rule duplicate_rule
      (override ∷ override ∷ []) (codes "clippy::todo")

abbrev rule : PlannedRule
rule = record { definition = lockfile; level = warn; source = config_rule }

planned-Prevails_example : Prevails policy configuration (codes "repo::lock") default_source rule
unfolding planned compile compile_rules compile_rule choose get cmp_list
planned-Prevails_example =
    planned-Prevails catalog policy configuration (codes "repo::lock") rule default_source refl

level_of-stated_level_example :
    level_of (compile catalog policy configuration) (codes "clippy::todo")
    ≡ stated_level catalog request configuration (codes "clippy::todo")
unfolding validated accepted accept validate_rule_selector is_rule_selector get entry cmp_list
level_of-stated_level_example =
    level_of-stated_level catalog request policy configuration (codes "clippy::todo") refl

turns_off-active_rules_in_example :
    active_rules_in (compile_rules catalog policy configuration) clippy_lints ≡ []
unfolding turns_off get cmp_list
turns_off-active_rules_in_example =
    turns_off-active_rules_in policy configuration clippy_lints catalog refl

path_level-LastTable_example :
    (is_request rule.source ≡ false)
    × LastTable lockfile (codes "src/a.rs") configuration.paths.overrides off
unfolding planned path_level last_level table_level compile compile_rules compile_rule choose get
    cmp_list matches
path_level-LastTable_example =
    path_level-LastTable (compile catalog policy configuration) (codes "repo::lock")
      (codes "src/a.rs") rule off refl refl
