-- ===== src/Policy/Plan/Stated.antt =====
-- policy.rs: the level of a rule against the overrides as they are given.
use rust_doctor.Prelude.{
  ◌≡◌, refl, ◌∙◌, subst, inl, inr, Bool, Option, none, some, List, [], arith, list_ord, nat_ord, or,
  and_then, Option-cases, Result, ok, Result-cases,
}
use rust_doctor.BTree.{get}
use rust_doctor.Report.{Text}
use rust_doctor.Policy.Levels.{RuleLevel, Override}
use rust_doctor.Policy.Accepted.{
  RuleDefinition, ValidatedPolicy, PolicyInput, PolicyError, Levels, unknown_rule, duplicate_rule,
  unknown_category, duplicate_category, accepted, validate_rule_selector,
  validate_category_selector, knows_rule, knows_category, validated, find_in,
}
use rust_doctor.Policy.Accepted.Refused.{level_for, Verdict, accepted-Verdict}
use rust_doctor.Policy.Plan.{
  WorkspaceConfiguration, choose, compile_rule, compile_rules, compile, planned, level_of,
}
use rust_doctor.Policy.Plan.Precedence.{find-map}

-- The level of a rule by the overrides as they were given.
abbrev pub stated_level :
    List RuleDefinition → PolicyInput → WorkspaceConfiguration → Text → Option RuleLevel
stated_level catalog input configuration id = and_then (find_in catalog id) (λ d.
    or (level_for d.id input.rule_overrides) (
      or (level_for d.category input.category_overrides) (
        or (get d.id configuration.rules)
          (or (get d.category configuration.categories) (some d.default_level)))))

accepted-level_for :
    (well_formed : Text → Result PolicyError (Unit {0})) (known : Text → Bool)
    (unknown duplicate : PolicyError) (os : List Override) (m : Levels) (s : Text)
    → accepted well_formed known unknown duplicate os ≡ ok m
    → get s m ≡ level_for s os
unfolding get
accepted-level_for well_formed known unknown duplicate os m s h =
    (subst (λ r. Verdict well_formed known unknown duplicate s os [] r) h
      (accepted-Verdict well_formed known unknown duplicate os s)).2

validated-levels :
    (catalog : List RuleDefinition) (input : PolicyInput) (policy : ValidatedPolicy) (s : Text)
    → validated input catalog ≡ ok policy
    → (get s policy.rules ≡ level_for s input.rule_overrides)
      × (get s policy.categories ≡ level_for s input.category_overrides)
unfolding validated
validated-levels catalog input policy s h =
    elim (Result-cases (
      accepted validate_rule_selector (knows_rule catalog) unknown_rule duplicate_rule
        input.rule_overrides)) [
          | inl (e, q) ↦ absurd (ground arith)
          | inr (rules, q) ↦
              elim (Result-cases (
                accepted validate_category_selector knows_category unknown_category
                  duplicate_category input.category_overrides)) [
                    | inl (e, r) ↦ absurd (ground arith)
                    | inr (categories, r) ↦
                        let e : rules ≡ policy.rules = ground arith in
                        let f : categories ≡ policy.categories = ground arith in
                        (
                          subst (λ m. get s m ≡ level_for s input.rule_overrides) e
                              (accepted-level_for validate_rule_selector (knows_rule catalog)
                                unknown_rule duplicate_rule input.rule_overrides rules s q),
                          subst (λ m. get s m ≡ level_for s input.category_overrides) f
                              (accepted-level_for validate_category_selector knows_category
                                unknown_category duplicate_category input.category_overrides
                                categories s r),
                        )
                  ]
        ]

choose-level :
    (a b c d : Option RuleLevel) (e : RuleLevel)
    → some (choose a b c d e).0 ≡ or a (or b (or c (or d (some e))))
unfolding choose
choose-level (some a) b c d e = refl
choose-level none (some b) c d e = refl
choose-level none none (some c) d e = refl
choose-level none none none (some d) e = refl
choose-level none none none none e = refl

compile_rule-level :
    (policy : ValidatedPolicy) (configuration : WorkspaceConfiguration) (d : RuleDefinition)
    → some (compile_rule policy configuration d).level
      ≡ or (get d.id policy.rules) (
          or (get d.category policy.categories) (
            or
              (get d.id configuration.rules)
              (or (get d.category configuration.categories) (some d.default_level))))
unfolding compile_rule
compile_rule-level policy configuration d =
    choose-level (get d.id policy.rules) (get d.category policy.categories)
      (get d.id configuration.rules) (get d.category configuration.categories) d.default_level

-- Where the input is validated, the level that the compiled plan gives an id is that of the first
-- of these that names the rule: the rule overrides of the input, its category overrides, the rules
-- and the categories of the configuration, the default level of the catalogue; an id outside the
-- catalogue has none.
pub level_of-stated_level :
    (catalog : List RuleDefinition) (input : PolicyInput) (policy : ValidatedPolicy)
    (configuration : WorkspaceConfiguration) (id : Text)
    → validated input catalog ≡ ok policy
    → level_of (compile catalog policy configuration) id
      ≡ stated_level catalog input configuration id
unfolding level_of planned compile compile_rules
level_of-stated_level catalog input policy configuration id h =
    elim (Option-cases (find_in catalog id)) [
      | inl e ↦ ground (arith, find-map policy configuration catalog id, e)
      | inr (d, e) ↦
          let rules : get d.id policy.rules ≡ level_for d.id input.rule_overrides =
            (validated-levels catalog input policy d.id h).0 in
          let categories : get d.category policy.categories
              ≡ level_for d.category input.category_overrides =
            (validated-levels catalog input policy d.category h).1 in
          rw (find-map policy configuration catalog id, e)
            (compile_rule-level policy configuration d ∙ rw (rules, categories) refl)
    ]
