-- ===== src/Policy/Accepted.antt =====
-- policy.rs: the overrides of a request, accepted or refused. The catalogue of rules is an argument. A
-- binary search in a list that is sorted, as the catalogue and the categories are, is the first entry
-- with the key.
pub mod Refused
use rust_doctor.Prelude.{
  ℕ, ◌≡◌, Bool, true, false, Option, none, some, List, [], ◌∷◌, if◌then◌else◌, find, any, is_some,
  same, list_ord, nat_ord, Result, ok, err, try_then,
}
use rust_doctor.BTree.{Map, get, entry}
use rust_doctor.Report.{Text, codes}
use rust_doctor.Audit.Model.{Producer}
use rust_doctor.Policy.Levels.{
  RuleLevel, BlockingLevel, Override, is_rule_selector, is_category_selector,
}

-- The fields that levels depend on.
pub record RuleDefinition : Type 0 where
  pub id : Text
  pub category : Text
  pub producer : Producer
  pub default_level : RuleLevel

abbrev pub Levels : Type 0
Levels = Map Text RuleLevel

abbrev pub category_names : List Text
category_names =
    codes "correctness"
    ∷ codes "dependencies"
    ∷ codes "maintainability"
    ∷ codes "performance"
    ∷ codes "reliability"
    ∷ codes "security"
    ∷ []

pub record PolicyInput : Type 0 where
  pub rule_overrides : List Override
  pub category_overrides : List Override
  pub blocking : Option BlockingLevel

pub data PolicyError : Type 0 where
  invalid_rule unknown_rule duplicate_rule invalid_category unknown_category duplicate_category :
      PolicyError

-- The codes of the errors.
unfoldable pub error_code : PolicyError → Text
error_code invalid_rule = codes "invalid-rule-selector"
error_code unknown_rule = codes "unknown-rule"
error_code duplicate_rule = codes "duplicate-rule-override"
error_code invalid_category = codes "invalid-category-selector"
error_code unknown_category = codes "unknown-category"
error_code duplicate_category = codes "duplicate-category-override"

unfoldable pub validate_rule_selector : Text → Result PolicyError (Unit {0})
validate_rule_selector selector = if is_rule_selector selector then ok tt else err invalid_rule

unfoldable pub validate_category_selector : Text → Result PolicyError (Unit {0})
validate_category_selector selector =
    if is_category_selector selector then ok tt else err invalid_category

-- `by_id`.
abbrev pub by_id {ℓ} : {A : Type ℓ} → (A → Text) → List A → Text → Option A
by_id key entries id = find (λ entry. same (key entry) id) entries

abbrev pub find_in : List RuleDefinition → Text → Option RuleDefinition
find_in catalog id = by_id (λ definition. definition.id) catalog id

-- The loop of `accepted`, with the levels that it has.
unfoldable pub accept :
    (Text → Result PolicyError (Unit {0}))
    → (Text → Bool)
    → PolicyError
    → PolicyError
    → List Override
    → Levels
    → Result PolicyError Levels
accept well_formed known unknown duplicate [] held = ok held
accept well_formed known unknown duplicate (o ∷ os) held =
    let rest =
      accept well_formed known unknown duplicate os
        (entry o.selector o.level (λ old. o.level) held) in
    try_then (well_formed o.selector) (λ u.
      if known o.selector
      then (if is_some (get o.selector held) then err duplicate else rest)
      else err unknown)

unfoldable pub accepted :
    (Text → Result PolicyError (Unit {0}))
    → (Text → Bool)
    → PolicyError
    → PolicyError
    → List Override
    → Result PolicyError Levels
unfolding accept
accepted well_formed known unknown duplicate overrides =
    accept well_formed known unknown duplicate overrides []

pub record ValidatedPolicy : Type 0 where
  pub input : PolicyInput
  pub rules : Levels
  pub categories : Levels

abbrev pub knows_rule : List RuleDefinition → Text → Bool
knows_rule catalog selector = is_some (find_in catalog selector)

abbrev pub knows_category : Text → Bool
knows_category selector = any (λ category. same category selector) category_names

-- `ValidatedPolicy::of`.
unfoldable pub validated : PolicyInput → List RuleDefinition → Result PolicyError ValidatedPolicy
unfolding accepted
validated input catalog =
    try_then
      (accepted validate_rule_selector (knows_rule catalog) unknown_rule duplicate_rule
        input.rule_overrides)
      (λ rules.
        try_then
          (accepted validate_category_selector knows_category unknown_category duplicate_category
            input.category_overrides)
          (λ categories. ok (record { input = input; rules = rules; categories = categories })))
