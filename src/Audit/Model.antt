-- ===== src/Audit/Model.antt =====
-- audit.rs, audit/reason.rs and the tiers of policy/catalog.rs: the data of an audit.
use rust_doctor.Prelude.{
  ℕ, compare, Ordering, ◌≡◌, Bool, ◌&&◌, ◌||◌, Option, none, some, List, [], ◌∷◌, arith, converse,
  Ord, same, list_ord, nat_ord, if◌then◌else◌, and_then, ltb,
}
use rust_doctor.Report.{Text, codes}

pub data AuditCategoryName : Type 0 where
  security bugs performance dependencies maintainability other : AuditCategoryName

pub data ScoreDimension : Type 0 where
  security_dimension reliability_dimension maintainability_dimension : ScoreDimension
  performance_dimension dependencies_dimension : ScoreDimension

-- `ScoreDimension::ALL`.
abbrev pub all_dimensions : List ScoreDimension
all_dimensions =
    security_dimension ∷ reliability_dimension ∷ maintainability_dimension ∷ performance_dimension
    ∷ dependencies_dimension ∷ []

-- `ScoreDimension::as_str`.
unfoldable pub dimension_name : ScoreDimension → Text
dimension_name security_dimension = codes "security"
dimension_name reliability_dimension = codes "reliability"
dimension_name maintainability_dimension = codes "maintainability"
dimension_name performance_dimension = codes "performance"
dimension_name dependencies_dimension = codes "dependencies"

unfoldable pub dimension_weight_twice : ScoreDimension → ℕ
dimension_weight_twice security_dimension = 4
dimension_weight_twice reliability_dimension = 3
dimension_weight_twice maintainability_dimension = 2
dimension_weight_twice performance_dimension = 2
dimension_weight_twice dependencies_dimension = 2

pub data RuleTier : Type 0 where
  p0 p1 p2 p3 : RuleTier

pub data Producer : Type 0 where
  clippy_lints cargo_health source_kernel structure repo : Producer

pub data ScoreReason : Type 0 where
  scan_incomplete stage_failed category_mapping_conflict : ScoreReason
  deadline_exceeded packages_unlinted rules_not_evaluated : ScoreReason

pub data ScoreLabel : Type 0 where
  great needs_work critical : ScoreLabel

-- The derived order of `ScoreReason`.
abbrev pub reason_position : ScoreReason → ℕ
reason_position scan_incomplete = 0
reason_position stage_failed = 1
reason_position category_mapping_conflict = 2
reason_position deadline_exceeded = 3
reason_position packages_unlinted = 4
reason_position rules_not_evaluated = 5

abbrev pub cmp_reason : ScoreReason → ScoreReason → Ordering
cmp_reason a b = compare (reason_position a) (reason_position b)

pub reason_self : (a : ScoreReason) → cmp_reason a a ≡ Ordering.eq
reason_self a = ground arith

pub reason_eq : (a b : ScoreReason) → cmp_reason a b ≡ Ordering.eq → a ≡ b
reason_eq a b h = ground arith

pub reason_swap : (a b : ScoreReason) → cmp_reason b a ≡ converse (cmp_reason a b)
reason_swap a b = ground arith

pub reason_trans :
    (a b c : ScoreReason)
    → cmp_reason a b ≡ Ordering.lt
    → cmp_reason b c ≡ Ordering.lt
    → cmp_reason a c ≡ Ordering.lt
reason_trans a b c p q = ground arith

instance abbrev pub reason_ord : Ord ScoreReason
reason_ord = record {
  cmp = cmp_reason;
  cmp_self = reason_self;
  cmp_eq = reason_eq;
  cmp_swap = reason_swap;
  cmp_trans = reason_trans;
}

-- The derived order of `AuditCategoryName`.
abbrev pub category_position : AuditCategoryName → ℕ
category_position security = 0
category_position bugs = 1
category_position performance = 2
category_position dependencies = 3
category_position maintainability = 4
category_position other = 5

abbrev pub cmp_category : AuditCategoryName → AuditCategoryName → Ordering
cmp_category a b = compare (category_position a) (category_position b)

pub category_self : (a : AuditCategoryName) → cmp_category a a ≡ Ordering.eq
category_self a = ground arith

pub category_eq : (a b : AuditCategoryName) → cmp_category a b ≡ Ordering.eq → a ≡ b
category_eq a b h = ground arith

pub category_swap : (a b : AuditCategoryName) → cmp_category b a ≡ converse (cmp_category a b)
category_swap a b = ground arith

pub category_trans :
    (a b c : AuditCategoryName)
    → cmp_category a b ≡ Ordering.lt
    → cmp_category b c ≡ Ordering.lt
    → cmp_category a c ≡ Ordering.lt
category_trans a b c p q = ground arith

instance abbrev pub category_ord : Ord AuditCategoryName
category_ord = record {
  cmp = cmp_category;
  cmp_self = category_self;
  cmp_eq = category_eq;
  cmp_swap = category_swap;
  cmp_trans = category_trans;
}

unfoldable pub category_mapping : Text → Option (AuditCategoryName × ScoreDimension)
category_mapping category =
    if same category (codes "security")
    then some (security, security_dimension)
    else if same category (codes "correctness") || same category (codes "reliability")
    then some (bugs, reliability_dimension)
    else if same category (codes "performance")
    then some (performance, performance_dimension)
    else if same category (codes "cargo") || same category (codes "dependencies")
    then some (dependencies, dependencies_dimension)
    else if same category (codes "maintainability")
    then some (maintainability, maintainability_dimension)
    else none

unfoldable pub category_bucket : Option Text → AuditCategoryName
category_bucket category = elim (and_then category category_mapping) [
  | none ↦ other
  | some (name, _) ↦ name
]

unfoldable pub is_scorable_workspace : ℕ → ℕ → Bool
is_scorable_workspace source_files production_lines = ltb 0 source_files && ltb 0 production_lines

-- `ScoreReason::of_error`; the last text is `LINE_MAP_NOTICE`.
unfoldable pub of_error : Text → Option ScoreReason
of_error code =
    if same code (codes "deadline-exceeded")
    then some deadline_exceeded
    else if same code (codes "packages-unlinted")
    then some packages_unlinted
    else if same code (codes "lint-list-unavailable") || same code (codes "line-map-unavailable")
    then none
    else some stage_failed
