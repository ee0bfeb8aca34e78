-- ===== src/Exclusion.antt =====
-- report/exclusion.rs: findings are removed by path and by package, suppressed by the directives of the
-- source, and moved to the level that the policy gives their path. The policy's answers and the ids of
-- the rule catalogue are arguments. Of a report's `help` the lint that it names is kept.
pub mod Distance
pub mod Scripts
pub mod Applied
pub mod Left
use rust_doctor.Prelude.{
  ℕ, suc, ◌+◌, ◌-◌, ◌≡◌, Bool, true, false, not, ◌&&◌, ◌||◌, Option, none, some, List, [], ◌∷◌, map,
  arith, ltb, leb, ◌==◌, if◌then◌else◌, and_then, is_some, any, find, retain, length, is_none,
  filter_map, Ord, same, list_ord, nat_ord, option_ord, cmp_list,
}
use Prim.Native.Nat.Ordering.{lt, eq, gt}
use rust_doctor.BTree.{Map, get, Set, contains}
use rust_doctor.Report.{
  Text, codes, Severity, Diagnostic, DiagnosticSource, source_ord, rust_doctor_source,
}
use rust_doctor.Policy.Levels.{RuleLevel, off, warn, error}
use rust_doctor.PathGlob.{PathGlob, matches}
use rust_doctor.Exclusion.Distance.{edit_distance}

pub data SuppressionStatus : Type 0 where
  applied unused missing_reason use_expect unknown_rule : SuppressionStatus

pub record SuppressionReport : Type 0 where
  pub path : Text
  pub line : ℕ
  pub rules : List Text
  pub status : SuppressionStatus
  pub help : Option Text
  pub hint : Option Text

pub record Directive : Type 0 where
  pub path : Text
  pub line : ℕ
  pub rules : List Text
  pub has_reason : Bool
  pub key : Option Text

-- `canonical_severity`.
unfoldable pub canonical_severity : RuleLevel → Severity
canonical_severity warn = Severity.warning
canonical_severity error = Severity.error
canonical_severity off = Severity.unknown

-- What the policy plan answers: the globs of ignored paths, and the level of a rule on a path.
pub record Plan : Type 0 where
  pub ignore : List PathGlob
  pub path_level : Text → Text → Option RuleLevel

pub record ScanExclusions : Type 0 where
  pub generated : Set Text
  pub packages : Option (Set Text)
  pub directives : List Directive

unfoldable pub is_ignored : Plan → Text → Bool
unfolding matches
is_ignored plan path = any (λ glob. matches glob path) plan.ignore

abbrev pub path_is : (Text → Bool) → Diagnostic → Bool
path_is excluded diagnostic = elim diagnostic.path [ none ↦ false | some path ↦ excluded path ]

-- `remove`: what is left, and how many findings went.
unfoldable pub remove : List Diagnostic → (Text → Bool) → List Diagnostic × ℕ
remove diagnostics excluded =
    let left = retain (λ d. not (path_is excluded d)) diagnostics in
    (left, length diagnostics - length left)

abbrev pub starts_with : Text → Text → Bool
starts_with [] text = true
starts_with (c ∷ cs) [] = false
starts_with (c ∷ cs) (t ∷ ts) = c == t && starts_with cs ts

abbrev pub precedes : Text → Text → Bool
precedes a b = elim (cmp_list a b) [ lt ↦ true | eq ↦ false | gt ↦ false ]

abbrev pub holds : Text → List Text → Bool
holds text texts = any (λ t. same t text) texts

-- `Iterator::min` of the pairs, by distance and then by id; of equal ones the first.
abbrev pub least : Option (ℕ × Text) → List (ℕ × Text) → Option (ℕ × Text)
least best [] = best
least none (x ∷ xs) = least (some x) xs
least (some b) (x ∷ xs) =
    if ltb x.0 b.0 || x.0 == b.0 && precedes x.1 b.1 then least (some x) xs else least (some b) xs

unfoldable pub closest : List Text → Text → Option Text
unfolding edit_distance
closest catalogue rule =
    elim (least none
      (retain (λ pair. leb pair.0 3) (map (λ id. (edit_distance rule id, id)) catalogue))) [
        | none ↦ none
        | some pair ↦ some pair.1
      ]

unfoldable pub covers : Directive → Diagnostic → Map Text Text → Bool
unfolding get
covers directive diagnostic dependency_keys =
    let on_line : Bool = elim diagnostic.span [
      | none ↦ false
      | some span ↦ span.line_start == directive.line || span.line_start == directive.line + 1
    ] in
    let by_key = is_some directive.key && same (get diagnostic.id dependency_keys) directive.key in
    same diagnostic.source rust_doctor_source
    && same diagnostic.path (some directive.path)
    && (elim diagnostic.code [ none ↦ false | some code ↦ holds code directive.rules ])
    && (on_line || by_key)

unfoldable pub report_of :
    Directive → SuppressionStatus → Option Text → Option Text → SuppressionReport
report_of directive status help hint = record {
  path = directive.path;
  line = directive.line;
  rules = directive.rules;
  status = status;
  help = help;
  hint = hint;
}

-- `suppress`: the findings that are left, and the report.
unfoldable pub suppress :
    List Text → List Diagnostic → Directive → Map Text Text → List Diagnostic × SuppressionReport
unfolding covers closest report_of
suppress catalogue diagnostics directive dependency_keys =
    let lint = find (starts_with (codes "clippy::")) directive.rules in
    let stranger =
      find (λ rule. not (starts_with (codes "rust_doctor::") rule) || not (holds rule catalogue))
        directive.rules in
    let left = retain (λ d. not (covers directive d dependency_keys)) diagnostics in
    if not directive.has_reason
    then (diagnostics, report_of directive missing_reason none none)
    else elim lint [
      | some clippy ↦ (diagnostics, report_of directive use_expect (some clippy) none)
      | none ↦ elim stranger [
        | some rule ↦ (diagnostics, report_of directive unknown_rule none (closest catalogue rule))
        | none ↦ (
          left,
          report_of directive (if ltb (length left) (length diagnostics) then applied else unused)
              none none,
        )
      ]
    ]

unfoldable pub suppress_all :
    List Text
    → List Diagnostic
    → List Directive
    → Map Text Text
    → List Diagnostic × List SuppressionReport
unfolding suppress
suppress_all catalogue diagnostics [] dependency_keys = (diagnostics, [])
suppress_all catalogue diagnostics (directive ∷ directives) dependency_keys =
    let (left, report) = suppress catalogue diagnostics directive dependency_keys in
    let (final, reports) = suppress_all catalogue left directives dependency_keys in
    (final, report ∷ reports)

-- One round of `apply_overrides`: nothing when the finding goes.
unfoldable pub at_level : Diagnostic → Option RuleLevel → Option Diagnostic
unfolding canonical_severity
at_level diagnostic none = some diagnostic
at_level diagnostic (some off) = none
at_level diagnostic (some warn) = some (record diagnostic { severity = canonical_severity warn })
at_level diagnostic (some RuleLevel.error) =
    some (record diagnostic { severity = canonical_severity RuleLevel.error })

unfoldable pub override : Plan → Diagnostic → Option Diagnostic
unfolding at_level
override plan diagnostic =
    at_level diagnostic
      (and_then diagnostic.code (λ code. and_then diagnostic.path (plan.path_level code)))

unfoldable pub apply_overrides : List Diagnostic → Plan → List Diagnostic
unfolding override
apply_overrides diagnostics plan = filter_map (override plan) diagnostics

pub record Exclusion : Type 0 where
  pub ignored : ℕ
  pub excluded_generated : ℕ
  pub suppressions : List SuppressionReport

unfoldable pub select_packages : Option (Set Text) → List Diagnostic → List Diagnostic
unfolding contains
select_packages none diagnostics = diagnostics
select_packages (some selected) diagnostics =
    retain (λ d. elim d.owner [ none ↦ true | some name ↦ contains name selected ]) diagnostics

abbrev pub active_directives : Plan → ScanExclusions → List Directive
active_directives plan exclusions =
    retain (λ d. not (is_ignored plan d.path) && not (contains d.path exclusions.generated))
      exclusions.directives

unfoldable pub apply :
    List Text
    → List Diagnostic
    → Plan
    → ScanExclusions
    → Map Text Text
    → List Diagnostic × Exclusion
unfolding remove is_ignored select_packages suppress_all apply_overrides
apply catalogue diagnostics plan exclusions dependency_keys =
    let (kept, ignored) = remove diagnostics (is_ignored plan) in
    let (written, excluded_generated) = remove kept (λ path. contains path exclusions.generated) in
    let selected = select_packages exclusions.packages written in
    let directives = active_directives plan exclusions in
    let (left, suppressions) = suppress_all catalogue selected directives dependency_keys in
    (
      apply_overrides left plan,
      record {
        ignored = ignored;
        excluded_generated = excluded_generated;
        suppressions = suppressions;
      },
    )
