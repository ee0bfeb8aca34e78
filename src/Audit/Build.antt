-- ===== src/Audit/Build.antt =====
-- audit.rs and audit/packages.rs: the audit of a workspace and of its packages, built, rebuilt for a
-- narrower scope, and tested before it is serialised.
use rust_doctor.Prelude.{
  ℕ, Bool, true, false, not, ◌&&◌, ◌||◌, Option, none, some, List, [], ◌∷◌, ◌++◌, map, ltb, all,
  retain, if◌then◌else◌, is_empty, is_some, is_none, length, unwrap_or, Ord, list_ord, nat_ord,
}
use Prim.Native.Nat.Ordering.{lt, eq, gt}
use rust_doctor.BTree.{Map, get, entry, Set, contains, insert, insert_all}
use rust_doctor.Report.{Text, Diagnostic, Status}
use rust_doctor.Audit.Counts.{is_coherent, covers}
use rust_doctor.Audit.Model.{
  AuditCategoryName, category_ord, ScoreReason, reason_ord, stage_failed, scan_incomplete,
  is_scorable_workspace,
}
use rust_doctor.Audit.Float.{Float}
use rust_doctor.Audit.Categories.{AuditCategory, category_tallies}
use rust_doctor.Audit.Aggregate.{Catalog, aggregate_rules}
use rust_doctor.Audit.Score.{AuditScore, score, same_bool, is_valid_score}

pub record SourceFileInventory : Type 0 where
  pub files : ℕ
  pub production_lines : ℕ
  pub complete : Bool

pub record PackageAudit : Type 0 where
  pub name : Text
  pub source_files : ℕ
  pub production_lines : ℕ
  pub score : Option AuditScore
  pub unlinted : Bool
  pub inventory_is_complete : Bool

pub record Audit : Type 0 where
  pub source_files : ℕ
  pub production_lines : ℕ
  pub categories : List AuditCategory
  pub score : Option AuditScore
  pub inventory_is_complete : Bool
  pub stage_reasons : Set ScoreReason
  pub packages : List PackageAudit

abbrev pub is_complete : Status → Bool
is_complete Status.complete = true
is_complete _ = false

abbrev pub is_failed : Status → Bool
is_failed Status.failed = true
is_failed _ = false

-- The reasons that a build adds to those of its findings and of its stages.
unfoldable pub reasons_of : Set ScoreReason → Status → Set ScoreReason → Bool → Set ScoreReason
reasons_of voided status stage_reasons inventory_is_complete =
    let reasons = insert_all stage_reasons voided in
    if is_failed status
    then insert stage_failed reasons
    else if is_empty stage_reasons && (not (is_complete status) || not inventory_is_complete)
    then insert scan_incomplete reasons
    else reasons

unfoldable pub inventory : PackageAudit → SourceFileInventory
inventory package_audit = record {
  files = package_audit.source_files;
  production_lines = package_audit.production_lines;
  complete = package_audit.inventory_is_complete;
}

-- The findings of each package.
unfoldable pub owned_by : List Diagnostic → Map Text (List Diagnostic) → Map Text (List Diagnostic)
owned_by [] owned = owned
owned_by (diagnostic ∷ rest) owned = owned_by rest (elim diagnostic.owner [
  | none ↦ owned
  | some name ↦ entry name [] (λ held. held ++ diagnostic ∷ []) owned
])

-- `Option::filter`.
abbrev pub keep_if {ℓ} : {A : Type ℓ} → Bool → Option A → Option A
keep_if test none = none
keep_if test (some a) = if test then some a else none

unfoldable pub withhold : Audit → Audit
withhold audit = record audit { score = none }

unfoldable pub withhold_when_nothing_was_linted : Audit → Audit
withhold_when_nothing_was_linted audit =
    if not (is_empty audit.packages) && all (λ p. p.unlinted) audit.packages
    then record audit { score = none }
    else audit

module _ (f : Float) (catalog : Catalog) where
  unfoldable pub build_with_inventory :
      SourceFileInventory → ℕ → Status → Set ScoreReason → List Diagnostic → Audit
  unfolding category_tallies aggregate_rules reasons_of is_scorable_workspace
  build_with_inventory inventory members status stage_reasons diagnostics =
      let aggregation = aggregate_rules f catalog inventory.production_lines members diagnostics in
      let reasons = reasons_of aggregation.voided status stage_reasons inventory.complete in
      record {
        source_files = inventory.files;
        production_lines = inventory.production_lines;
        categories = category_tallies diagnostics;
        score =
            if is_scorable_workspace inventory.files inventory.production_lines
            then some (score f aggregation reasons)
            else none;
        inventory_is_complete = inventory.complete;
        stage_reasons = stage_reasons;
        packages = [];
      }

  -- `packages::score`, for one member and for all.
  unfoldable pub score_package :
      Map Text (List Diagnostic)
      → Set Text
      → Status
      → Set ScoreReason
      → Text × SourceFileInventory
      → PackageAudit
  unfolding build_with_inventory
  score_package owned unlinted status reasons (name, held) =
      let own = unwrap_or (get name owned) [] in
      let audit = build_with_inventory held 1 status reasons own in
      let is_unlinted = contains name unlinted in
      record {
        name = name;
        source_files = held.files;
        production_lines = held.production_lines;
        score = keep_if (not is_unlinted) audit.score;
        unlinted = is_unlinted;
        inventory_is_complete = held.complete;
      }

  unfoldable pub score_packages :
      List (Text × SourceFileInventory)
      → Set Text
      → Status
      → Set ScoreReason
      → List Diagnostic
      → List PackageAudit
  unfolding score_package owned_by
  score_packages members unlinted status reasons diagnostics =
      map (score_package (owned_by diagnostics []) unlinted status reasons) members

  unfoldable pub rescore :
      List PackageAudit → Status → Set ScoreReason → List Diagnostic → List PackageAudit
  unfolding score_packages inventory
  rescore packages status reasons diagnostics =
      score_packages (map (λ p. (p.name, inventory p)) packages)
        (insert_all (map (λ p. p.name) (retain (λ p. p.unlinted) packages)) []) status reasons
        diagnostics

  unfoldable pub build_from_inventory :
      SourceFileInventory
      → List (Text × SourceFileInventory)
      → Set Text
      → Status
      → Set ScoreReason
      → List Diagnostic
      → Audit
  unfolding build_with_inventory score_packages withhold_when_nothing_was_linted
  build_from_inventory inventory members unlinted status stage_reasons diagnostics =
      let audit =
        build_with_inventory inventory (length members) status stage_reasons diagnostics in
      withhold_when_nothing_was_linted (record audit {
        packages = score_packages members unlinted status audit.stage_reasons diagnostics;
      })

  unfoldable pub rebuild_for_scope : Audit → Status → List Diagnostic → Audit
  unfolding build_with_inventory rescore withhold_when_nothing_was_linted
  rebuild_for_scope audit status diagnostics =
      let rebuilt =
        build_with_inventory
          (record {
            files = audit.source_files;
            production_lines = audit.production_lines;
            complete = audit.inventory_is_complete;
          })
          (length audit.packages) status audit.stage_reasons diagnostics in
      let withheld = withhold_when_nothing_was_linted (record rebuilt {
        packages = rescore audit.packages status audit.stage_reasons diagnostics;
      }) in
      if is_none audit.score then record withheld { score = none } else withheld

-- `AuditCategory::is_valid`.
unfoldable pub is_valid_category : AuditCategory → Bool
unfolding is_coherent covers
is_valid_category c =
    ltb 0 c.distinct.total
    && is_coherent c.distinct
    && is_coherent c.occurrences
    && covers c.occurrences c.distinct
    && is_coherent c.production
    && covers c.occurrences c.production

abbrev pub score_holds : Option AuditScore → Bool
score_holds none = true
score_holds (some s) = is_valid_score s

unfoldable pub is_valid_package : PackageAudit → Bool
unfolding is_scorable_workspace is_valid_score
is_valid_package p =
    same_bool (is_scorable_workspace p.source_files p.production_lines && not p.unlinted)
      (is_some p.score)
    && score_holds p.score

-- `previous.is_none_or(|previous| previous < name)`.
abbrev pub follows {ℓ} : {K : Type ℓ} ⦃o : Ord K⦄ → Option K → K → Bool
follows none name = true
follows ⦃o⦄ (some previous) name = elim (o.cmp previous name) [
  | lt ↦ true
  | eq ↦ false
  | gt ↦ false
]

-- The walk over the categories of `Audit::is_valid`, with the name before.
unfoldable pub categories_are_valid : Option AuditCategoryName → List AuditCategory → Bool
unfolding is_valid_category
categories_are_valid previous [] = true
categories_are_valid previous (c ∷ cs) =
    follows previous c.name && is_valid_category c && categories_are_valid (some c.name) cs

unfoldable pub is_valid : Audit → Bool
unfolding categories_are_valid is_valid_package is_scorable_workspace is_valid_score
is_valid audit =
    categories_are_valid none audit.categories
    && (is_none audit.score || is_scorable_workspace audit.source_files audit.production_lines)
    && score_holds audit.score
    && all is_valid_package audit.packages
