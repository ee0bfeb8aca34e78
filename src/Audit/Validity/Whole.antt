-- ===== src/Audit/Validity/Whole.antt =====
-- audit.rs and audit/packages.rs: builds and rebuilds against `Audit::is_valid`.
use rust_doctor.Prelude.{
  ℕ, ◌≡◌, refl, Bool, true, false, not, ◌&&◌, none, List, [], ◌∷◌, map, arith, all, length,
  if◌then◌else◌, is_empty, is_none, Every, Bool-cases, inl, inr, unwrap_or, list_ord, nat_ord,
}
use rust_doctor.BTree.{Map, Set, get}
use rust_doctor.Report.{Text, Diagnostic, Status}
use rust_doctor.Audit.Model.{ScoreReason}
use rust_doctor.Audit.Float.{Float, IsOrdered}
use rust_doctor.Audit.Aggregate.{Catalog, aggregate_rules}
use rust_doctor.Audit.Build.{
  SourceFileInventory, PackageAudit, Audit, reasons_of, owned_by, withhold_when_nothing_was_linted,
  build_with_inventory, score_package, score_packages, rescore, build_from_inventory,
  rebuild_for_scope, inventory, is_valid_package, is_valid,
}
use rust_doctor.Audit.Validity.Valid.{score-is_valid}
use rust_doctor.Audit.Validity.Tallied.{Occurs, category_tallies-are_valid}

-- Withholding the score of a valid audit leaves it valid.
withheld-is_valid : (a : Audit) → is_valid a ≡ true → is_valid (record a { score = none }) ≡ true
unfolding is_valid
withheld-is_valid a h = ground arith

nothing_linted-is_valid :
    (a : Audit) → is_valid a ≡ true → is_valid (withhold_when_nothing_was_linted a) ≡ true
unfolding withhold_when_nothing_was_linted
nothing_linted-is_valid a h =
    elim (Bool-cases (not (is_empty a.packages) && all (λ p. p.unlinted) a.packages)) [
      | inl e ↦ rw e (withheld-is_valid a h)
      | inr e ↦ rw e h
    ]

if_withheld-is_valid :
    (b : Bool) (a : Audit)
    → is_valid a ≡ true
    → is_valid (if b then record a { score = none } else a) ≡ true
if_withheld-is_valid true a h = withheld-is_valid a h
if_withheld-is_valid false a h = h

abbrev inventory_of : Audit → SourceFileInventory
inventory_of a = record {
  files = a.source_files;
  production_lines = a.production_lines;
  complete = a.inventory_is_complete;
}

module _ (f : Float) (o : IsOrdered f) (catalog : Catalog) where
  package-is_valid :
      (owned : Map Text (List Diagnostic)) (unlinted : Set Text) (status : Status)
      (reasons : Set ScoreReason) (member : Text × SourceFileInventory)
      → is_valid_package (score_package f catalog owned unlinted status reasons member) ≡ true
  unfolding score_package is_valid_package build_with_inventory
  package-is_valid owned unlinted status reasons (name, held) = ground (
    arith,
    score-is_valid f o catalog held.production_lines 1 (unwrap_or (get name owned) []) (
        reasons_of
          (aggregate_rules f catalog held.production_lines 1 (unwrap_or (get name owned) [])).voided
          status reasons held.complete),
  )

  packages-are_valid :
      (owned : Map Text (List Diagnostic)) (unlinted : Set Text) (status : Status)
      (reasons : Set ScoreReason) (members : List (Text × SourceFileInventory))
      → all is_valid_package (map (score_package f catalog owned unlinted status reasons) members)
        ≡ true
  packages-are_valid owned unlinted status reasons [] = refl
  packages-are_valid owned unlinted status reasons (m ∷ ms) =
      rw
        (
          package-is_valid owned unlinted status reasons m,
          packages-are_valid owned unlinted status reasons ms,
        )
        refl

  score_packages-are_valid :
      (members : List (Text × SourceFileInventory)) (unlinted : Set Text) (status : Status)
      (reasons : Set ScoreReason) (ds : List Diagnostic)
      → all is_valid_package (score_packages f catalog members unlinted status reasons ds) ≡ true
  unfolding score_packages
  score_packages-are_valid members unlinted status reasons ds =
      packages-are_valid (owned_by ds []) unlinted status reasons members

  rescore-are_valid :
      (packages : List PackageAudit) (status : Status) (reasons : Set ScoreReason)
      (ds : List Diagnostic)
      → all is_valid_package (rescore f catalog packages status reasons ds) ≡ true
  unfolding rescore
  rescore-are_valid packages status reasons ds =
      score_packages-are_valid (map (λ p. (p.name, inventory p)) packages) _ status reasons ds

  -- An audit whose packages are valid, before the withholding.
  with_packages-is_valid :
      (held : SourceFileInventory) (members : ℕ) (status : Status) (reasons : Set ScoreReason)
      (ds : List Diagnostic) (packages : List PackageAudit)
      → Every Occurs ds
      → all is_valid_package packages ≡ true
      → is_valid (record (build_with_inventory f catalog held members status reasons ds) {
        packages = packages;
      })
        ≡ true
  unfolding is_valid build_with_inventory
  with_packages-is_valid held members status reasons ds packages h k =
      rw (category_tallies-are_valid ds h, k)
        (ground (
          arith,
          score-is_valid f o catalog held.production_lines members ds (
              reasons_of (aggregate_rules f catalog held.production_lines members ds).voided status
                reasons held.complete),
        ))

  -- For every scale of floats that meets the order laws, every rule catalogue, inventory, members,
  -- unlinted packages, status and stage reasons, the audit built from findings that each occur at
  -- least once passes `Audit::is_valid`.
  pub build-is_valid :
      (held : SourceFileInventory) (members : List (Text × SourceFileInventory))
      (unlinted : Set Text) (status : Status) (reasons : Set ScoreReason) (ds : List Diagnostic)
      → Every Occurs ds
      → is_valid (build_from_inventory f catalog held members unlinted status reasons ds) ≡ true
  unfolding build_from_inventory build_with_inventory
  build-is_valid held members unlinted status reasons ds h = nothing_linted-is_valid _ (
      with_packages-is_valid held (length members) status reasons ds
        (score_packages f catalog members unlinted status reasons ds) h
        (score_packages-are_valid members unlinted status reasons ds))

  -- For every scale of floats that meets the order laws and every rule catalogue, the audit rebuilt
  -- from any audit, a status and findings that each occur at least once passes `Audit::is_valid`.
  pub rebuild-is_valid :
      (a : Audit) (status : Status) (ds : List Diagnostic)
      → Every Occurs ds
      → is_valid (rebuild_for_scope f catalog a status ds) ≡ true
  unfolding rebuild_for_scope
  rebuild-is_valid a status ds h = if_withheld-is_valid (is_none a.score) _ (
      nothing_linted-is_valid _ (
        with_packages-is_valid (inventory_of a) (length a.packages) status a.stage_reasons ds
          (rescore f catalog a.packages status a.stage_reasons ds) h
          (rescore-are_valid a.packages status a.stage_reasons ds)))
