-- ===== src/Audit/Categories.antt =====
-- audit.rs, `category_tallies`: the findings counted by category.
use rust_doctor.Prelude.{List, [], ◌∷◌, if◌then◌else◌, list_ord, nat_ord}
use rust_doctor.BTree.{Map, entry, values}
use rust_doctor.Report.{Diagnostic, weighs}
use rust_doctor.Audit.Counts.{SeverityCounts, no_counts, add}
use rust_doctor.Audit.Model.{AuditCategoryName, category_ord, reason_ord, category_bucket}

pub record AuditCategory : Type 0 where
  pub name : AuditCategoryName
  pub distinct : SeverityCounts
  pub occurrences : SeverityCounts
  pub production : SeverityCounts

-- `AuditCategory::empty`.
abbrev pub empty_category : AuditCategoryName → AuditCategory
empty_category name = record {
  name = name;
  distinct = no_counts;
  occurrences = no_counts;
  production = no_counts;
}

unfoldable pub tally : Diagnostic → AuditCategory → AuditCategory
unfolding weighs add
tally diagnostic c = record c {
  distinct = add diagnostic.severity 1 c.distinct;
  occurrences = add diagnostic.severity diagnostic.occurrences c.occurrences;
  production =
      if weighs diagnostic
      then add diagnostic.severity diagnostic.occurrences c.production
      else c.production;
}

-- The loop of `category_tallies`.
unfoldable pub tally_all :
    List Diagnostic → Map AuditCategoryName AuditCategory → Map AuditCategoryName AuditCategory
unfolding tally category_bucket
tally_all [] tallies = tallies
tally_all (diagnostic ∷ rest) tallies =
    let name = category_bucket diagnostic.category in
    tally_all rest (entry name (empty_category name) (tally diagnostic) tallies)

unfoldable pub category_tallies : List Diagnostic → List AuditCategory
unfolding tally_all
category_tallies diagnostics = values (tally_all diagnostics [])
