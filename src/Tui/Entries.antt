-- ===== src/Tui/Entries.antt =====
-- tui/model.rs, `build_entries`: the list of the view. Of a row the category and the note flag are kept,
-- as only they are read here and by the keys; a payload that is copied is an answer of the outside.
pub mod Once
use rust_doctor.Prelude.{
  ℕ, zero, suc, Bool, true, false, not, ◌&&◌, Option, none, some, List, [], ◌∷◌, ◌++◌, map,
  if◌then◌else◌, same,
}
use rust_doctor.Report.{Text, codes}
use rust_doctor.Audit.Model.{
  AuditCategoryName, security, bugs, performance, dependencies, maintainability, other,
  category_ord,
}

pub record Row : Type 0 where
  pub category : AuditCategoryName
  pub note : Bool

pub data Entry : Type 0 where
  header : Text → Entry
  item : ℕ → Entry

unfoldable pub row_index : Entry → Option ℕ
row_index (header label) = none
row_index (item index) = some index

abbrev pub order : List AuditCategoryName
order = security ∷ bugs ∷ performance ∷ dependencies ∷ maintainability ∷ other ∷ []

-- `AuditCategoryName::as_str`.
unfoldable pub category_label : AuditCategoryName → Text
category_label security = codes "Security"
category_label bugs = codes "Bugs"
category_label performance = codes "Performance"
category_label dependencies = codes "Dependencies"
category_label maintainability = codes "Maintainability"
category_label other = codes "Other"

-- The enumerated rows that belong to a section.
unfoldable pub matching : (Row → Bool) → ℕ → List Row → List ℕ
matching belongs index [] = []
matching belongs index (row ∷ rows) =
    let rest = matching belongs (suc index) rows in if belongs row then index ∷ rest else rest

-- The closure `section`.
unfoldable pub section : Text → List ℕ → List Entry
section label [] = []
section label (index ∷ indices) = header label ∷ map item (index ∷ indices)

abbrev pub in_category : AuditCategoryName → Row → Bool
in_category category row = not row.note && same row.category category

unfoldable pub sections : List AuditCategoryName → List Row → List Entry
unfolding section matching
sections [] rows = []
sections (category ∷ categories) rows =
    section (category_label category) (matching (in_category category) 0 rows)
    ++ sections categories rows

-- `build_entries`, with the heading of compiler notes.
unfoldable pub build_entries : Text → List Row → List Entry
unfolding sections section matching
build_entries notes_heading rows =
    sections order rows ++ section notes_heading (matching (λ row. row.note) 0 rows)
