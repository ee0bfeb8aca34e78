-- ===== src/Tui/Entries/Once.antt =====
-- tui/model.rs: how often a row stands in the list.
use rust_doctor.Prelude.{
  ℕ, suc, ◌+◌, ◌≡◌, refl, Bool, true, false, ◌&&◌, List, [], ◌∷◌, ◌++◌, map, arith, length, ltb,
  leb, ◌==◌, if◌then◌else◌,
}
use rust_doctor.Report.{Text}
use rust_doctor.Audit.Model.{
  AuditCategoryName, security, bugs, performance, dependencies, maintainability, other,
  category_ord,
}
use rust_doctor.Tui.Entries.{
  Row, Entry, header, item, matching, section, in_category, sections, build_entries, category_label,
}

abbrev pub one : Bool → ℕ
one true = 1
one false = 0

-- How many entries are the row of an index.
abbrev pub times : ℕ → List Entry → ℕ
times i [] = 0
times i (header label ∷ es) = times i es
times i (item j ∷ es) = one (i == j) + times i es

abbrev found : ℕ → List ℕ → ℕ
found i [] = 0
found i (j ∷ js) = one (i == j) + found i js

times-append : (i : ℕ) (es fs : List Entry) → times i (es ++ fs) ≡ times i es + times i fs
times-append i [] fs = omega arith
times-append i (header l ∷ es) fs = times-append i es fs
times-append i (item j ∷ es) fs = omega (arith, times-append i es fs)

times-items : (i : ℕ) (js : List ℕ) → times i (map item js) ≡ found i js
times-items i [] = refl
times-items i (j ∷ js) = omega (arith, times-items i js)

times-section : (i : ℕ) (label : Text) (js : List ℕ) → times i (section label js) ≡ found i js
unfolding section
times-section i label [] = refl
times-section i label (j ∷ js) = times-items i (j ∷ js)

abbrev hits : ℕ → (Row → Bool) → ℕ → List Row → ℕ
hits i belongs start rows = found i (matching belongs start rows)

-- Of the seven tests one holds.
one_section :
    (row : Row)
    → one (in_category security row)
        + one (in_category bugs row)
        + one (in_category performance row)
        + one (in_category dependencies row)
        + one (in_category maintainability row)
        + one (in_category other row)
        + one row.note
      ≡ 1
one_section row = ground arith

hits-cons :
    (i : ℕ) (belongs : Row → Bool) (start : ℕ) (row : Row) (rows : List Row)
    → hits i belongs start (row ∷ rows)
      ≡ (if i == start then one (belongs row) else 0) + hits i belongs (suc start) rows
unfolding matching
hits-cons i belongs start row rows = ground arith

abbrev total : ℕ → ℕ → List Row → ℕ
total i start rows =
    hits i (in_category security) start rows
    + hits i (in_category bugs) start rows
    + hits i (in_category performance) start rows
    + hits i (in_category dependencies) start rows
    + hits i (in_category maintainability) start rows
    + hits i (in_category other) start rows
    + hits i (λ r. r.note) start rows

total-cons :
    (i start : ℕ) (row : Row) (rows : List Row)
    → total i start (row ∷ rows) ≡ one (i == start) + total i (suc start) rows
total-cons i start row rows = ground (
  arith,
  one_section row,
  hits-cons i (in_category security) start row rows,
  hits-cons i (in_category bugs) start row rows,
  hits-cons i (in_category performance) start row rows,
  hits-cons i (in_category dependencies) start row rows,
  hits-cons i (in_category maintainability) start row rows,
  hits-cons i (in_category other) start row rows,
  hits-cons i (λ (r : Row). r.note) start row rows,
)

total_lem :
    (i start : ℕ) (rows : List Row)
    → total i start rows ≡ one (leb start i && ltb i (start + length rows))
unfolding matching
total_lem i start [] = ground arith
total_lem i start (row ∷ rows) =
    ground (arith, total-cons i start row rows, total_lem i (suc start) rows)

times-sections :
    (i : ℕ) (rows : List Row) (c : AuditCategoryName) (cs : List AuditCategoryName)
    → times i (sections (c ∷ cs) rows) ≡ hits i (in_category c) 0 rows + times i (sections cs rows)
unfolding sections
times-sections i rows c cs =
    rw (times-append, times-section i (category_label c) (matching (in_category c) 0 rows)) refl

-- The list has the index of a row once, and no index that is not that of a row.
pub build_entries_once :
    (notes_heading : Text) (rows : List Row) (i : ℕ)
    → times i (build_entries notes_heading rows) ≡ one (ltb i (length rows))
unfolding build_entries
build_entries_once notes_heading rows i =
    let step = times-sections i rows in
    rw
      (
        times-append,
        step security,
        step bugs,
        step performance,
        step dependencies,
        step maintainability,
        step other,
        times-section i notes_heading (matching (λ r. r.note) 0 rows),
      )
      (ground (arith, total_lem i 0 rows))
