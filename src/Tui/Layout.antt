-- ===== src/Tui/Layout.antt =====
-- tui/model.rs and tui.rs: the rows and columns of the view, and the first row of its list.
pub mod Fits
use rust_doctor.Prelude.{
  ℕ, suc, ◌+◌, ◌-◌, ◌*◌, ◌/◌, Bool, true, false, not, ◌&&◌, ◌||◌, min, max, ltb, leb, ◌==◌,
  if◌then◌else◌,
}

abbrev pub padding_columns : ℕ
padding_columns = 2

abbrev pub detail_rows : ℕ
detail_rows = 15

abbrev pub status_rows : ℕ
status_rows = 3

abbrev pub divider_rows : ℕ
divider_rows = 1

abbrev pub list_margin_rows : ℕ
list_margin_rows = 1

abbrev pub min_list_rows : ℕ
min_list_rows = 3

abbrev pub stacked_max_list_rows : ℕ
stacked_max_list_rows = 16

abbrev pub viewport_margin_rows : ℕ
viewport_margin_rows = 1

abbrev pub score_header_rows : ℕ
score_header_rows = 4

abbrev pub compact_status_rows : ℕ
compact_status_rows = 1

abbrev pub compact_max_rows : ℕ
compact_max_rows = list_margin_rows + divider_rows + status_rows + detail_rows + min_list_rows

abbrev pub wide_min_columns : ℕ
wide_min_columns = 120

abbrev pub wide_min_rows : ℕ
wide_min_rows = 22

abbrev pub gutter_columns : ℕ
gutter_columns = 3

abbrev pub min_column_width : ℕ
min_column_width = 20

abbrev pub stacked_fixed_rows : ℕ
stacked_fixed_rows = score_header_rows + list_margin_rows + divider_rows + status_rows

pub data Arrangement : Type 0 where
  compact split stacked : Arrangement

pub record Layout : Type 0 where
  pub arrangement : Arrangement
  pub width : ℕ
  pub list_column_width : ℕ
  pub detail_column_width : ℕ
  pub list_height : ℕ
  pub detail_height : ℕ
  pub shows_viewer_score_header : Bool
  pub score_header_width : ℕ
  pub frame_width : ℕ

-- The `let` bindings of `resolve_layout`.
abbrev pub is_wide : ℕ → ℕ → Bool
is_wide columns rows = leb wide_min_columns columns && leb wide_min_rows rows

abbrev pub is_compact : ℕ → ℕ → Bool
is_compact columns rows = not (is_wide columns rows) && leb rows compact_max_rows

abbrev pub shows_header : ℕ → ℕ → Bool
shows_header columns rows =
    not (is_compact columns rows)
    || leb (score_header_rows + compact_status_rows + min_list_rows) (rows - viewport_margin_rows)

unfoldable pub detail_height_of : ℕ → ℕ → ℕ
detail_height_of columns rows =
    let report_rows = rows - viewport_margin_rows in
    if is_wide columns rows
    then report_rows - status_rows
    else min detail_rows (report_rows - stacked_fixed_rows - min_list_rows)

unfoldable pub available_height : ℕ → ℕ → ℕ → ℕ
available_height columns rows detail_height =
    if is_wide columns rows
    then max (detail_height - score_header_rows - list_margin_rows) min_list_rows
    else max (rows - viewport_margin_rows - stacked_fixed_rows - detail_height) min_list_rows

unfoldable pub list_height_of : ℕ → ℕ → ℕ → ℕ → ℕ
list_height_of columns rows entry_count available =
    let header_rows : ℕ = if shows_header columns rows then score_header_rows else 0 in
    if is_compact columns rows
    then min entry_count
        (max (rows - viewport_margin_rows - compact_status_rows - header_rows) min_list_rows)
    else if is_wide columns rows
    then available
    else min (min entry_count stacked_max_list_rows) available

unfoldable pub resolve_layout : ℕ → ℕ → ℕ → Layout
unfolding detail_height_of available_height list_height_of
resolve_layout columns rows entry_count =
    let width = max (columns - padding_columns) 1 in
    let detail_height = detail_height_of columns rows in
    let detail_column_width = max (width * 3 / 5) min_column_width in
    let list_column_width = max (width - detail_column_width - gutter_columns) min_column_width in
    record {
      arrangement =
          if is_compact columns rows
          then compact
          else if is_wide columns rows
          then split
          else stacked;
      width = width;
      list_column_width = list_column_width;
      detail_column_width = detail_column_width;
      list_height =
          list_height_of columns rows entry_count (available_height columns rows detail_height);
      detail_height = detail_height;
      shows_viewer_score_header = shows_header columns rows;
      score_header_width =
          if not (is_compact columns rows) && is_wide columns rows
          then list_column_width
          else columns;
      frame_width = max (columns - 1) 1;
    }

unfoldable pub visible_start : ℕ → ℕ → ℕ → ℕ → ℕ
visible_start item_count offset selected height =
    let bounded = min offset (item_count - height) in
    if height == 0
    then 0
    else if ltb selected bounded
    then selected
    else if leb (bounded + height) selected
    then suc (selected - height)
    else bounded
