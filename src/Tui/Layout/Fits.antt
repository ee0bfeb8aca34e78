-- ===== src/Tui/Layout/Fits.antt =====
-- tui/model.rs and tui.rs: layouts against the size of the terminal, and the selected row against the
-- rows that show.
use rust_doctor.Prelude.{ℕ, ◌+◌, ◌≤◌, ◌<◌, ◌≡◌, arith}
use rust_doctor.Tui.Layout.{
  split, stacked, resolve_layout, visible_start, score_header_rows, status_rows, divider_rows,
  list_margin_rows, gutter_columns, detail_height_of, available_height, list_height_of,
}

-- The rows of the list that show hold the selected one.
pub visible_start_shows :
    (item_count offset selected height : ℕ)
    → selected < item_count
    → 0 < height
    → (visible_start item_count offset selected height ≤ selected)
      × (selected < visible_start item_count offset selected height + height)
      × (visible_start item_count offset selected height < item_count)
unfolding visible_start
visible_start_shows item_count offset selected height h k = ground arith

-- Stacked parts fit.
stacked_fits :
    (columns rows entry_count : ℕ)
    → (resolve_layout columns rows entry_count).arrangement ≡ stacked
    → score_header_rows
        + list_margin_rows
        + divider_rows
        + status_rows
        + (resolve_layout columns rows entry_count).detail_height
        + (resolve_layout columns rows entry_count).list_height
      < rows
unfolding resolve_layout detail_height_of available_height list_height_of
stacked_fits columns rows entry_count h = ground arith

-- In the split layout the two columns and their gutter are narrower than the terminal, the list
-- with its header is no higher than the detail, and the detail with the status is lower than the
-- terminal.
split_fits :
    (columns rows entry_count : ℕ)
    → (resolve_layout columns rows entry_count).arrangement ≡ split
    → ((resolve_layout columns rows entry_count).list_column_width
          + gutter_columns
          + (resolve_layout columns rows entry_count).detail_column_width
        < columns)
      × (score_header_rows
            + list_margin_rows
            + (resolve_layout columns rows entry_count).list_height
          ≤ (resolve_layout columns rows entry_count).detail_height)
      × ((resolve_layout columns rows entry_count).detail_height + status_rows < rows)
unfolding resolve_layout detail_height_of available_height list_height_of
split_fits columns rows entry_count h = ground arith
