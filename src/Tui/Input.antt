-- ===== src/Tui/Input.antt =====
-- tui/input.rs: what a key does in the list, and in each view.
pub mod Found
pub mod Consistent
pub mod Session
use rust_doctor.Prelude.{
  ℕ, zero, suc, ◌+◌, ◌-◌, Bool, true, false, not, ◌&&◌, ◌||◌, Option, none, some, List, [], ◌∷◌,
  arith, if◌then◌else◌, min, ltb, ◌==◌, length, is_empty, is_some, get_elem?, and_then, or, nat_ord,
}
use rust_doctor.BTree.{Set, insert}
use rust_doctor.Report.{Text, codes}
use rust_doctor.Tui.Layout.{visible_start}
use rust_doctor.Tui.Entries.{Entry, row_index}
use rust_doctor.Tui.App.{
  Outcome, quit, launch_agent, copy_prompt, Flow, continue, exit, Notice, CopyFeedback, copied,
  copy_failed, LandingAction, review, add_to_ci, handoff, View, landing, issues, ci, handoff_ci,
  handing_off, App, landing_actions, landing_where, landing_on, same_action, is_item,
}
use rust_doctor.Tui.Menus.{
  Key, MenuInput, Outside, actions, arrow_down, arrow_up, back, char, choose_landing, ci_input,
  ctrl_c, enter, escape, guide_notice, handle_ci, handle_handoff, handle_landing,
  handle_recommendation, handoff_input, ignored, input, install_then, install_workflow, is_char,
  is_down, is_enter, is_escape, is_up, landing_input, mark_read, moved, noticed, other, page_down,
  page_up, recommendation_input, selected, set_ci_notice, with_view,
}

-- `(from..end).find` and `(0..=from).rev().find`.
abbrev pub find_up : ℕ → ℕ → (ℕ → Bool) → Option ℕ
find_up zero from p = none
find_up (suc n) from p = if p from then some from else find_up n (suc from) p

abbrev pub find_down : ℕ → (ℕ → Bool) → Option ℕ
find_down zero p = if p 0 then some 0 else none
find_down (suc n) p = if p (suc n) then some (suc n) else find_down n p

unfoldable pub selectable : List Entry → ℕ → Bool
unfolding row_index
selectable entries index = is_some (and_then (get_elem? entries index) row_index)

unfoldable pub seek : List Entry → ℕ → Bool → Option ℕ
unfolding selectable
seek entries from forward =
    if forward
    then find_up (length entries - from) from (selectable entries)
    else find_down from (selectable entries)

unfoldable pub nearest_selectable : List Entry → ℕ → Bool → Option ℕ
unfolding seek
nearest_selectable entries from forward =
    or (seek entries from forward) (seek entries from (not forward))

-- `move_to` once it has found its entry.
unfoldable pub select_entry : App → ℕ → ℕ → App
unfolding mark_read visible_start
select_entry app next height =
    let read = mark_read (record app { selected_entry = next; copy_feedback = none }) in
    record read { offset = visible_start (length read.entries) read.offset next height }

unfoldable pub move_to : App → ℕ → Bool → ℕ → App
unfolding select_entry nearest_selectable
move_to app target forward height =
    if is_empty app.entries
    then app
    else elim (nearest_selectable app.entries (min target (length app.entries - 1)) forward) [
      | none ↦ app
      | some next ↦ select_entry app next height
    ]

-- `copy_issue_context`: nothing without a selected row.
unfoldable pub copy_issue_context : App → Outside → App
unfolding row_index
copy_issue_context app outside =
    elim (and_then (and_then (get_elem? app.entries app.selected_entry) row_index)
      (get_elem? app.rows)) [
        | none ↦ app
        | some row ↦ record app {
          copy_feedback = some (if outside.copies then copied else copy_failed);
        }
      ]

unfoldable pub leave_issues : App → App
unfolding landing_where
leave_issues app =
    let cleared = record app { copy_feedback = none } in
    with_view cleared (landing_where cleared (λ kind. not (same_action kind review)))

unfoldable pub forget_g : App → Key → App
forget_g app key = if is_char 103 key then app else record app { awaiting_second_g = false }

-- The keys of the list, once `awaiting_second_g` has been read and forgotten.
unfoldable pub issues_key : App → Key → Outside → ℕ → Bool → App
unfolding leave_issues move_to copy_issue_context
issues_key app escape outside height is_second_g = leave_issues app
issues_key app arrow_down outside height is_second_g =
    move_to app (app.selected_entry + 1) true height
issues_key app arrow_up outside height is_second_g =
    move_to app (app.selected_entry - 1) false height
issues_key app page_down outside height is_second_g =
    move_to app (app.selected_entry + height) true height
issues_key app page_up outside height is_second_g =
    move_to app (app.selected_entry - height) false height
issues_key app enter outside height is_second_g = copy_issue_context app outside
issues_key app (char c) outside height is_second_g =
    if c == 106
    then move_to app (app.selected_entry + 1) true height
    else if c == 107
    then move_to app (app.selected_entry - 1) false height
    else if c == 71
    then move_to app (length app.entries - 1) false height
    else if c == 103
    then (if is_second_g
        then move_to app 0 true height
        else record app { awaiting_second_g = true })
    else app
issues_key app ctrl_c outside height is_second_g = app
issues_key app other outside height is_second_g = app

unfoldable pub handle_issues : App → Key → Outside → ℕ → App × Flow
unfolding issues_key forget_g
handle_issues app key outside height = (
  issues_key (forget_g app key) key outside height (app.awaiting_second_g && is_char 103 key),
  continue,
)

abbrev pub quits : Key → Bool
quits ctrl_c = true
quits key = is_char 113 key

unfoldable pub handle_view : App → View → Key → Outside → ℕ → App × Flow
unfolding handle_landing handle_handoff handle_recommendation handle_ci handle_issues
handle_view app (landing at) key outside height = handle_landing app key at
handle_view app (handing_off at) key outside height = handle_handoff app key at
handle_view app (handoff_ci at notice) key outside height =
    handle_recommendation app key outside at notice
handle_view app (ci at notice) key outside height = handle_ci app key outside at notice
handle_view app issues key outside height = handle_issues app key outside height

-- `App::handle`.
unfoldable pub handle : App → Key → Outside → ℕ → App × Flow
unfolding handle_view
handle app key outside height =
    if quits key then (app, exit quit) else handle_view app app.view key outside height
