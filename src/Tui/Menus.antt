-- ===== src/Tui/Menus.antt =====
-- tui/input.rs and tui/screens/menu.rs: what a key does in a menu. What the clipboard, the browser and the
-- installer of the workflow answer is an argument of each key. Keys that no handler names are `other`.
use rust_doctor.Prelude.{
  ℕ, zero, suc, ◌-◌, Bool, true, false, Option, none, some, if◌then◌else◌, min, ltb, ◌==◌, length,
  get_elem?, and_then, nat_ord,
}
use rust_doctor.BTree.{insert}
use rust_doctor.Report.{Text, codes}
use rust_doctor.Tui.Entries.{row_index}
use rust_doctor.Tui.App.{
  quit, launch_agent, copy_prompt, Flow, continue, exit, Notice, LandingAction, review, add_to_ci,
  handoff, View, landing, issues, ci, handoff_ci, handing_off, App, landing_actions, landing_on,
}

pub data Key : Type 0 where
  escape enter arrow_up arrow_down page_up page_down ctrl_c : Key
  char : ℕ → Key
  other : Key

-- The answers of the outside to one key: the path of the installed workflow or the notice of a failure,
-- whether a browser opened, and whether a prompt was copied.
pub record Outside : Type 0 where
  pub install : Option Text
  pub install_error : Text
  pub opened : Bool
  pub copies : Bool

pub data MenuInput : Type 0 where
  moved : MenuInput
  selected : ℕ → MenuInput
  back ignored : MenuInput

abbrev pub is_char : ℕ → Key → Bool
is_char c (char d) = c == d
is_char c _ = false

-- The arms of a menu's `match`.
abbrev pub is_up : Key → Bool
is_up arrow_up = true
is_up key = is_char 107 key

abbrev pub is_down : Key → Bool
is_down arrow_down = true
is_down key = is_char 106 key

abbrev pub is_escape : Key → Bool
is_escape escape = true
is_escape _ = false

abbrev pub is_enter : Key → Bool
is_enter enter = true
is_enter _ = false

-- `menu::input`: the selection that is left, and what the key asks.
unfoldable pub input : Key → ℕ → ℕ → ℕ × MenuInput
input key at count =
    if is_escape key
    then (at, back)
    else if is_up key
    then (at - 1, moved)
    else if is_down key
    then (min (suc at) (count - 1), moved)
    else if is_enter key
    then (if count == 0 then (at, ignored) else (at, selected (min at (count - 1))))
    else (at, ignored)

abbrev pub with_view : App → View → App
with_view app view = record app { view = view }

unfoldable pub mark_read : App → App
unfolding row_index
mark_read app = elim (and_then (get_elem? app.entries app.selected_entry) row_index) [
  | none ↦ app
  | some index ↦ record app { read = insert index app.read }
]

unfoldable pub choose_landing : App → Option LandingAction → App
unfolding mark_read
choose_landing app (some review) = with_view (mark_read app) issues
choose_landing app (some add_to_ci) = with_view app (ci 0 none)
choose_landing app (some handoff) =
    with_view app (if app.ci_available then handoff_ci 0 none else handing_off 0)
choose_landing app none = app

unfoldable pub landing_input : App → ℕ × MenuInput → App × Flow
unfolding choose_landing landing_actions
landing_input app (at, back) = (with_view app (landing at), exit quit)
landing_input app (at, selected index) =
    (choose_landing (with_view app (landing at)) (get_elem? (landing_actions app) index), continue)
landing_input app (at, moved) = (with_view app (landing at), continue)
landing_input app (at, ignored) = (with_view app (landing at), continue)

unfoldable pub handle_landing : App → Key → ℕ → App × Flow
unfolding landing_input input
handle_landing app key at = landing_input app (input key at (length (landing_actions app)))

unfoldable pub handoff_input : App → ℕ × MenuInput → App × Flow
unfolding landing_on
handoff_input app (at, back) = (with_view app (landing_on app handoff), continue)
handoff_input app (at, selected index) = (
  with_view app (handing_off at),
  exit (if ltb index app.agents then launch_agent index else copy_prompt),
)
handoff_input app (at, moved) = (with_view app (handing_off at), continue)
handoff_input app (at, ignored) = (with_view app (handing_off at), continue)

unfoldable pub handle_handoff : App → Key → ℕ → App × Flow
unfolding handoff_input input
handle_handoff app key at = handoff_input app (input key at (suc app.agents))

-- `install_workflow`: the state, and a notice on failure.
unfoldable pub install_workflow : App → Outside → App × Option Notice
install_workflow app outside = elim outside.install [
  | some path ↦ (record app { ci_available = false; installed_workflow = some path }, none)
  | none ↦ (app, some (record { succeeded = false; message = outside.install_error }))
]

abbrev pub noticed : View → Notice → View
noticed (ci at notice) new_notice = ci at (some new_notice)
noticed (handoff_ci at notice) new_notice = handoff_ci at (some new_notice)
noticed view new_notice = view

unfoldable pub set_ci_notice : App → Notice → App
set_ci_notice app notice = with_view app (noticed app.view notice)

-- The first action of both menus installs.
abbrev pub actions : ℕ
actions = 2

unfoldable pub install_then : (App → App × Flow) → App × Option Notice → App × Flow
unfolding set_ci_notice
install_then next (app, some notice) = (set_ci_notice app notice, continue)
install_then next (app, none) = next app

unfoldable pub recommendation_input : App → Option Notice → Outside → ℕ × MenuInput → App × Flow
unfolding install_then install_workflow
recommendation_input app notice outside (at, selected zero) =
    install_then (λ a. (with_view a (handing_off 0), continue))
      (install_workflow (with_view app (handoff_ci at notice)) outside)
recommendation_input app notice outside (at, selected (suc index)) =
    (with_view app (handing_off 0), continue)
recommendation_input app notice outside (at, back) = (with_view app (handing_off 0), continue)
recommendation_input app notice outside (at, moved) =
    (with_view app (handoff_ci at notice), continue)
recommendation_input app notice outside (at, ignored) =
    (with_view app (handoff_ci at notice), continue)

unfoldable pub handle_recommendation : App → Key → Outside → ℕ → Option Notice → App × Flow
unfolding recommendation_input input
handle_recommendation app key outside at notice =
    recommendation_input app notice outside (input key at actions)

unfoldable pub guide_notice : Bool → Notice
guide_notice opened = record {
  succeeded = opened;
  message =
      if opened
      then codes "✓ Opened the GitHub Actions guide in your browser"
      else codes
          "Couldn't open a browser. Visit https://github.com/arthjean/rust-doctor#github-actions";
}

unfoldable pub ci_input : App → Option Notice → Outside → ℕ × MenuInput → App × Flow
unfolding install_then install_workflow landing_on guide_notice
ci_input app notice outside (at, back) = (with_view app (landing_on app add_to_ci), continue)
ci_input app notice outside (at, selected zero) =
    install_then (λ a. (a, exit quit)) (install_workflow (with_view app (ci at notice)) outside)
ci_input app notice outside (at, selected (suc index)) =
    (set_ci_notice (with_view app (ci at notice)) (guide_notice outside.opened), continue)
ci_input app notice outside (at, moved) = (with_view app (ci at notice), continue)
ci_input app notice outside (at, ignored) = (with_view app (ci at notice), continue)

unfoldable pub handle_ci : App → Key → Outside → ℕ → Option Notice → App × Flow
unfolding ci_input input
handle_ci app key outside at notice = ci_input app notice outside (input key at actions)
