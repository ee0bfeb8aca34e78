-- ===== src/Tui/Input/Consistent.antt =====
-- tui/input.rs: what one key keeps of the state.
use rust_doctor.Prelude.{
  ℕ, zero, suc, ◌-◌, ◌≤◌, ◌<◌, ◌≡◌, refl, ◌⊎◌, subst, inl, inr, Bool, true, false, Option, none,
  some, List, [], ◌∷◌, ◌++◌, arith, if◌then◌else◌, length, is_empty, get_elem?, and_then, Every,
  Option-cases, Bool-cases, nat_ord,
}
use rust_doctor.Tui.Entries.{row_index, build_entries}
use rust_doctor.Tui.App.{
  continue, LandingAction, review, add_to_ci, handoff, View, landing, issues, ci, handoff_ci,
  handing_off, App, notes_heading, landing_actions, landing_where, landing_on, same_action, Notice,
}
use rust_doctor.Tui.Input.Found.{built_row, Every-insert, position_le}
use rust_doctor.Tui.Menus.{
  Key, Outside, MenuInput, actions, moved, selected, back, ignored, input, with_view, mark_read,
  choose_landing, landing_input, handoff_input, recommendation_input, ci_input, install_workflow,
  install_then, set_ci_notice,
}
use rust_doctor.Tui.Input.{selectable}

-- The list is that of the rows, its selected entry is a row where there is one, and the rows that have
-- been read are rows.
abbrev pub Keeps : App → Type 0
Keeps app =
    (app.entries ≡ build_entries notes_heading app.rows)
    × (is_empty app.rows ≡ false → selectable app.entries app.selected_entry ≡ true)
    × Every (λ i. i < length app.rows) app.read

-- A selection is one of the actions, or the first place of a menu that has none.
abbrev pub IsChosen : ℕ → ℕ → Type 0
IsChosen at count = (at < count) ⊎ ((count ≡ 0) × (at ≡ 0))

pub le-IsChosen : (at count : ℕ) → at ≤ count - 1 → IsChosen at count
le-IsChosen at zero h = inr (refl, omega arith)
le-IsChosen at (suc count) h = inl (omega arith)

pub le_of_IsChosen : (at count : ℕ) → IsChosen at count → at ≤ count - 1
le_of_IsChosen at count (inl h) = omega arith
le_of_IsChosen at count (inr (h, k)) = omega arith

-- The selection of a menu, and what the open view is about: rows, or a workflow that can be installed.
abbrev pub InMenu : App → View → Type 0
InMenu app (landing at) = IsChosen at (length (landing_actions app))
InMenu app issues = is_empty app.rows ≡ false
InMenu app (ci at notice) = (at < actions) × (app.ci_available ≡ true)
InMenu app (handoff_ci at notice) = (at < actions) × (is_empty app.rows ≡ false)
InMenu app (handing_off at) = (at < suc app.agents) × (is_empty app.rows ≡ false)

abbrev pub IsConsistent : App → Type 0
IsConsistent app = Keeps app × InMenu app app.view

pub input_le : (key : Key) (at count : ℕ) → at ≤ count - 1 → (input key at count).0 ≤ count - 1
unfolding input
input_le key at count h = ground arith

-- What the read flag and the cursor keep.
pub mark_read-Keeps : (app : App) → Keeps app → Keeps (mark_read app)
unfolding mark_read
mark_read-Keeps app (built, on_item, read) =
    elim (Option-cases (and_then (get_elem? app.entries app.selected_entry) row_index)) [
      | inl e ↦ rw (e, mark_read) (built, on_item, read)
      | inr (i, e) ↦
          rw (e, mark_read)
            (
              built,
              on_item,
              Every-insert (λ j. j < length app.rows) i app.read
                  (built_row notes_heading app.rows app.selected_entry i (
                    subst (λ es. and_then (get_elem? es app.selected_entry) row_index ≡ some i)
                      built e))
                  read,
            )
    ]

pub mark_read-rows : (app : App) → (mark_read app).rows ≡ app.rows
unfolding mark_read
mark_read-rows app = ground arith

-- What an offered action stands for.
abbrev Offered : App → LandingAction → Type 0
Offered app review = is_empty app.rows ≡ false
Offered app add_to_ci = app.ci_available ≡ true
Offered app handoff = is_empty app.rows ≡ false

-- The actions by what they depend on.
abbrev offers : Bool → Bool → List LandingAction
offers no_rows available =
    (if no_rows then [] else review ∷ [])
    ++ (if available then add_to_ci ∷ [] else [])
    ++ (if no_rows then [] else handoff ∷ [])

no_workflow :
    (no_rows : Bool) (index : ℕ) → get_elem? (offers no_rows false) index ≡ some add_to_ci → ⊥
no_workflow true index h = cc
no_workflow false zero h = cc
no_workflow false (suc zero) h = cc
no_workflow false (suc (suc index)) h = cc

offered :
    (app : App) (index : ℕ) (action : LandingAction)
    → get_elem? (landing_actions app) index ≡ some action
    → Offered app action
unfolding landing_actions
offered app index review h = ground arith
offered app index add_to_ci h = elim (Bool-cases app.ci_available) [
  | inl e ↦ e
  | inr e ↦ absurd (
      no_workflow (is_empty app.rows) index
        (subst (λ c. get_elem? (offers (is_empty app.rows) c) index ≡ some add_to_ci) e h))
]
offered app index handoff h = ground arith

open_handoff :
    (app : App)
    → is_empty app.rows ≡ false
    → InMenu app (if app.ci_available then handoff_ci 0 none else handing_off 0)
open_handoff app h = elim (Bool-cases app.ci_available) [
  | inl e ↦ rw e (omega arith, h)
  | inr e ↦ rw e (omega arith, h)
]

choose_landing-IsConsistent :
    (app : App) (at index : ℕ)
    → app.view ≡ landing at
    → IsConsistent app
    → IsConsistent (choose_landing app (get_elem? (landing_actions app) index))
unfolding choose_landing landing_actions
choose_landing-IsConsistent app at index v (keeps, inside) =
    elim (Option-cases (get_elem? (landing_actions app) index)) [
      | inl e ↦ rw e (keeps, inside)
      | inr (review, e) ↦
          rw e (mark_read-Keeps app keeps, rw (mark_read-rows app) (offered app index review e))
      | inr (add_to_ci, e) ↦ rw e (keeps, (omega arith, offered app index add_to_ci e))
      | inr (handoff, e) ↦ rw e (keeps, open_handoff app (offered app index handoff e))
    ]

pub landing_input-IsConsistent :
    (app : App) (at : ℕ) (asked : MenuInput)
    → Keeps app
    → at ≤ length (landing_actions app) - 1
    → IsConsistent (landing_input app (at, asked)).0
unfolding landing_input landing_actions
landing_input-IsConsistent app at back keeps h = (keeps, le-IsChosen at _ h)
landing_input-IsConsistent app at moved keeps h = (keeps, le-IsChosen at _ h)
landing_input-IsConsistent app at ignored keeps h = (keeps, le-IsChosen at _ h)
landing_input-IsConsistent app at (selected index) keeps h =
    choose_landing-IsConsistent (with_view app (landing at)) at index refl
      (keeps, le-IsChosen at _ h)

pub handoff_input-IsConsistent :
    (app : App) (at : ℕ) (asked : MenuInput)
    → Keeps app
    → at ≤ app.agents
    → is_empty app.rows ≡ false
    → IsConsistent (handoff_input app (at, asked)).0
unfolding handoff_input landing_on landing_where landing_actions
handoff_input-IsConsistent app at back keeps h r =
    (keeps, le-IsChosen _ _ (position_le (λ kind. same_action kind handoff) (landing_actions app)))
handoff_input-IsConsistent app at moved keeps h r = (keeps, (omega arith, r))
handoff_input-IsConsistent app at ignored keeps h r = (keeps, (omega arith, r))
handoff_input-IsConsistent app at (selected index) keeps h r = (keeps, (omega arith, r))

pub recommendation_input-IsConsistent :
    (app : App) (notice : Option Notice) (outside : Outside) (at : ℕ) (asked : MenuInput)
    → Keeps app
    → at ≤ 1
    → is_empty app.rows ≡ false
    → IsConsistent (recommendation_input app notice outside (at, asked)).0
unfolding recommendation_input install_then install_workflow set_ci_notice
recommendation_input-IsConsistent app notice outside at back keeps h r = (keeps, (omega arith, r))
recommendation_input-IsConsistent app notice outside at moved keeps h r = (keeps, (omega arith, r))
recommendation_input-IsConsistent app notice outside at ignored keeps h r =
    (keeps, (omega arith, r))
recommendation_input-IsConsistent app notice outside at (selected (suc index)) keeps h r =
    (keeps, (omega arith, r))
recommendation_input-IsConsistent app notice outside at (selected zero) keeps h r =
    elim (Option-cases outside.install) [
      | inl e ↦ rw e (keeps, (omega arith, r))
      | inr (path, e) ↦ rw e (keeps, (omega arith, r))
    ]

pub ci_input-IsConsistent :
    (app : App) (notice : Option Notice) (outside : Outside) (at : ℕ) (asked : MenuInput)
    → Keeps app
    → at ≤ 1
    → app.ci_available ≡ true
    → (ci_input app notice outside (at, asked)).1 ≡ continue
    → IsConsistent (ci_input app notice outside (at, asked)).0
unfolding ci_input install_then install_workflow set_ci_notice landing_on landing_where
    landing_actions
ci_input-IsConsistent app notice outside at back keeps h r k = (
  keeps,
  le-IsChosen _ _ (position_le (λ kind. same_action kind add_to_ci) (landing_actions app)),
)
ci_input-IsConsistent app notice outside at moved keeps h r k = (keeps, (omega arith, r))
ci_input-IsConsistent app notice outside at ignored keeps h r k = (keeps, (omega arith, r))
ci_input-IsConsistent app notice outside at (selected (suc index)) keeps h r k =
    (keeps, (omega arith, r))
ci_input-IsConsistent app notice outside at (selected zero) keeps h r k =
    elim (Option-cases outside.install) [
      | inl e ↦ rw e (keeps, (omega arith, r))
      | inr (path, e) ↦ absurd (ground arith)
    ]
