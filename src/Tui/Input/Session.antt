-- ===== src/Tui/Input/Session.antt =====
-- tui.rs and tui/input.rs: the states that keys reach, and the ways out.
use rust_doctor.Prelude.{
  ℕ, suc, ◌+◌, ◌-◌, ◌≤◌, ◌≡◌, refl, ◌∙◌, subst, inl, inr, Bool, true, false, not, none, List, arith,
  min, if◌then◌else◌, ◌==◌, length, is_empty, get_elem?, and_then, Option-cases, Bool-cases,
  nat_ord,
}
use rust_doctor.Tui.Entries.{Row, row_index}
use rust_doctor.Tui.App.{
  Flow, continue, exit, Outcome, quit, review, View, landing, issues, ci, handoff_ci, handing_off,
  App, notes_heading, new, landing_actions, landing_where, same_action,
}
use rust_doctor.Tui.Menus.{
  Key, escape, enter, arrow_up, arrow_down, page_up, page_down, ctrl_c, char, other, Outside, input,
  is_char, mark_read, handle_landing, handle_handoff, handle_recommendation, handle_ci,
}
use rust_doctor.Tui.Input.{
  selectable, nearest_selectable, select_entry, move_to, copy_issue_context, leave_issues, forget_g,
  issues_key, handle_issues, handle_view, quits, handle,
}
use rust_doctor.Tui.Input.Found.{nearest_selectable-some, first_selectable, position_le}
use rust_doctor.Tui.Input.Consistent.{
  Keeps, le-IsChosen, le_of_IsChosen, InMenu, IsConsistent, input_le, mark_read-Keeps,
  mark_read-rows, landing_input-IsConsistent, handoff_input-IsConsistent,
  recommendation_input-IsConsistent, ci_input-IsConsistent,
}

-- The states of the list.
abbrev Reads : App → Type 0
Reads app = Keeps app × (app.view ≡ issues) × (is_empty app.rows ≡ false)

Reads-IsConsistent : (app : App) → Reads app → IsConsistent app
Reads-IsConsistent app (keeps, v, r) = (keeps, rw v r)

mark_read-view : (app : App) → (mark_read app).view ≡ app.view
unfolding mark_read
mark_read-view app = ground arith

select_entry-Reads :
    (app : App) (next height : ℕ)
    → selectable app.entries next ≡ true
    → Reads app
    → Reads (select_entry app next height)
unfolding select_entry
select_entry-Reads app next height s (keeps, v, r) =
    let moved = record app { selected_entry = next; copy_feedback = none } in
    (
      mark_read-Keeps moved (keeps.0, (λ q. s), keeps.2),
      mark_read-view moved ∙ v,
      rw (mark_read-rows moved) r,
    )

move_to-Reads :
    (app : App) (target : ℕ) (forward : Bool) (height : ℕ)
    → Reads app
    → Reads (move_to app target forward height)
unfolding move_to
move_to-Reads app target forward height h = elim (Bool-cases (is_empty app.entries)) [
  | inl e ↦ rw (e, move_to) h
  | inr e ↦
      elim (Option-cases
        (nearest_selectable app.entries (min target (length app.entries - 1)) forward)) [
          | inl k ↦ rw (e, k, move_to) h
          | inr (next, k) ↦
              rw (e, k, move_to)
                (select_entry-Reads app next height
                  (nearest_selectable-some app.entries _ next forward k) h)
        ]
]

copy-Reads : (app : App) (outside : Outside) → Reads app → Reads (copy_issue_context app outside)
unfolding copy_issue_context
copy-Reads app outside h =
    elim (Option-cases (
      and_then (and_then (get_elem? app.entries app.selected_entry) row_index)
        (get_elem? app.rows))) [
          | inl e ↦ rw (e, copy_issue_context) h
          | inr (row, e) ↦ rw (e, copy_issue_context) h
        ]

leave_issues-IsConsistent : (app : App) → Reads app → IsConsistent (leave_issues app)
unfolding leave_issues landing_where landing_actions
leave_issues-IsConsistent app (keeps, v, r) = (
  keeps,
  le-IsChosen _ _ (position_le (λ kind. not (same_action kind review)) (landing_actions app)),
)

forget_g-Reads : (app : App) (key : Key) → Reads app → Reads (forget_g app key)
unfolding forget_g
forget_g-Reads app key h = elim (Bool-cases (is_char 103 key)) [ inl e ↦ rw e h | inr e ↦ rw e h ]

-- Either branch of a test.
either_way : (P : App → Type 0) (b : Bool) (x y : App) → P x → P y → P (if b then x else y)
either_way P true x y p q = p
either_way P false x y p q = q

char-Reads :
    (app : App) (c : ℕ) (outside : Outside) (height : ℕ) (again : Bool)
    → Reads app
    → Reads (issues_key app (char c) outside height again)
unfolding issues_key
char-Reads app c outside height again h =
    either_way Reads (c == 106) _ _ (move_to-Reads app _ true height h) (
      either_way Reads (c == 107) _ _ (move_to-Reads app _ false height h) (
        either_way Reads (c == 71) _ _ (move_to-Reads app _ false height h) (
          either_way Reads (c == 103) _ _
            (either_way Reads again _ _ (move_to-Reads app 0 true height h) h) h)))

issues_key-IsConsistent :
    (app : App) (key : Key) (outside : Outside) (height : ℕ) (again : Bool)
    → Reads app
    → IsConsistent (issues_key app key outside height again)
unfolding issues_key
issues_key-IsConsistent app escape outside height again h = leave_issues-IsConsistent app h
issues_key-IsConsistent app arrow_down outside height again h =
    Reads-IsConsistent (move_to app (app.selected_entry + 1) true height)
      (move_to-Reads app _ true height h)
issues_key-IsConsistent app arrow_up outside height again h =
    Reads-IsConsistent (move_to app (app.selected_entry - 1) false height)
      (move_to-Reads app _ false height h)
issues_key-IsConsistent app page_down outside height again h =
    Reads-IsConsistent (move_to app (app.selected_entry + height) true height)
      (move_to-Reads app _ true height h)
issues_key-IsConsistent app page_up outside height again h =
    Reads-IsConsistent (move_to app (app.selected_entry - height) false height)
      (move_to-Reads app _ false height h)
issues_key-IsConsistent app enter outside height again h =
    Reads-IsConsistent (copy_issue_context app outside) (copy-Reads app outside h)
issues_key-IsConsistent app (char c) outside height again h =
    Reads-IsConsistent (issues_key app (char c) outside height again)
      (char-Reads app c outside height again h)
issues_key-IsConsistent app ctrl_c outside height again h = Reads-IsConsistent app h
issues_key-IsConsistent app other outside height again h = Reads-IsConsistent app h

view-IsConsistent :
    (app : App) (view : View) (key : Key) (outside : Outside) (height : ℕ)
    → app.view ≡ view
    → Keeps app
    → InMenu app view
    → (handle_view app view key outside height).1 ≡ continue
    → IsConsistent (handle_view app view key outside height).0
unfolding handle_view handle_landing handle_handoff handle_recommendation handle_ci handle_issues
view-IsConsistent app (landing at) key outside height v keeps h k =
    landing_input-IsConsistent app _ _ keeps (input_le key at _ (le_of_IsChosen at _ h))
view-IsConsistent app (handing_off at) key outside height v keeps h k =
    let inside : at ≤ suc app.agents - 1 = omega (arith, h.0) in
    let after : (input key at (suc app.agents)).0 ≤ app.agents =
      omega (arith, input_le key at (suc app.agents) inside) in
    handoff_input-IsConsistent app _ _ keeps after h.1
view-IsConsistent app (handoff_ci at notice) key outside height v keeps h k =
    recommendation_input-IsConsistent app notice outside _ _ keeps
      (input_le key at 2 (omega (arith, h.0))) h.1
view-IsConsistent app (ci at notice) key outside height v keeps h k =
    ci_input-IsConsistent app notice outside _ _ keeps (input_le key at 2 (omega (arith, h.0))) h.1
      k
view-IsConsistent app issues key outside height v keeps h k =
    issues_key-IsConsistent (forget_g app key) key outside height _
      (forget_g-Reads app key (keeps, v, h))

when_not :
    (b : Bool) (o : Outcome) (x y : App × Flow)
    → (if b then (x.0, exit o) else y).1 ≡ continue
    → (b ≡ false)
when_not true o x y h = absurd (ground arith)
when_not false o x y h = refl

handle-IsConsistent :
    (app : App) (key : Key) (outside : Outside) (height : ℕ)
    → IsConsistent app
    → (handle app key outside height).1 ≡ continue
    → IsConsistent (handle app key outside height).0
unfolding handle
handle-IsConsistent app key outside height (keeps, h) k =
    let e : quits key ≡ false = when_not (quits key) quit (app, continue) _ k in
    let k' : (handle_view app app.view key outside height).1 ≡ continue =
      subst
        (λ b.
          (if b then (app, exit quit) else handle_view app app.view key outside height).1
          ≡ continue)
        e k in
    rw e (view-IsConsistent app app.view key outside height refl keeps h k')

pub data Step : App → App → Type 0 where
  press :
      (app : App) (key : Key) (outside : Outside) (height : ℕ)
      → (handle app key outside height).1 ≡ continue
      → Step app (handle app key outside height).0

pub data Reached (rows : List Row) (agents : ℕ) (can_install : Bool) : App → Type 0 where
  start : Reached rows agents can_install (new rows agents can_install)
  next :
      {app after : App}
      → Reached rows agents can_install app
      → Step app after
      → Reached rows agents can_install after

new-IsConsistent :
    (rows : List Row) (agents : ℕ) (can_install : Bool) → IsConsistent (new rows agents can_install)
unfolding new
new-IsConsistent rows agents can_install =
    ((refl, first_selectable notes_heading rows, tt), le-IsChosen 0 _ (omega arith))

step-IsConsistent : {app after : App} → Step app after → IsConsistent app → IsConsistent after
step-IsConsistent (press app key outside height k) h =
    handle-IsConsistent app key outside height h k

-- In every state that keys reach from the first state without leaving, the list is that of the
-- rows, the read rows are rows, the selected entry is a row where there is one, the selection of a
-- menu is one of its actions, or the first place of a landing menu that has none, and a view that
-- concerns rows or the workflow is open only where there are rows or the workflow can be installed.
pub Reached-IsConsistent :
    (rows : List Row) (agents : ℕ) (can_install : Bool) (app : App)
    → Reached rows agents can_install app
    → IsConsistent app
Reached-IsConsistent rows agents can_install app start = new-IsConsistent rows agents can_install
Reached-IsConsistent rows agents can_install app (next before step) =
    step-IsConsistent step (Reached-IsConsistent rows agents can_install _ before)
