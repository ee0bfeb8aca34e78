-- ===== src/Tui/Run.antt =====
-- tui.rs: the loop that reads keys, and how a move and the escape key end.
use rust_doctor.Prelude.{
  ℕ, ◌+◌, ◌-◌, ◌≤◌, ◌<◌, ◌≡◌, refl, inl, inr, Bool, true, Option, none, some, List, [], ◌∷◌, arith,
  min, length, is_empty, Option-cases, Bool-cases,
}
use rust_doctor.Tui.Layout.Fits.{visible_start_shows}
use rust_doctor.Tui.App.{
  continue, exit, Outcome, quit, View, landing, issues, ci, handoff_ci, handing_off, App,
  landing_on,
}
use rust_doctor.Tui.Menus.{
  Key, escape, Outside, mark_read, handle_landing, handle_handoff, handle_recommendation, handle_ci,
  landing_input, handoff_input, recommendation_input, ci_input, input,
}
use rust_doctor.Tui.Input.{
  selectable, nearest_selectable, select_entry, move_to, leave_issues, issues_key, handle_issues,
  handle_view, handle,
}
use rust_doctor.Tui.Input.Found.{nearest_selectable-some, nearest_selectable-none, selectable_lt}

-- `App::run`, over the keys that are read and what each meets; none when the keys end first.
unfoldable pub run : App → List (Key × Outside × ℕ) → Option Outcome
unfolding handle
run app [] = none
run app ((key, outside, height) ∷ presses) =
    let (after, flow) = handle app key outside height in
    let rest = run after presses in elim flow [ continue ↦ rest | exit outcome ↦ some outcome ]

abbrev pub Shown : App → ℕ → Type 0
Shown app height =
    (selectable app.entries app.selected_entry ≡ true)
    × (app.offset ≤ app.selected_entry)
    × (app.selected_entry < app.offset + height)

mark_read-entries :
    (app : App)
    → ((mark_read app).entries ≡ app.entries)
      × ((mark_read app).selected_entry ≡ app.selected_entry)
unfolding mark_read
mark_read-entries app = ground arith

mark_read-offset : (app : App) → (mark_read app).offset ≡ app.offset
unfolding mark_read
mark_read-offset app = ground arith

select_entry-Shown :
    (app : App) (next height : ℕ)
    → selectable app.entries next ≡ true
    → 0 < height
    → Shown (select_entry app next height) height
unfolding select_entry
select_entry-Shown app next height h k =
    let chosen : App = record app { selected_entry = next; copy_feedback = none } in
    let (entries, selected) = mark_read-entries chosen in
    let shows =
      visible_start_shows (length app.entries) (mark_read chosen).offset next height
        (selectable_lt app.entries next h) k in
    rw (entries, selected) (h, shows.0, shows.1)

-- Where an entry is selectable and the list has a positive height, every move selects a selectable
-- entry, and the lines of the list that show hold it.
pub move_to_shows :
    (app : App) (row target : ℕ) (forward : Bool) (height : ℕ)
    → selectable app.entries row ≡ true
    → 0 < height
    → Shown (move_to app target forward height) height
unfolding move_to
move_to_shows app row target forward height h k = elim (Bool-cases (is_empty app.entries)) [
  | inl e ↦ absurd (ground (arith, selectable_lt app.entries row h))
  | inr e ↦
      elim (Option-cases
        (nearest_selectable app.entries (min target (length app.entries - 1)) forward)) [
          | inl q ↦ absurd (ground (arith, nearest_selectable-none app.entries _ row forward q))
          | inr (next, q) ↦
              rw (e, q, move_to)
                (select_entry-Shown app next height
                  (nearest_selectable-some app.entries _ next forward q) k)
        ]
]

-- The escape key, by view.
abbrev Press : Type 0
Press = Outside × ℕ

escaped :
    (app : App) (view : View) (p q r : Press) (rest : List (Key × Outside × ℕ))
    → app.view ≡ view
    → run app ((escape, p.0, p.1) ∷ (escape, q.0, q.1) ∷ (escape, r.0, r.1) ∷ rest) ≡ some quit
unfolding run handle handle_view handle_landing handle_issues issues_key leave_issues handle_handoff
    handle_recommendation handle_ci landing_input handoff_input recommendation_input ci_input input
    landing_on
escaped app (landing at) p q r rest v = rw v refl
escaped app issues p q r rest v = rw v refl
escaped app (ci at notice) p q r rest v = rw v refl
escaped app (handoff_ci at notice) p q r rest v = rw v refl
escaped app (handing_off at) p q r rest v = rw v refl

-- From every state, three presses of the escape key end the loop with the outcome of quitting.
pub run_escapes :
    (app : App) (p q r : Outside × ℕ) (rest : List (Key × Outside × ℕ))
    → run app ((escape, p.0, p.1) ∷ (escape, q.0, q.1) ∷ (escape, r.0, r.1) ∷ rest) ≡ some quit
run_escapes app p q r rest = escaped app app.view p q r rest refl
