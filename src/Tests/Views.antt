-- ===== src/Tests/Views.antt =====
-- The theorems on the interactive view.
use rust_doctor.Prelude.{◌≡◌, refl, true, false, some, none, [], ◌∷◌, List, arith, ltb, length}
use rust_doctor.Report.{codes}
use rust_doctor.Audit.Model.{security, bugs}
use rust_doctor.Tui.Entries.{Row, build_entries}
use rust_doctor.Tui.Entries.Once.{one, times, build_entries_once}
use rust_doctor.Tui.App.{App, new, quit}
use rust_doctor.Tui.Menus.{enter, escape, Outside}
use rust_doctor.Tui.Input.{handle, move_to, selectable}
use rust_doctor.Tui.Input.Consistent.{IsConsistent}
use rust_doctor.Tui.Input.Session.{start, next, press, Reached-IsConsistent}
use rust_doctor.Tui.Run.{run, Shown, run_escapes, move_to_shows}

abbrev rows : List Row
rows =
    record { category = bugs; note = false }
    ∷ record { category = security; note = false }
    ∷ record { category = bugs; note = true }
    ∷ []

abbrev outside : Outside
outside = record { install = none; install_error = codes "denied"; opened = true; copies = true }

abbrev app : App
app = new rows 2 true

Reached-IsConsistent_example : IsConsistent (handle app enter outside 5).0
unfolding handle new
Reached-IsConsistent_example =
    Reached-IsConsistent rows 2 true (handle app enter outside 5).0
      (next start (press app enter outside 5 refl))

run_escapes_example :
    run app ((escape, outside, 5) ∷ (escape, outside, 5) ∷ (escape, outside, 5) ∷ []) ≡ some quit
run_escapes_example = run_escapes app (outside, 5) (outside, 5) (outside, 5) []

move_to_shows_example : Shown (move_to app 4 true 2) 2
unfolding selectable new
move_to_shows_example = move_to_shows app 1 4 true 2 refl (omega arith)

build_entries_once_example :
    times 2 (build_entries (codes "Notes") rows) ≡ one (ltb 2 (length rows))
build_entries_once_example = build_entries_once (codes "Notes") rows 2
