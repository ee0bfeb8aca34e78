-- ===== src/Tui/App.antt =====
-- tui.rs and tui/frames.rs: the state of the view and where its landing menu stands. Paths and messages
-- are texts; the fields that are only painted are left out.
use rust_doctor.Prelude.{
  ℕ, suc, Bool, true, false, Option, none, some, List, [], ◌∷◌, ◌++◌, if◌then◌else◌, is_empty,
  is_some, unwrap_or,
}
use rust_doctor.BTree.{Set}
use rust_doctor.Report.{Text, codes}
use rust_doctor.Tui.Entries.{Row, Entry, row_index, build_entries}

pub data Outcome : Type 0 where
  quit : Outcome
  launch_agent : ℕ → Outcome
  copy_prompt : Outcome

pub data Flow : Type 0 where
  continue : Flow
  exit : Outcome → Flow

pub record Notice : Type 0 where
  pub succeeded : Bool
  pub message : Text

pub data CopyFeedback : Type 0 where
  copied copy_failed : CopyFeedback

pub data LandingAction : Type 0 where
  review add_to_ci handoff : LandingAction

pub data View : Type 0 where
  landing : ℕ → View
  issues : View
  ci : ℕ → Option Notice → View
  handoff_ci : ℕ → Option Notice → View
  handing_off : ℕ → View

pub record App : Type 0 where
  pub agents : ℕ
  pub rows : List Row
  pub entries : List Entry
  pub view : View
  pub ci_available : Bool
  pub selected_entry : ℕ
  pub offset : ℕ
  pub read : Set ℕ
  pub copy_feedback : Option CopyFeedback
  pub awaiting_second_g : Bool
  pub installed_workflow : Option Text

-- `Iterator::position`.
abbrev pub position {ℓ} : {A : Type ℓ} → (A → Bool) → List A → Option ℕ
position p [] = none
position p (x ∷ xs) =
    let later = position p xs in
    if p x then some 0 else (elim later [ none ↦ none | some n ↦ some (suc n) ])

abbrev pub is_item : Entry → Bool
is_item entry = is_some (row_index entry)

abbrev pub notes_heading : Text
notes_heading = codes "Compiler notes (not scored)"

-- `App::new`, for the rows of a report, the number of agents and whether a workflow can be installed.
unfoldable pub new : List Row → ℕ → Bool → App
unfolding build_entries row_index
new rows agents can_install =
    let entries = build_entries notes_heading rows in
    record {
      agents = agents;
      rows = rows;
      entries = entries;
      view = landing 0;
      ci_available = can_install;
      selected_entry = unwrap_or (position is_item entries) 0;
      offset = 0;
      read = [];
      copy_feedback = none;
      awaiting_second_g = false;
      installed_workflow = none;
    }

unfoldable pub landing_actions : App → List LandingAction
landing_actions app =
    (if is_empty app.rows then [] else review ∷ [])
    ++ (if app.ci_available then add_to_ci ∷ [] else [])
    ++ (if is_empty app.rows then [] else handoff ∷ [])

abbrev pub same_action : LandingAction → LandingAction → Bool
same_action review review = true
same_action add_to_ci add_to_ci = true
same_action handoff handoff = true
same_action _ _ = false

unfoldable pub landing_where : App → (LandingAction → Bool) → View
unfolding landing_actions
landing_where app wanted = landing (unwrap_or (position wanted (landing_actions app)) 0)

unfoldable pub landing_on : App → LandingAction → View
unfolding landing_where
landing_on app action = landing_where app (λ kind. same_action kind action)
