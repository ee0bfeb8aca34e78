-- ===== src/Gate.antt =====
-- report/assembly.rs and report.rs: the gate on findings, and the exit code. A set of ids is searched as
-- the list that it is collected from. Of a report the fields that the gate and the exit code read are
-- kept.
pub mod Decided
use rust_doctor.Prelude.{
  ℕ, zero, suc, ◌≡◌, Bool, true, false, not, ◌&&◌, ◌||◌, Option, none, some, List, [], ◌∷◌, map,
  any, retain, length, ◌==◌, if◌then◌else◌, same, list_ord, nat_ord, and_then,
}
use rust_doctor.Report.{
  Text, codes, Diagnostic, weighs, Status, complete, incomplete, failed, Severity, error, warning,
  info, unknown,
}
use rust_doctor.Policy.Levels.{BlockingLevel, blocks_none, blocks_error, blocks_warning, RuleLevel}
use rust_doctor.Policy.Plan.{PolicyPlan, restamp_level}
use rust_doctor.Exclusion.{canonical_severity}

pub data GateStatus : Type 0 where
  passed gate_failed not_evaluated : GateStatus

pub record GateReport : Type 0 where
  pub blocking : BlockingLevel
  pub status : GateStatus
  pub blocking_diagnostics : Option ℕ

pub record ReportError : Type 0 where
  pub stage : Text
  pub code : Text
  pub message : Text

pub record InspectReport : Type 0 where
  pub status : Status
  pub diagnostics : List Diagnostic
  pub errors : List ReportError
  pub gate : GateReport
  pub introduced : Option (List Text)

unfoldable pub is_blocking : Diagnostic → BlockingLevel → Bool
is_blocking diagnostic blocks_none = false
is_blocking diagnostic blocks_error = elim diagnostic.severity [ error ↦ true | _ ↦ false ]
is_blocking diagnostic blocks_warning = elim diagnostic.severity [
  | error ↦ true
  | warning ↦ true
  | _ ↦ false
]

unfoldable pub evaluated_gate : BlockingLevel → ℕ → GateReport
evaluated_gate blocking count = record {
  blocking = blocking;
  status = if count == 0 then passed else gate_failed;
  blocking_diagnostics = some count;
}

abbrev pub closed_gate : BlockingLevel → GateReport
closed_gate blocking = record {
  blocking = blocking;
  status = not_evaluated;
  blocking_diagnostics = none;
}

abbrev pub blocks : BlockingLevel → Diagnostic → Bool
blocks blocking diagnostic = weighs diagnostic && is_blocking diagnostic blocking

abbrev pub contains : List Text → Text → Bool
contains ids id = any (λ other. same other id) ids

unfoldable pub evaluate_gate : Status → List Diagnostic → BlockingLevel → GateReport
unfolding evaluated_gate
evaluate_gate complete diagnostics blocking =
    evaluated_gate blocking (length (retain (blocks blocking) diagnostics))
evaluate_gate incomplete diagnostics blocking = closed_gate blocking
evaluate_gate failed diagnostics blocking = closed_gate blocking

-- `evaluate_baseline_gate`, with the ids that a delta introduces.
unfoldable pub evaluate_baseline_gate :
    Status → List Diagnostic → List Text → BlockingLevel → GateReport
unfolding evaluated_gate
evaluate_baseline_gate complete diagnostics introduced blocking = evaluated_gate blocking (
    length (
      retain (λ diagnostic. contains introduced diagnostic.id && blocks blocking diagnostic)
        diagnostics))
evaluate_baseline_gate incomplete diagnostics introduced blocking = closed_gate blocking
evaluate_baseline_gate failed diagnostics introduced blocking = closed_gate blocking

unfoldable pub force_baseline_gate : InspectReport → InspectReport
force_baseline_gate report = record report {
  introduced = none;
  gate = closed_gate report.gate.blocking;
}

abbrev pub restamped_by : Diagnostic → Option RuleLevel → Diagnostic
restamped_by diagnostic none = diagnostic
restamped_by diagnostic (some level) = record diagnostic { severity = canonical_severity level }

unfoldable pub apply_policy : List Diagnostic → PolicyPlan → List Diagnostic
unfolding canonical_severity
apply_policy diagnostics plan =
    map (λ diagnostic. restamped_by diagnostic (and_then diagnostic.code (restamp_level plan)))
      diagnostics

abbrev pub is_late : ReportError → Bool
is_late e = same e.code (codes "deadline-exceeded")

abbrev pub status_code : Status → GateStatus → ℕ
status_code complete passed = 0
status_code complete gate_failed = 1
status_code complete not_evaluated = 1
status_code incomplete gate = 1
status_code failed gate = 2

unfoldable pub exit_code : InspectReport → ℕ
exit_code report =
    if any is_late report.errors then 2 else status_code report.status report.gate.status

abbrev pub is_introduced : Option (List Text) → Diagnostic → Bool
is_introduced none diagnostic = true
is_introduced (some ids) diagnostic = contains ids diagnostic.id

abbrev pub never_blocks : BlockingLevel → Bool
never_blocks blocks_none = true
never_blocks blocks_error = false
never_blocks blocks_warning = false

unfoldable pub exit_code_with_warning : InspectReport → Option ℕ → ℕ
unfolding exit_code
exit_code_with_warning report none = exit_code report
exit_code_with_warning report (some warning_code) =
    let code = exit_code report in
    let warns =
      any (λ d. blocks blocks_warning d && is_introduced report.introduced d) report.diagnostics in
    if not (code == 0) || never_blocks report.gate.blocking
    then code
    else if warns
    then warning_code
    else 0
