-- ===== src/Tests/Gates.antt =====
-- The theorems on gates and exit codes.
use rust_doctor.Prelude.{
  Every, Member, ◌⊎◌, ◌≢◌, ◌≡◌, ◌↔◌, refl, false, none, some, [], ◌∷◌, any, arith,
}
use rust_doctor.Report.{codes, complete, Diagnostic}
use rust_doctor.Policy.Levels.{blocks_error, blocks_warning}
use rust_doctor.Gate.{
  passed, InspectReport, blocks, evaluate_gate, evaluate_baseline_gate, evaluated_gate, is_late,
  exit_code, exit_code_with_warning,
}
use rust_doctor.Gate.Decided.{
  Warns, blocks_newly, exit_code-evaluate_gate, exit_code-evaluate_baseline_gate,
  exit_code_with_warning_iff,
}
use rust_doctor.Tests.Data.{findings}

abbrev report : InspectReport
report = record {
  status = complete;
  diagnostics = findings;
  errors = [];
  gate = evaluate_gate complete findings blocks_error;
  introduced = none;
}

exit_code-evaluate_gate_example : (exit_code report ≡ 0) ↔ (
    (any is_late report.errors ≡ false)
    × (report.status ≡ complete)
    × (any (blocks blocks_error) report.diagnostics ≡ false))
exit_code-evaluate_gate_example = exit_code-evaluate_gate report blocks_error refl

abbrev compared : InspectReport
compared = record {
  status = complete;
  diagnostics = findings;
  errors = [];
  gate = evaluate_baseline_gate complete findings (codes "clippy::a" ∷ []) blocks_warning;
  introduced = some (codes "clippy::a" ∷ []);
}

exit_code-evaluate_baseline_gate_example : (exit_code compared ≡ 0) ↔ (
    (any is_late compared.errors ≡ false)
    × (compared.status ≡ complete)
    × (any (blocks_newly (codes "clippy::a" ∷ []) blocks_warning) compared.diagnostics ≡ false))
exit_code-evaluate_baseline_gate_example =
    exit_code-evaluate_baseline_gate compared (codes "clippy::a" ∷ []) blocks_warning refl

exit_code_with_warning_iff_example : (exit_code_with_warning report (some 3) ≡ 3) ↔ (
    Every (λ e. e.code ≢ codes "deadline-exceeded") report.errors
    × (report.status ≡ complete)
    × (report.gate.status ≡ passed)
    × ((report.gate.blocking ≡ blocks_error) ⊎ (report.gate.blocking ≡ blocks_warning))
    × ((d : Diagnostic) × Member d report.diagnostics × Warns report.introduced d))
unfolding exit_code evaluate_gate evaluated_gate
exit_code_with_warning_iff_example = exit_code_with_warning_iff report 3 (ground arith)
