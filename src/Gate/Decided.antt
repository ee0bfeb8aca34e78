-- ===== src/Gate/Decided.antt =====
-- report.rs and report/assembly.rs: when the exit code is zero.
use rust_doctor.Prelude.{
  any-same-Member, Member, any_to, any-Member, Every, Option, none, ◌⊎◌, same_iff, list_ord,
  nat_ord, ℕ, ◌≡◌, ◌≢◌, ◌↔◌, refl, ◌∙◌, inl, inr, Bool, true, false, not, ◌&&◌, some, List, [], ◌∷◌,
  any, retain, length, arith, ◌==◌, if◌then◌else◌, Bool-cases,
}
use rust_doctor.Report.{
  weighs, error, warning, codes, Text, Diagnostic, Status, complete, incomplete, failed,
}
use rust_doctor.Policy.Levels.{BlockingLevel, blocks_error, blocks_warning}
use rust_doctor.Gate.{
  passed, ReportError, is_blocking, GateReport, InspectReport, blocks, contains, evaluated_gate,
  evaluate_gate, evaluate_baseline_gate, is_late, status_code, exit_code, is_introduced,
  exit_code_with_warning,
}

length-retain_zero :
    (p : Diagnostic → Bool) (ds : List Diagnostic) → (length (retain p ds) == 0) ≡ not (any p ds)
length-retain_zero p [] = refl
length-retain_zero p (d ∷ ds) = ground (arith, length-retain_zero p ds)

-- What is decided of a status, where a complete one is decided by the findings of a kind.
abbrev Decides : (Status → GateReport) → (Diagnostic → Bool) → List Diagnostic → Type 0
Decides gate p ds =
    (late : Bool) (status : Status)
    → ((if late then 2 else status_code status (gate status).status) ≡ 0)
      ↔ ((late ≡ false) × (status ≡ complete) × (any p ds ≡ false))

decided :
    (gate : Status → GateReport) (blocking : BlockingLevel) (p : Diagnostic → Bool)
    (ds : List Diagnostic)
    → gate complete ≡ evaluated_gate blocking (length (retain p ds))
    → Decides gate p ds
unfolding evaluated_gate
decided gate blocking p ds h true status =
    ((λ e. absurd (ground arith)), (λ e. absurd (ground arith)))
decided gate blocking p ds h false incomplete =
    ((λ e. absurd (ground arith)), (λ e. absurd (ground arith)))
decided gate blocking p ds h false failed =
    ((λ e. absurd (ground arith)), (λ e. absurd (ground arith)))
decided gate blocking p ds h false complete = elim (Bool-cases (any p ds)) [
  | inl e ↦
      let q : (length (retain p ds) == 0) ≡ false = length-retain_zero p ds ∙ rw e refl in
      rw (h, q) ((λ k. absurd (ground arith)), (λ k. absurd (ground arith)))
  | inr e ↦
      let q : (length (retain p ds) == 0) ≡ true = length-retain_zero p ds ∙ rw e refl in
      rw (h, q) ((λ k. (refl, refl, e)), (λ k. refl))
]

-- Where the gate of a report is that of its status and findings, the exit code is zero just when no
-- error is a passed deadline, the status is complete, and no finding that weighs blocks.
pub exit_code-evaluate_gate :
    (report : InspectReport) (blocking : BlockingLevel)
    → report.gate ≡ evaluate_gate report.status report.diagnostics blocking
    → (exit_code report ≡ 0) ↔ (
        (any is_late report.errors ≡ false)
        × (report.status ≡ complete)
        × (any (blocks blocking) report.diagnostics ≡ false))
unfolding exit_code evaluate_gate
exit_code-evaluate_gate report blocking h = rw h (
    decided (λ status. evaluate_gate status report.diagnostics blocking) blocking (blocks blocking)
      report.diagnostics refl (any is_late report.errors) report.status)

abbrev pub blocks_newly : List Text → BlockingLevel → Diagnostic → Bool
blocks_newly introduced blocking diagnostic =
    contains introduced diagnostic.id && blocks blocking diagnostic

-- Where the gate of a report is the baseline gate of its status and findings, the exit code is zero
-- just when no error is a passed deadline, the status is complete, and no introduced finding that
-- weighs blocks.
pub exit_code-evaluate_baseline_gate :
    (report : InspectReport) (introduced : List Text) (blocking : BlockingLevel)
    → report.gate ≡ evaluate_baseline_gate report.status report.diagnostics introduced blocking
    → (exit_code report ≡ 0) ↔ (
        (any is_late report.errors ≡ false)
        × (report.status ≡ complete)
        × (any (blocks_newly introduced blocking) report.diagnostics ≡ false))
unfolding exit_code evaluate_baseline_gate
exit_code-evaluate_baseline_gate report introduced blocking h = rw h (
    decided (λ status. evaluate_baseline_gate status report.diagnostics introduced blocking)
      blocking (blocks_newly introduced blocking) report.diagnostics refl
      (any is_late report.errors) report.status)

-- A finding that is new in a report: with no delta each one is, with a delta those that it lists.
abbrev pub IsNew : Option (List Text) → Text → Type 0
IsNew none id = Unit
IsNew (some ids) id = Member id ids

-- A finding that weighs, is an error or a warning, and is new.
abbrev pub Warns : Option (List Text) → Diagnostic → Type 0
Warns introduced d =
    (d.context ≡ none)
    × (d.unscored ≡ none)
    × ((d.severity ≡ error) ⊎ (d.severity ≡ warning))
    × IsNew introduced d.id

is_introduced-IsNew :
    (introduced : Option (List Text)) (d : Diagnostic)
    → (is_introduced introduced d ≡ true) ↔ IsNew introduced d.id
is_introduced-IsNew none d = ((λ h. tt), (λ h. refl))
is_introduced-IsNew (some ids) d = any-same-Member ids d.id

abbrev warns_of : Option (List Text) → Diagnostic → Bool
warns_of introduced d = blocks blocks_warning d && is_introduced introduced d

warns_of-Warns :
    (introduced : Option (List Text)) (d : Diagnostic)
    → (warns_of introduced d ≡ true) ↔ Warns introduced d
unfolding weighs is_blocking
warns_of-Warns introduced d = (
  (λ h. (
    ground arith,
    ground arith,
    ground arith,
    (is_introduced-IsNew introduced d).0 (ground arith),
  )),
  (λ (c, u, s, n).
      let i : is_introduced introduced d ≡ true = (is_introduced-IsNew introduced d).1 n in
      ground arith),
)

late_iff :
    (errors : List ReportError)
    → (any is_late errors ≡ false) ↔ Every (λ e. e.code ≢ codes "deadline-exceeded") errors
late_iff [] = ((λ h. tt), (λ h. refl))
late_iff (e ∷ es) = (
  (λ h. (
    (λ q. absurd (ground (arith, (same_iff e.code (codes "deadline-exceeded")).1 q))),
    (late_iff es).0 (ground arith),
  )),
  (λ (q, h). elim (Bool-cases (is_late e)) [
    | inl k ↦ absurd (q ((same_iff e.code (codes "deadline-exceeded")).0 k))
    | inr k ↦ rw k ((late_iff es).1 h)
  ]),
)

warned :
    (report : InspectReport) (warning_code : ℕ)
    → warning_code ≢ exit_code report
    → (exit_code_with_warning report (some warning_code) ≡ warning_code) ↔ (
        (any is_late report.errors ≡ false)
        × (report.status ≡ complete)
        × (report.gate.status ≡ passed)
        × ((report.gate.blocking ≡ blocks_error) ⊎ (report.gate.blocking ≡ blocks_warning))
        × (any (warns_of report.introduced) report.diagnostics ≡ true))
unfolding exit_code_with_warning exit_code
warned report warning_code h = ground arith

-- A warning code that is not the exit code is given just when no error is a passed deadline, the
-- status is complete, the gate passed and can block, and some finding has neither a context nor a
-- reason to be left out of the score, is an error or a warning and, where there is a delta, is one
-- that the delta introduces.
pub exit_code_with_warning_iff :
    (report : InspectReport) (warning_code : ℕ)
    → warning_code ≢ exit_code report
    → (exit_code_with_warning report (some warning_code) ≡ warning_code) ↔ (
        Every (λ e. e.code ≢ codes "deadline-exceeded") report.errors
        × (report.status ≡ complete)
        × (report.gate.status ≡ passed)
        × ((report.gate.blocking ≡ blocks_error) ⊎ (report.gate.blocking ≡ blocks_warning))
        × ((d : Diagnostic) × Member d report.diagnostics × Warns report.introduced d))
exit_code_with_warning_iff report warning_code h =
    let w = warned report warning_code h in
    let p = warns_of report.introduced in
    (
      (λ k.
          let (late, status, gate, blocking, found) = w.0 k in
          let (d, m, e) = any_to p report.diagnostics found in
          (
            (late_iff report.errors).0 late,
            status,
            gate,
            blocking,
            (d, m, (warns_of-Warns report.introduced d).0 e),
          )),
      (λ (late, status, gate, blocking, found).
          let (d, m, e) = found in
          w.1 (
            (late_iff report.errors).1 late,
            status,
            gate,
            blocking,
            any-Member p report.diagnostics d m ((warns_of-Warns report.introduced d).1 e),
          )),
    )
