-- ===== src/Tests/Data.antt =====
-- Findings and candidates for the tests.
use rust_doctor.Prelude.{ℕ, none, some, List, [], ◌∷◌}
use rust_doctor.Report.{
  Text, codes, warning, DiagnosticSource, clippy, rust_doctor_source, Diagnostic,
}
use rust_doctor.Delta.Matching.{Candidate}

abbrev pub finding : DiagnosticSource → Text → Text → ℕ → Diagnostic
finding source code path line = record {
  id = code;
  source = source;
  code = some code;
  base_severity = warning;
  severity = warning;
  category = some (codes "security");
  message = codes "message";
  help = none;
  owner = some (codes "app");
  target = none;
  context = none;
  unscored = none;
  path = some path;
  span = some (record { line_start = line; column_start = 1; line_end = line; column_end = 9 });
  occurrences = 2;
}

abbrev pub findings : List Diagnostic
findings =
    finding clippy (codes "clippy::a") (codes "src/a.rs") 4
    ∷ finding rust_doctor_source (codes "rust_doctor::b") (codes "src/b.rs") 7
    ∷ []

abbrev pub candidate : Text → ℕ → Candidate
candidate path line = record {
  diagnostic = finding clippy (codes "clippy::a") path line;
  fingerprint = none;
  place = some path;
  line = line;
}

abbrev pub baseline : List Candidate
baseline = candidate (codes "src/a.rs") 4 ∷ candidate (codes "src/a.rs") 9 ∷ []

abbrev pub current : List Candidate
current = candidate (codes "src/a.rs") 5 ∷ candidate (codes "src/c.rs") 1 ∷ []
