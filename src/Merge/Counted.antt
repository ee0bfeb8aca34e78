-- ===== src/Merge/Counted.antt =====
-- report/normalize.rs: the occurrences of merged findings.
use rust_doctor.Prelude.{
  ℕ, ◌+◌, ◌≡◌, refl, inl, inr, Option, none, some, List, [], ◌∷◌, arith, if◌then◌else◌, same,
  same_iff, list_ord, nat_ord, Bool-cases, Option-cases,
}
use rust_doctor.BTree.{Map, get, get-entry, get-modify}
use rust_doctor.Report.{Text, Diagnostic}
use rust_doctor.Merge.{joined, masked, merge_diagnostic, merge_all}

-- The occurrences of a fingerprint, in a list and in what is merged.
abbrev pub occurrences_of : Text → List Diagnostic → ℕ
occurrences_of id [] = 0
occurrences_of id (d ∷ ds) = (if same id d.id then d.occurrences else 0) + occurrences_of id ds

abbrev pub counted : Option Diagnostic → ℕ
counted none = 0
counted (some d) = d.occurrences

merge_diagnostic-counted :
    (mask : Text → Text) (m : Map Text Diagnostic) (d : Diagnostic) (id : Text)
    → counted (get id (merge_diagnostic mask m d))
      ≡ counted (get id m) + (if same id d.id then d.occurrences else 0)
unfolding merge_diagnostic joined
merge_diagnostic-counted mask m d id = elim (Bool-cases (same id d.id)) [
  | inl q ↦
      let own : id ≡ d.id = (same_iff id d.id).0 q in
      elim (Option-cases (get d.id m)) [
        | inl e ↦
            rw (e, get-entry id d.id (masked mask d) (λ held. held) m, q, own, e, merge_diagnostic)
              (omega arith)
        | inr (held, e) ↦
            rw (e, merge_diagnostic, get-modify id d.id (λ x. joined x d) m, q, own, e) refl
      ]
  | inr q ↦ elim (Option-cases (get d.id m)) [
    | inl e ↦
        rw (e, get-entry id d.id (masked mask d) (λ held. held) m, q, merge_diagnostic)
          (omega arith)
    | inr (held, e) ↦
        rw (e, merge_diagnostic, get-modify id d.id (λ x. joined x d) m, q) (omega arith)
  ]
]

-- After findings are merged into a map, the occurrences under any fingerprint are those that the
-- map had under it and those of the findings with that fingerprint.
pub merge_all-counted :
    (mask : Text → Text) (merged : Map Text Diagnostic) (diagnostics : List Diagnostic) (id : Text)
    → counted (get id (merge_all mask merged diagnostics))
      ≡ counted (get id merged) + occurrences_of id diagnostics
merge_all-counted mask m [] id = omega arith
merge_all-counted mask m (d ∷ ds) id = omega (
  arith,
  merge_all-counted mask (merge_diagnostic mask m d) ds id,
  merge_diagnostic-counted mask m d id,
)
