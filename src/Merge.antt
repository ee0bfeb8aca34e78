-- ===== src/Merge.antt =====
-- report/normalize.rs, `merge_diagnostic`: findings of one fingerprint become one. The function that
-- masks credentials in a help text is an argument.
pub mod Counted
use rust_doctor.Prelude.{
  ℕ, ◌+◌, ◌≡◌, Bool, true, false, Option, none, some, List, [], ◌∷◌, if◌then◌else◌, same,
  option_ord, list_ord, nat_ord, cmp_option, cmp_list,
}
use rust_doctor.BTree.{Map, get, entry, modify}
use rust_doctor.Report.{Text, Diagnostic, DiagnosticContext}

abbrev pub same_context : DiagnosticContext → DiagnosticContext → Bool
same_context DiagnosticContext.tests DiagnosticContext.tests = true
same_context DiagnosticContext.benchmark DiagnosticContext.benchmark = true
same_context DiagnosticContext.example DiagnosticContext.example = true
same_context DiagnosticContext.build_script DiagnosticContext.build_script = true
same_context _ _ = false

-- `merge_optional_context`, by the equality of what is held.
unfoldable pub merge_optional_context {ℓ} :
    {A : Type ℓ} → (A → A → Bool) → Option A → Option A → Option A
merge_optional_context equal none incoming = none
merge_optional_context equal (some a) none = none
merge_optional_context equal (some a) (some b) = if equal a b then some a else none

-- A finding that joins one that is there.
unfoldable pub joined : Diagnostic → Diagnostic → Diagnostic
unfolding merge_optional_context
joined existing diagnostic = record existing {
  occurrences = existing.occurrences + diagnostic.occurrences;
  owner = merge_optional_context same existing.owner diagnostic.owner;
  target = merge_optional_context same existing.target diagnostic.target;
  context = merge_optional_context same_context existing.context diagnostic.context;
}

abbrev pub masked : (Text → Text) → Diagnostic → Diagnostic
masked mask diagnostic = record diagnostic {
  help = elim diagnostic.help [ none ↦ none | some help ↦ some (mask help) ];
}

unfoldable pub merge_diagnostic :
    (Text → Text) → Map Text Diagnostic → Diagnostic → Map Text Diagnostic
unfolding joined
merge_diagnostic mask merged diagnostic = elim (get diagnostic.id merged) [
  | some existing ↦ modify diagnostic.id (λ held. joined held diagnostic) merged
  | none ↦ entry diagnostic.id (masked mask diagnostic) (λ held. held) merged
]

abbrev pub merge_all : (Text → Text) → Map Text Diagnostic → List Diagnostic → Map Text Diagnostic
merge_all mask merged [] = merged
merge_all mask merged (d ∷ ds) = merge_all mask (merge_diagnostic mask merged d) ds
