-- ===== src/Report.antt =====
-- report.rs: the findings that the other parts read. A text is the list of its code points, whose
-- lexicographic order is the byte order of its UTF-8 form. Of `Diagnostic` the fields `related`,
-- `complexity`, `similarity_basis_points` and `suggestion` are left out, as no modelled code reads
-- them, and `package` is spelled `owner`, as antt reserves the word.
use Prim.Native.Char.{code}
use Prim.Native.String.{String}
use rust_doctor.Prelude.{
  ℕ, compare, Ordering, ◌≡◌, Bool, ◌&&◌, Option, List, [], ◌∷◌, arith, Ord, converse, is_none,
}

abbrev pub Text : Type 0
Text = List ℕ

-- The code points of a literal.
abbrev pub codes : String → Text
codes String.[] = []
codes (String.◌∷◌ c s) = code c ∷ codes s

pub data Severity : Type 0 where
  error warning info unknown : Severity

unfoldable pub rank : Severity → ℕ
rank error = 0
rank warning = 1
rank info = 2
rank unknown = 3

pub data DiagnosticSource : Type 0 where
  rustc clippy rust_doctor_source : DiagnosticSource

pub data DiagnosticContext : Type 0 where
  tests benchmark example build_script : DiagnosticContext

pub data UnscoredReason : Type 0 where
  uncatalogued : UnscoredReason

pub data Status : Type 0 where
  complete incomplete failed : Status

pub record DiagnosticSpan : Type 0 where
  pub line_start : ℕ
  pub column_start : ℕ
  pub line_end : ℕ
  pub column_end : ℕ

pub record Diagnostic : Type 0 where
  pub id : Text
  pub source : DiagnosticSource
  pub code : Option Text
  pub base_severity : Severity
  pub severity : Severity
  pub category : Option Text
  pub message : Text
  pub help : Option Text
  pub owner : Option Text
  pub target : Option Text
  pub context : Option DiagnosticContext
  pub unscored : Option UnscoredReason
  pub path : Option Text
  pub span : Option DiagnosticSpan
  pub occurrences : ℕ

-- `DiagnosticContext::weighs`.
unfoldable pub weighs : Diagnostic → Bool
weighs diagnostic = is_none diagnostic.context && is_none diagnostic.unscored

-- The derived order of `DiagnosticSource`: its constructors' order.
abbrev pub position : DiagnosticSource → ℕ
position rustc = 0
position clippy = 1
position rust_doctor_source = 2

abbrev pub cmp_source : DiagnosticSource → DiagnosticSource → Ordering
cmp_source a b = compare (position a) (position b)

pub source_self : (a : DiagnosticSource) → cmp_source a a ≡ Ordering.eq
source_self a = ground arith

pub source_eq : (a b : DiagnosticSource) → cmp_source a b ≡ Ordering.eq → a ≡ b
source_eq a b h = ground arith

pub source_swap : (a b : DiagnosticSource) → cmp_source b a ≡ converse (cmp_source a b)
source_swap a b = ground arith

pub source_trans :
    (a b c : DiagnosticSource)
    → cmp_source a b ≡ Ordering.lt
    → cmp_source b c ≡ Ordering.lt
    → cmp_source a c ≡ Ordering.lt
source_trans a b c p q = ground arith

instance abbrev pub source_ord : Ord DiagnosticSource
source_ord = record {
  cmp = cmp_source;
  cmp_self = source_self;
  cmp_eq = source_eq;
  cmp_swap = source_swap;
  cmp_trans = source_trans;
}
