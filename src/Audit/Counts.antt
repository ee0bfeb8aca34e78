-- ===== src/Audit/Counts.antt =====
-- audit.rs: the counters of findings by severity, with saturating arithmetic on 64-bit `usize`.
use rust_doctor.Prelude.{ℕ, ◌+◌, ◌-◌, ◌^◌, ◌≤◌, ◌≡◌, Bool, true, ◌&&◌, min, arith, ◌==◌, leb}
use rust_doctor.Report.{Severity, error, warning, info, unknown}

abbrev pub word_max : ℕ
word_max = 2 ^ 64 - 1

-- `saturating_add` and `saturating_mul` of a 64-bit word.
abbrev pub saturating_add : ℕ → ℕ → ℕ
saturating_add a b = min (a + b) word_max

pub record SeverityCounts : Type 0 where
  pub errors : ℕ
  pub warnings : ℕ
  pub infos : ℕ
  pub unknowns : ℕ
  pub total : ℕ

abbrev pub no_counts : SeverityCounts
no_counts = record { errors = 0; warnings = 0; infos = 0; unknowns = 0; total = 0 }

-- The greatest counters.
abbrev pub word_counts : SeverityCounts
word_counts = record {
  errors = word_max;
  warnings = word_max;
  infos = word_max;
  unknowns = word_max;
  total = word_max;
}

unfoldable pub add : Severity → ℕ → SeverityCounts → SeverityCounts
add error n c = record c { errors = saturating_add c.errors n; total = saturating_add c.total n }
add warning n c = record c {
  warnings = saturating_add c.warnings n;
  total = saturating_add c.total n;
}
add info n c = record c { infos = saturating_add c.infos n; total = saturating_add c.total n }
add unknown n c = record c {
  unknowns = saturating_add c.unknowns n;
  total = saturating_add c.total n;
}

unfoldable pub merge : SeverityCounts → SeverityCounts → SeverityCounts
merge a b = record {
  errors = saturating_add a.errors b.errors;
  warnings = saturating_add a.warnings b.warnings;
  infos = saturating_add a.infos b.infos;
  unknowns = saturating_add a.unknowns b.unknowns;
  total = saturating_add a.total b.total;
}

unfoldable pub is_coherent : SeverityCounts → Bool
is_coherent c =
    saturating_add (saturating_add (saturating_add c.errors c.warnings) c.infos) c.unknowns
    == c.total

unfoldable pub covers : SeverityCounts → SeverityCounts → Bool
covers a b =
    leb b.errors a.errors
    && leb b.warnings a.warnings
    && leb b.infos a.infos
    && leb b.unknowns a.unknowns
    && leb b.total a.total

-- Counting keeps the total equal to the saturated sum of the buckets, at any size.
pub add-is_coherent :
    (s : Severity) (n : ℕ) (c : SeverityCounts)
    → is_coherent c ≡ true
    → is_coherent (add s n c) ≡ true
unfolding is_coherent add
add-is_coherent error n c h = ground arith
add-is_coherent warning n c h = ground arith
add-is_coherent info n c h = ground arith
add-is_coherent unknown n c h = ground arith

-- The merge of two coherent counters is coherent, saturation included.
merge-is_coherent :
    (a b : SeverityCounts)
    → is_coherent a ≡ true
    → is_coherent b ≡ true
    → is_coherent (merge a b) ≡ true
unfolding is_coherent merge
merge-is_coherent a b h k = ground arith

-- Counting the same severity on both sides, and at least as much above, keeps the cover.
pub add-covers :
    (s : Severity) (n m : ℕ) (a b : SeverityCounts)
    → m ≤ n
    → covers a b ≡ true
    → covers (add s n a) (add s m b) ≡ true
unfolding covers add
add-covers error n m a b le h = ground arith
add-covers warning n m a b le h = ground arith
add-covers info n m a b le h = ground arith
add-covers unknown n m a b le h = ground arith

-- Counting above alone keeps it for counters that have not saturated past the word.
pub add-covers_left :
    (s : Severity) (n : ℕ) (a b : SeverityCounts)
    → covers a b ≡ true
    → covers word_counts b ≡ true
    → covers (add s n a) b ≡ true
unfolding covers add
add-covers_left error n a b h w = ground arith
add-covers_left warning n a b h w = ground arith
add-covers_left info n a b h w = ground arith
add-covers_left unknown n a b h w = ground arith
