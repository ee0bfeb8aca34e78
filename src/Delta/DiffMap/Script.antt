-- ===== src/Delta/DiffMap/Script.antt =====
-- Edits of a file, the hunks that `--unified=0` prints for them, and the line that a kept line moves to.
use rust_doctor.Prelude.{
  ℕ, suc, ◌+◌, ◌-◌, ◌≤◌, ◌≡◌, refl, Option, none, some, List, [], ◌∷◌, arith, leb, ◌==◌,
  if◌then◌else◌,
}
use rust_doctor.Delta.DiffMap.{Hunk, ℤ, difference, ◌+ℤ◌, add_signed, follow, replaces, is_above}

-- Lines that stay, or lines of the base that give place to lines of the current side.
pub data Edit : Type 0 where
  keep : ℕ → Edit
  change : ℕ → ℕ → Edit

-- The hunks of a script, with the lines of the two sides that are behind. A side that a hunk has no
-- lines of is named by the line before.
unfoldable pub hunks_of : List Edit → ℕ → ℕ → List Hunk
hunks_of [] o n = []
hunks_of (keep k ∷ s) o n = hunks_of s (o + k) (n + k)
hunks_of (change a b ∷ s) o n =
    record {
      old_start = if a == 0 then o else suc o;
      old_len = a;
      new_start = if b == 0 then n else suc n;
      new_len = b;
    }
    ∷ hunks_of s (o + a) (n + b)

-- The current line of a base line that the script keeps. What follows the script is kept.
unfoldable pub carried : List Edit → ℕ → ℕ → ℕ → Option ℕ
carried [] o n line = some (n + (line - o))
carried (keep k ∷ s) o n line =
    if leb line (o + k) then some (n + (line - o)) else carried s (o + k) (n + k) line
carried (change a b ∷ s) o n line =
    if leb line (o + a) then none else carried s (o + a) (n + b) line

-- Differences add up, and move a line by what they are.
pub difference-add : (a b c d : ℕ) → difference a b +ℤ difference c d ≡ difference (a + c) (b + d)
unfolding difference ◌+ℤ◌
difference-add a b c d = ground arith

pub add_signed-difference : (line a b : ℕ) → add_signed line (difference a b) ≡ line + a - b
unfolding difference add_signed
add_signed-difference line a b = ground arith

-- A hunk that starts at or below a line moves it no more.
pub follow-above :
    (s : List Edit) (o n line : ℕ) (shift : ℤ)
    → line ≤ o
    → follow (hunks_of s o n) line shift ≡ add_signed line shift
unfolding hunks_of follow replaces is_above
follow-above [] o n line shift h = refl
follow-above (keep k ∷ s) o n line shift h = follow-above s (o + k) (n + k) line shift (omega arith)
follow-above (change a b ∷ s) o n line shift h =
    ground (arith, follow-above s (o + a) (n + b) line shift)
