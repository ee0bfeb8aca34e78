-- ===== src/GitScope.antt =====
-- git_scope/lines.rs and git_scope/items.rs: the changed lines of a file, and whether the lines of an
-- item hold one of them.
pub mod Touched
pub mod NewPath
pub mod Patch
use rust_doctor.Prelude.{
  ℕ, zero, suc, ◌+◌, ◌-◌, Bool, true, false, not, ◌&&◌, ◌||◌, List, leb, min, max, any,
}
use rust_doctor.Audit.Counts.{saturating_add}

pub record FileChanges : Type 0 where
  pub ranges : List (ℕ × ℕ)
  pub deletions : List ℕ

pub record ItemLines : Type 0 where
  pub first : ℕ
  pub last : ℕ
  pub excluded : List (ℕ × ℕ)

abbrev pub within : ℕ → ℕ × ℕ → Bool
within line (low, high) = leb low line && leb line high

-- The closure `own`.
unfoldable pub owns : ItemLines → ℕ → Bool
owns item line = within line (item.first, item.last) && not (any (within line) item.excluded)

-- `(low..=high).any`, as the number of lines and the first.
abbrev pub any_from : ℕ → ℕ → (ℕ → Bool) → Bool
any_from zero low p = false
any_from (suc n) low p = p low || any_from n (suc low) p

abbrev pub any_between : ℕ → ℕ → (ℕ → Bool) → Bool
any_between low high p = any_from (suc high - low) low p

unfoldable pub holds : ItemLines → FileChanges → Bool
unfolding owns
holds item changes =
    any (λ range. any_between (max range.0 item.first) (min range.1 item.last) (owns item))
      changes.ranges
    || any (λ point. owns item point && owns item (saturating_add point 1)) changes.deletions
