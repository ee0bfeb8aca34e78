-- ===== src/GitScope/Touched.antt =====
-- git_scope/items.rs: `ItemLines::holds` against the lines that an item owns.
use rust_doctor.Prelude.{
  Member, any_to, any-Member, ℕ, zero, suc, ◌+◌, ◌≤◌, ◌<◌, ◌≡◌, ◌↔◌, ◌⊎◌, inl, inr, refl, Bool,
  true, false, ◌&&◌, ◌||◌, arith, min, max, any, Bool-cases, subst, sym, ◌∙◌, ◌==◌,
}
use mathlib.Core.Bool.{false≢true}
use rust_doctor.Audit.Counts.{saturating_add}
use rust_doctor.GitScope.{FileChanges, ItemLines, within, owns, any_from, any_between, holds}

module _ (p : ℕ → Bool) where
  line_to :
      (n low : ℕ)
      → any_from n low p ≡ true
      → (line : ℕ) × (low ≤ line) × (line < low + n) × (p line ≡ true)
  line_to zero low h = absurd (ground arith)
  line_to (suc n) low h = elim (Bool-cases (p low)) [
    | inl e ↦ (low, omega arith, omega arith, e)
    | inr e ↦
        let (line, a, b, q) = line_to n (suc low) (ground arith) in
        (line, omega arith, omega arith, q)
  ]

  other_line : (low line : ℕ) → low ≤ line → p low ≡ false → p line ≡ true → suc low ≤ line
  other_line low line a e h = elim (Bool-cases (low == line)) [
    | inl q ↦
        let same : low ≡ line = ground arith in
        absurd (false≢true (sym (subst (λ l. p l ≡ false) same e) ∙ h))
    | inr q ↦ ground arith
  ]

  line_from :
      (n low line : ℕ) → low ≤ line → line < low + n → p line ≡ true → any_from n low p ≡ true
  line_from zero low line a b h = absurd (omega arith)
  line_from (suc n) low line a b h = elim (Bool-cases (p low)) [
    | inl e ↦ rw e refl
    | inr e ↦ rw e (line_from n (suc low) line (other_line low line a e h) (omega arith) h)
  ]

-- A changed line that the item owns, and a place of deletion of which it owns both lines.
abbrev pub OwnsLine : ItemLines → FileChanges → Type 0
OwnsLine item changes =
    (range : ℕ × ℕ) × (line : ℕ) × Member range changes.ranges
    × (within line range ≡ true)
    × (owns item line ≡ true)

abbrev pub OwnsPoint : ItemLines → FileChanges → Type 0
OwnsPoint item changes =
    (point : ℕ) × Member point changes.deletions
    × (owns item point ≡ true)
    × (owns item (saturating_add point 1) ≡ true)

owns-within :
    (item : ItemLines) (line : ℕ) → owns item line ≡ true → (item.first ≤ line) × (line ≤ item.last)
unfolding owns
owns-within item line h = ground arith

range_to :
    (item : ItemLines) (range : ℕ × ℕ)
    → any_between (max range.0 item.first) (min range.1 item.last) (owns item) ≡ true
    → (line : ℕ) × (within line range ≡ true) × (owns item line ≡ true)
range_to item (low, high) h =
    let (line, a, b, q) = line_to (owns item) _ _ h in (line, ground (arith), q)

range_from :
    (item : ItemLines) (range : ℕ × ℕ) (line : ℕ)
    → within line range ≡ true
    → owns item line ≡ true
    → any_between (max range.0 item.first) (min range.1 item.last) (owns item) ≡ true
range_from item (low, high) line w h =
    let (a, b) = owns-within item line h in
    let lower : low ≤ line = ground arith in
    let upper : line ≤ high = ground arith in
    line_from (owns item) _ _ line (omega arith) (omega arith) h

either : (a b : Bool) → (a || b) ≡ true → (a ≡ true) ⊎ (b ≡ true)
either a b h = ground arith

both : (a b : Bool) → (a && b) ≡ true → (a ≡ true) × (b ≡ true)
both a b h = ground arith

module _ (item : ItemLines) (changes : FileChanges) where
  abbrev in_range : ℕ × ℕ → Bool
  in_range range = any_between (max range.0 item.first) (min range.1 item.last) (owns item)

  abbrev at_point : ℕ → Bool
  at_point point = owns item point && owns item (saturating_add point 1)

  held_to : holds item changes ≡ true → OwnsLine item changes ⊎ OwnsPoint item changes
  unfolding holds
  held_to h = elim (either (any in_range changes.ranges) (any at_point changes.deletions) h) [
    | inl e ↦
        let (range, m, q) = any_to in_range changes.ranges e in
        let (line, w, o) = range_to item range q in inl (range, line, m, w, o)
    | inr e ↦
        let (point, m, q) = any_to at_point changes.deletions e in
        let (a, b) = both _ _ q in inr (point, m, a, b)
  ]

  held_from : OwnsLine item changes ⊎ OwnsPoint item changes → holds item changes ≡ true
  unfolding holds
  held_from (inl (range, line, m, w, o)) =
      rw (any-Member in_range changes.ranges range m (range_from item range line w o)) refl
  held_from (inr (point, m, a, b)) =
      ground (arith, any-Member at_point changes.deletions point m (rw (a, b) refl))

  -- The lines of an item hold the changes of a file just when the item owns a line of a changed
  -- range, or owns the line before and the line after a place of deletion.
  pub holds-owns : (holds item changes ≡ true) ↔ (OwnsLine item changes ⊎ OwnsPoint item changes)
  holds-owns = (held_to, held_from)
