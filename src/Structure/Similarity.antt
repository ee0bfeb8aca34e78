-- ===== src/Structure/Similarity.antt =====
-- structure/normalize.rs: how alike two sorted lists of shingles are. Counters of 64 bits are cut off as
-- the code does.
use rust_doctor.Prelude.{
  ℕ, suc, ◌+◌, ◌-◌, ◌*◌, ◌/◌, ◌≤◌, ◌<◌, inl, inr, List, [], ◌∷◌, arith, min, ◌==◌, if◌then◌else◌,
  length, compare, Ordering, Bool-cases,
}
use native.Mathlib.Nat.{le-div_iff_mul-le}
use rust_doctor.Audit.Counts.{word_max}

abbrev pub half_word_max : ℕ
half_word_max = 65535

-- The loop of `similarity`, on the rests of both lists.
unfoldable pub shared : List ℕ → List ℕ → ℕ
shared [] right = 0
shared (x ∷ left) [] = 0
shared (x ∷ left) (y ∷ right) = elim (compare x y) [
  | Ordering.lt ↦ shared left (y ∷ right)
  | Ordering.gt ↦ shared (x ∷ left) right
  | Ordering.eq ↦ suc (shared left right)
]

unfoldable pub similarity : List ℕ → List ℕ → ℕ
unfolding shared
similarity left right =
    let total = min (length left + length right) word_max in
    let score = min (min (2 * shared left right) word_max * 10000) word_max / total in
    if total == 0 then 0 else min score half_word_max

unfoldable pub largest_comparable : ℕ → ℕ → ℕ
largest_comparable size threshold =
    if threshold == 0 then word_max else min ((20000 - threshold) * size) word_max / threshold

shared_le :
    (left right : List ℕ) → (shared left right ≤ length left) × (shared left right ≤ length right)
unfolding shared
shared_le [] right = (omega arith, omega arith)
shared_le (x ∷ left) [] = (omega arith, omega arith)
shared_le (x ∷ left) (y ∷ right) =
    ground (arith, shared_le left (y ∷ right), shared_le (x ∷ left) right, shared_le left right)

total_le : (n total k : ℕ) → 0 < total → k ≤ min (n / total) half_word_max → k * total ≤ n
total_le n total k z h = (le-div_iff_mul-le z).0 (omega arith)

-- The threshold of near duplicates.
abbrev pub near_duplicate_threshold : ℕ
near_duplicate_threshold = 8000

-- Where twelve thousand times the length of the left list is within a word, a right list that is at
-- least as similar to it as the threshold is no longer than the largest comparable length.
pub similarity-largest_comparable :
    (left right : List ℕ)
    → 12000 * length left ≤ word_max
    → near_duplicate_threshold ≤ similarity left right
    → length right ≤ largest_comparable (length left) near_duplicate_threshold
unfolding similarity largest_comparable
similarity-largest_comparable left right b h =
    let total : ℕ = min (length left + length right) word_max in
    elim (Bool-cases (total == 0)) [
      | inl e ↦ absurd (ground arith)
      | inr e ↦
          let n : ℕ = min (min (2 * shared left right) word_max * 10000) word_max in
          let reached : 8000 * total ≤ n = total_le n total 8000 (ground arith) (ground arith) in
          omega (arith, reached, shared_le left right)
    ]
