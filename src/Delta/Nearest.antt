-- ===== src/Delta/Nearest.antt =====
-- delta.rs, `nearest`: the free finding whose line is nearest to a line. A slot is a pair of a line
-- and an index; the set of free slots is a list in slot order.
use rust_doctor.Prelude.{
  ℕ, ◌-◌, ◌≡◌, refl, Bool, not, ◌&&◌, ◌||◌, Option, none, some, List, [], ◌∷◌, ltb, leb, ◌==◌,
  if◌then◌else◌, find, retain, or,
}

abbrev pub Slot : Type 0
Slot = ℕ × ℕ

abbrev pub slot_before : Slot → Slot → Bool
slot_before (l, i) (m, j) = ltb l m || (l == m && ltb i j)

abbrev pub slot_same : Slot → Slot → Bool
slot_same (l, i) (m, j) = l == m && i == j

-- `BTreeSet::insert`, `remove`, and the two ends of a range.
unfoldable pub insert_slot : Slot → List Slot → List Slot
insert_slot s [] = s ∷ []
insert_slot s (t ∷ ts) =
    if slot_before s t then s ∷ t ∷ ts else if slot_same s t then t ∷ ts else t ∷ insert_slot s ts

unfoldable pub remove_slot : Slot → List Slot → List Slot
remove_slot s [] = []
remove_slot s (t ∷ ts) = if slot_same s t then ts else t ∷ remove_slot s ts

unfoldable pub last : List Slot → Option Slot
last [] = none
last (s ∷ ss) = or (last ss) (some s)

unfoldable pub range_below : Slot → List Slot → Option Slot
unfolding last
range_below bound free = last (retain (λ s. slot_before s bound) free)

unfoldable pub range_from : Slot → List Slot → Option Slot
range_from bound free = find (λ s. not (slot_before s bound)) free

-- The `match` of the two neighbours: a tie goes to the finding above.
unfoldable pub closer : ℕ → Option Slot → Option Slot → Option Slot
closer line (some (b, i)) (some (a, j)) =
    if leb (line - b) (a - line) then some (b, i) else some (a, j)
closer line below above = or below above

unfoldable pub nearest : List Slot → ℕ → Option Slot
unfolding range_below range_from closer
nearest free line = closer line (range_below (line, 0) free) (range_from (line, 0) free)

nearest_tie : nearest ((3, 0) ∷ (7, 1) ∷ []) 5 ≡ some (3, 0)
unfolding nearest
nearest_tie = refl

-- `sort_unstable` on distinct pairs: an insertion sort.
unfoldable pub insert_sorted : Slot → List Slot → List Slot
insert_sorted s [] = s ∷ []
insert_sorted s (t ∷ ts) = if slot_before t s then t ∷ insert_sorted s ts else s ∷ t ∷ ts

unfoldable pub sort_slots : List Slot → List Slot
unfolding insert_sorted
sort_slots [] = []
sort_slots (s ∷ ss) = insert_sorted s (sort_slots ss)
