-- ===== src/Tui/Input/Found.antt =====
-- tui/input.rs: what the searches of the list find.
use rust_doctor.Prelude.{
  ℕ, zero, suc, ◌+◌, ◌-◌, ◌≤◌, ◌<◌, ◌≡◌, refl, ◌⊎◌, inl, inr, Bool, true, false, not, Option, none,
  some, List, [], ◌∷◌, arith, ◌==◌, length, is_empty, get_elem?, and_then, or, Every, Option-cases,
  Bool-cases, Ordering-cases, compare, leb, leb→le, nat_ord, unwrap_or,
}
use rust_doctor.BTree.{Set, insert}
use rust_doctor.Report.{Text}
use rust_doctor.Tui.Entries.{Entry, header, item, Row, row_index, build_entries}
use rust_doctor.Tui.Entries.Once.{times, build_entries_once}
use rust_doctor.Tui.App.{position, is_item}
use rust_doctor.Tui.Input.{find_up, find_down, selectable, seek, nearest_selectable}

pub position_lt {ℓ} :
    {A : Type ℓ} (p : A → Bool) (xs : List A) (n : ℕ) → position p xs ≡ some n → n < length xs
position_lt p [] n h = cc
position_lt p (x ∷ xs) n h = elim (Bool-cases (p x)) [
  | inl e ↦ ground arith
  | inr e ↦ elim (Option-cases (position p xs)) [
    | inl k ↦ absurd (ground arith)
    | inr (m, k) ↦ ground (arith, position_lt p xs m k)
  ]
]

pub position_le {ℓ} :
    {A : Type ℓ} (p : A → Bool) (xs : List A) → unwrap_or (position p xs) 0 ≤ length xs - 1
position_le p xs = elim (Option-cases (position p xs)) [
  | inl e ↦ rw e (omega arith)
  | inr (n, e) ↦ rw e (omega (arith, position_lt p xs n e))
]

find_up-some : (n from i : ℕ) (p : ℕ → Bool) → find_up n from p ≡ some i → p i ≡ true
find_up-some zero from i p h = cc
find_up-some (suc n) from i p h = elim (Bool-cases (p from)) [
  | inl e ↦ let q : from ≡ i = ground arith in rw (← q) e
  | inr e ↦ find_up-some n (suc from) i p (ground arith)
]

find_down-some : (n i : ℕ) (p : ℕ → Bool) → find_down n p ≡ some i → p i ≡ true
find_down-some zero i p h = elim (Bool-cases (p 0)) [
  | inl e ↦ let q : 0 ≡ i = ground arith in rw (← q) e
  | inr e ↦ absurd (ground arith)
]
find_down-some (suc n) i p h = elim (Bool-cases (p (suc n))) [
  | inl e ↦ let q : suc n ≡ i = ground arith in rw (← q) e
  | inr e ↦ find_down-some n i p (ground arith)
]

find_up-none :
    (n from i : ℕ) (p : ℕ → Bool) → find_up n from p ≡ none → from ≤ i → i < from + n → p i ≡ false
find_up-none zero from i p h a b = absurd (omega arith)
find_up-none (suc n) from i p h a b = elim (Bool-cases (p from)) [
  | inl e ↦ absurd (ground arith)
  | inr e ↦ elim (Bool-cases (from == i)) [
    | inl q ↦ let same : from ≡ i = ground arith in rw (← same) e
    | inr q ↦ find_up-none n (suc from) i p (ground arith) (ground arith) (omega arith)
  ]
]

find_down-none : (n i : ℕ) (p : ℕ → Bool) → find_down n p ≡ none → i ≤ n → p i ≡ false
find_down-none zero i p h a = elim (Bool-cases (p 0)) [
  | inl e ↦ absurd (ground arith)
  | inr e ↦ let q : 0 ≡ i = omega arith in rw (← q) e
]
find_down-none (suc n) i p h a = elim (Bool-cases (p (suc n))) [
  | inl e ↦ absurd (ground arith)
  | inr e ↦ elim (Bool-cases (suc n == i)) [
    | inl q ↦ let same : suc n ≡ i = ground arith in rw (← same) e
    | inr q ↦ find_down-none n i p (ground arith) (ground arith)
  ]
]

seek-some :
    (entries : List Entry) (from i : ℕ) (forward : Bool)
    → seek entries from forward ≡ some i
    → selectable entries i ≡ true
unfolding seek
seek-some entries from i true h = find_up-some (length entries - from) from i (selectable entries) h
seek-some entries from i false h = find_down-some from i (selectable entries) h

or-some : (a b : Option ℕ) (i : ℕ) → or a b ≡ some i → (a ≡ some i) ⊎ (b ≡ some i)
or-some none b i h = inr h
or-some (some a) b i h = inl h

or-none : (a b : Option ℕ) → or a b ≡ none → (a ≡ none) × (b ≡ none)
or-none none b h = (refl, h)
or-none (some a) b h = cc

-- The nearest selectable entry is selectable.
pub nearest_selectable-some :
    (entries : List Entry) (from i : ℕ) (forward : Bool)
    → nearest_selectable entries from forward ≡ some i
    → selectable entries i ≡ true
unfolding nearest_selectable
nearest_selectable-some entries from i forward h =
    elim (or-some (seek entries from forward) (seek entries from (not forward)) i h) [
      | inl e ↦ seek-some entries from i forward e
      | inr e ↦ seek-some entries from i (not forward) e
    ]

pub selectable_lt :
    (entries : List Entry) (i : ℕ) → selectable entries i ≡ true → i < length entries
unfolding selectable row_index
selectable_lt [] i h = absurd (ground arith)
selectable_lt (e ∷ es) zero h = omega arith
selectable_lt (e ∷ es) (suc i) h = omega (arith, selectable_lt es i h)

both_none :
    (entries : List Entry) (from : ℕ) (forward : Bool)
    → nearest_selectable entries from forward ≡ none
    → (find_up (length entries - from) from (selectable entries) ≡ none)
      × (find_down from (selectable entries) ≡ none)
unfolding nearest_selectable seek
both_none entries from true h = or-none _ _ h
both_none entries from false h = let (a, b) = or-none _ _ h in (b, a)

-- A search that finds nothing has looked everywhere.
pub nearest_selectable-none :
    (entries : List Entry) (from i : ℕ) (forward : Bool)
    → nearest_selectable entries from forward ≡ none
    → selectable entries i ≡ false
nearest_selectable-none entries from i forward h =
    let (up, down) = both_none entries from forward h in
    elim (Bool-cases (selectable entries i)) [
      | inr e ↦ e
      | inl e ↦ elim (Bool-cases (leb i from)) [
        | inl q ↦ find_down-none from i (selectable entries) down (leb→le i from q)
        | inr q ↦
            find_up-none (length entries - from) from i (selectable entries) up (ground arith)
              (ground (arith, selectable_lt entries i e))
      ]
    ]

-- A selectable entry is the row that stands there.
pub selectable-item :
    (entries : List Entry) (n i : ℕ)
    → and_then (get_elem? entries n) row_index ≡ some i
    → 1 ≤ times i entries
unfolding row_index
selectable-item [] n i h = cc
selectable-item (header l ∷ es) zero i h = cc
selectable-item (item j ∷ es) zero i h = ground arith
selectable-item (header l ∷ es) (suc n) i h = selectable-item es n i h
selectable-item (item j ∷ es) (suc n) i h = omega (arith, selectable-item es n i h)

-- The row at an entry of a built list is a row.
pub built_row :
    (heading : Text) (rows : List Row) (n i : ℕ)
    → and_then (get_elem? (build_entries heading rows) n) row_index ≡ some i
    → i < length rows
built_row heading rows n i h =
    ground
      (arith, selectable-item (build_entries heading rows) n i h, build_entries_once heading rows i)

position-none : (es : List Entry) (i : ℕ) → position is_item es ≡ none → times i es ≡ 0
unfolding row_index
position-none [] i h = refl
position-none (header l ∷ es) i h = position-none es i (ground arith)
position-none (item j ∷ es) i h = absurd (ground arith)

position-some : (es : List Entry) (n : ℕ) → position is_item es ≡ some n → selectable es n ≡ true
unfolding row_index selectable
position-some [] n h = cc
position-some (item j ∷ es) n h = let q : 0 ≡ n = ground arith in rw (← q) refl
position-some (header l ∷ es) n h = elim (Option-cases (position is_item es)) [
  | inl k ↦ absurd (ground arith)
  | inr (m, k) ↦ let q : suc m ≡ n = ground arith in rw (← q) (position-some es m k)
]

-- The first selection is on a row where there is one.
pub first_selectable :
    (heading : Text) (rows : List Row)
    → is_empty rows ≡ false
    → selectable
        (build_entries heading rows)
        (unwrap_or (position is_item (build_entries heading rows)) 0)
      ≡ true
first_selectable heading [] h = absurd (ground arith)
first_selectable heading (r ∷ rows) h =
    let entries = build_entries heading (r ∷ rows) in
    elim (Option-cases (position is_item entries)) [
      | inl e ↦
          absurd
            (ground (arith, position-none entries 0 e, build_entries_once heading (r ∷ rows) 0))
      | inr (n, e) ↦ rw e (position-some entries n e)
    ]

pub Every-insert : (P : ℕ → Type 0) (k : ℕ) (m : Set ℕ) → P k → Every P m → Every P (insert k m)
unfolding insert
Every-insert P k [] p h = (p, tt)
Every-insert P k (j ∷ m) p h = elim (Ordering-cases (compare k j)) [
  | inl e ↦ rw (e, insert) (p, h)
  | inr (inl e) ↦ rw (e, insert) h
  | inr (inr e) ↦ rw (e, insert) (h.0, Every-insert P k m p h.1)
]
