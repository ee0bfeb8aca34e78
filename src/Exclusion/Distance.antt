-- ===== src/Exclusion/Distance.antt =====
-- report/exclusion.rs, `edit_distance`: the distance by rows, and the least cost of an edit.
use rust_doctor.Prelude.{
  ℕ, suc, ◌+◌, ◌≡◌, refl, ap, subst, List, [], ◌∷◌, min, ◌==◌, if◌then◌else◌, length,
}
use rust_doctor.Report.{Text}
use rust_doctor.Audit.Counts.{word_max}

-- `get(column).unwrap_or(usize::MAX)` at the column that the loop has come to, and the columns after it.
abbrev pub here : List ℕ → ℕ
here [] = word_max
here (n ∷ ns) = n

abbrev pub later : List ℕ → List ℕ
later [] = []
later (n ∷ ns) = ns

abbrev pub unequal : ℕ → ℕ → ℕ
unequal a b = if a == b then 0 else 1

-- The inner loop: the row of a character of `left`, after the value that was pushed last.
unfoldable pub next_row : ℕ → ℕ → List ℕ → Text → List ℕ
next_row c last previous [] = []
next_row c last previous (r ∷ right) =
    let value = min (min (here previous + unequal c r) (here (later previous) + 1)) (last + 1) in
    value ∷ next_row c value (later previous) right

-- The outer loop, with the number of rows behind.
unfoldable pub rows : ℕ → Text → Text → List ℕ → List ℕ
unfolding next_row
rows row [] right previous = previous
rows row (c ∷ left) right previous =
    rows (suc row) left right (suc row ∷ next_row c (suc row) previous right)

abbrev pub range_to : ℕ → Text → List ℕ
range_to n [] = n ∷ []
range_to n (r ∷ right) = n ∷ range_to (suc n) right

abbrev pub last_or_zero : List ℕ → ℕ
last_or_zero [] = 0
last_or_zero (n ∷ []) = n
last_or_zero (n ∷ m ∷ ns) = last_or_zero (m ∷ ns)

unfoldable pub edit_distance : Text → Text → ℕ
unfolding rows
edit_distance left right = last_or_zero (rows 0 left right (range_to 0 right))

-- The recursive distance, on texts read from their ends.
abbrev pub after : ℕ → (Text → ℕ) → Text → ℕ
after x f [] = suc (f [])
after x f (y ∷ ys) = min (min (f ys + unequal x y) (f (y ∷ ys) + 1)) (after x f ys + 1)

unfoldable pub lev : Text → Text → ℕ
lev [] ys = length ys
lev (x ∷ xs) ys = after x (lev xs) ys

abbrev pub from_end : Text → Text → Text
from_end [] acc = acc
from_end (x ∷ xs) acc = from_end xs (x ∷ acc)

-- The distances of one text to every start of another.
abbrev row_of : Text → Text → Text → List ℕ
row_of xs acc [] = lev xs acc ∷ []
row_of xs acc (r ∷ rs) = lev xs acc ∷ row_of xs (r ∷ acc) rs

range-row : (acc right : Text) → range_to (length acc) right ≡ row_of [] acc right
unfolding lev
range-row acc [] = refl
range-row acc (r ∷ right) = rw (range-row (r ∷ acc) right) refl

next_row-row :
    (c : ℕ) (xs acc right : Text)
    → (lev (c ∷ xs) acc ∷ next_row c (lev (c ∷ xs) acc) (row_of xs acc right) right)
      ≡ row_of (c ∷ xs) acc right
unfolding next_row lev
next_row-row c xs acc [] = refl
next_row-row c xs acc (r ∷ []) = refl
next_row-row c xs acc (r ∷ q ∷ right) =
    ap (λ ns. lev (c ∷ xs) acc ∷ ns) (next_row-row c xs (r ∷ acc) (q ∷ right))

lev-nil : (xs : Text) → lev xs [] ≡ length xs
unfolding lev
lev-nil [] = refl
lev-nil (x ∷ xs) = ap suc (lev-nil xs)

full_row :
    (c : ℕ) (xs right : Text)
    → (suc (length xs) ∷ next_row c (suc (length xs)) (row_of xs [] right) right)
      ≡ row_of (c ∷ xs) [] right
full_row c xs right =
    subst (λ n. (n ∷ next_row c n (row_of xs [] right) right) ≡ row_of (c ∷ xs) [] right)
      (lev-nil (c ∷ xs)) (next_row-row c xs [] right)

rows-row :
    (left xs right : Text)
    → rows (length xs) left right (row_of xs [] right) ≡ row_of (from_end left xs) [] right
unfolding rows
rows-row [] xs right = refl
rows-row (c ∷ left) xs right = rw (full_row c xs right) (rows-row left (c ∷ xs) right)

last-row : (xs acc right : Text) → last_or_zero (row_of xs acc right) ≡ lev xs (from_end right acc)
last-row xs acc [] = refl
last-row xs acc (r ∷ []) = refl
last-row xs acc (r ∷ q ∷ right) = last-row xs (r ∷ acc) (q ∷ right)

pub edit_distance-lev :
    (left right : Text) → edit_distance left right ≡ lev (from_end left []) (from_end right [])
unfolding edit_distance
edit_distance-lev left right =
    rw (range-row [] right, rows-row left [] right) (last-row (from_end left []) [] right)
