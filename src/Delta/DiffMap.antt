-- ===== src/Delta/DiffMap.antt =====
-- delta/diff_map.rs: the renames and hunks of a diff, and the line of the current side on which a line
-- of the base stands. A shift is an integer without bounds: `isize` holds it as the patch that is read
-- is at most one mebibyte and a file has fewer than 2^62 lines. The texts are code points, so that
-- `from_utf8_lossy` has been applied. The notice of a failed diff is left out.
pub mod Script
pub mod Carried
use rust_doctor.Prelude.{
  ℕ, zero, suc, ◌+◌, ◌-◌, ◌≡◌, Bool, true, false, not, ◌&&◌, Option, none, some, List, [], ◌∷◌,
  arith, ltb, leb, ◌==◌, ◌||◌, if◌then◌else◌, min, unwrap_or, list_ord, nat_ord,
}
use rust_doctor.BTree.{Map, get, entry}
use rust_doctor.Report.{Text}
use rust_doctor.PathGlob.{split}

-- Integers over the native numbers.
pub data ℤ : Type 0 where
  pos : ℕ → ℤ
  negsuc : ℕ → ℤ

-- The difference of two lengths, as `cast_signed` and a subtraction give it.
unfoldable pub difference : ℕ → ℕ → ℤ
difference a b = if leb b a then pos (a - b) else negsuc (b - a - 1)

infixl 60 ◌+ℤ◌
unfoldable pub ◌+ℤ◌ : ℤ → ℤ → ℤ
unfolding difference
pos a +ℤ pos b = pos (a + b)
pos a +ℤ negsuc b = difference a (suc b)
negsuc a +ℤ pos b = difference b (suc a)
negsuc a +ℤ negsuc b = negsuc (suc (a + b))

-- `usize::saturating_add_signed`, without its upper bound.
unfoldable pub add_signed : ℕ → ℤ → ℕ
add_signed line (pos a) = line + a
add_signed line (negsuc a) = line - suc a

pub record Hunk : Type 0 where
  pub old_start : ℕ
  pub old_len : ℕ
  pub new_start : ℕ
  pub new_len : ℕ

pub record DiffMap : Type 0 where
  pub renames : Map Text Text
  pub hunks : Map Text (List Hunk)

unfoldable pub current_path : DiffMap → Text → Text
current_path diff base_path = unwrap_or (get base_path diff.renames) base_path

unfoldable pub replaces : Hunk → ℕ → Bool
replaces hunk line =
    ltb 0 hunk.old_len && leb hunk.old_start line && ltb line (hunk.old_start + hunk.old_len)

unfoldable pub is_above : Hunk → ℕ → Bool
is_above hunk line =
    if hunk.old_len == 0 then ltb hunk.old_start line else leb (hunk.old_start + hunk.old_len) line

-- The loop of `mapped_line`, with the shift that the hunks above have made.
unfoldable pub follow : List Hunk → ℕ → ℤ → ℕ
unfolding replaces is_above add_signed ◌+ℤ◌ difference
follow [] line shift = add_signed line shift
follow (hunk ∷ hunks) line shift =
    let below =
      follow hunks line
        (if is_above hunk line then shift +ℤ difference hunk.new_len hunk.old_len else shift) in
    if replaces hunk line
    then hunk.new_start + min (line - hunk.old_start) (hunk.new_len - 1)
    else below

unfoldable pub mapped_line : DiffMap → Text → ℕ → ℕ
unfolding follow
mapped_line diff path line = elim (get path diff.hunks) [
  | none ↦ line
  | some hunks ↦ follow hunks line (pos 0)
]

-- The fields of the name-status output, one status and its paths at a time. A status that starts with
-- `R` (82) or `C` (67) has two paths, any other has one.
abbrev pub starts_with : ℕ → Text → Bool
starts_with c [] = false
starts_with c (x ∷ xs) = x == c

unfoldable pub read_names : List Text → Map Text Text → Map Text Text
read_names [] renames = renames
read_names (status ∷ []) renames = renames
read_names (status ∷ old ∷ []) renames = renames
read_names (status ∷ old ∷ new ∷ rest) renames =
    let two =
      read_names rest
        (if starts_with 82 status then entry old new (λ held. new) renames else renames) in
    let one = read_names (new ∷ rest) renames in
    if starts_with 82 status || starts_with 67 status then two else one

unfoldable pub renames_of : Text → Map Text Text
unfolding read_names
renames_of names = read_names (split 0 names) []
