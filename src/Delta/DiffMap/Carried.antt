-- ===== src/Delta/DiffMap/Carried.antt =====
-- delta/diff_map.rs: `mapped_line` against the edits of a file.
use rust_doctor.Prelude.{
  ℕ, suc, ◌+◌, ◌<◌, ◌≡◌, refl, ◌∙◌, true, false, some, List, [], ◌∷◌, arith, leb, ◌==◌,
  if◌then◌else◌, Bool-cases, inl, inr, list_ord, nat_ord,
}
use rust_doctor.BTree.{get}
use rust_doctor.Report.{Text}
use rust_doctor.Delta.DiffMap.{Hunk, difference, follow, replaces, is_above, DiffMap, mapped_line}
use rust_doctor.Delta.DiffMap.Script.{
  Edit, keep, change, hunks_of, carried, difference-add, add_signed-difference, follow-above,
}

difference-shift : (n o k : ℕ) → difference (n + k) (o + k) ≡ difference n o
unfolding difference
difference-shift n o k = ground arith

-- The hunk of a change.
abbrev hunk_of : ℕ → ℕ → ℕ → ℕ → Hunk
hunk_of a b o n = record {
  old_start = if a == 0 then o else suc o;
  old_len = a;
  new_start = if b == 0 then n else suc n;
  new_len = b;
}

not_replaced : (a b o n line : ℕ) → o + a < line → replaces (hunk_of a b o n) line ≡ false
unfolding replaces
not_replaced a b o n line h = ground arith

above : (a b o n line : ℕ) → o + a < line → is_above (hunk_of a b o n) line ≡ true
unfolding is_above
above a b o n line h = ground arith

-- A change above a line moves it by the difference of its lengths.
passed :
    (a b o n line : ℕ) (rest : List Hunk)
    → o + a < line
    → follow (hunk_of a b o n ∷ rest) line (difference n o)
      ≡ follow rest line (difference (n + b) (o + a))
unfolding follow
passed a b o n line rest h =
    rw (not_replaced a b o n line h, above a b o n line h, difference-add n o b a) refl

follow-carried :
    (s : List Edit) (o n line m : ℕ)
    → o < line
    → carried s o n line ≡ some m
    → follow (hunks_of s o n) line (difference n o) ≡ m
unfolding hunks_of carried follow
follow-carried [] o n line m h e = ground (arith, add_signed-difference line n o)
follow-carried (keep k ∷ s) o n line m h e = elim (Bool-cases (leb line (o + k))) [
  | inl within ↦
      ground (
        arith,
        follow-above s (o + k) (n + k) line (difference n o),
        add_signed-difference line n o,
      )
  | inr below ↦
      rw (← difference-shift n o k)
        (follow-carried s (o + k) (n + k) line m (ground arith) (ground arith))
]
follow-carried (change a b ∷ s) o n line m h e =
    passed a b o n line (hunks_of s (o + a) (n + b)) (ground arith)
    ∙ follow-carried s (o + a) (n + b) line m (ground arith) (ground arith)

-- Where the hunks of a path are those that an edit script prints, a positive base line that the
-- script keeps is mapped to the current line on which the script puts it.
pub mapped_line-carried :
    (diff : DiffMap) (path : Text) (s : List Edit) (line m : ℕ)
    → get path diff.hunks ≡ some (hunks_of s 0 0)
    → 0 < line
    → carried s 0 0 line ≡ some m
    → mapped_line diff path line ≡ m
unfolding mapped_line difference
mapped_line-carried diff path s line m h k e = rw (h, mapped_line) (follow-carried s 0 0 line m k e)
