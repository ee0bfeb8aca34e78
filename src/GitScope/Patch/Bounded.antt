-- ===== src/GitScope/Patch/Bounded.antt =====
-- git_scope/lines.rs: the ranges that a patch gives.
use rust_doctor.Prelude.{
  ℕ, ◌+◌, ◌≤◌, ◌<◌, ◌≡◌, subst, inl, inr, Option, none, some, List, [], ◌∷◌, ◌++◌, arith, ltb, leb,
  ◌==◌, Every, Result, ok, err, Bool-cases, Option-cases, Result-cases, Ordering-cases, list_ord,
  nat_ord,
}
use rust_doctor.BTree.{Map, entry}
use rust_doctor.Report.{Text, codes}
use rust_doctor.Audit.Counts.{word_max}
use rust_doctor.PathGlob.{split}
use rust_doctor.Utf8.{from_utf8}
use rust_doctor.GitScope.{FileChanges}
use rust_doctor.GitScope.NewPath.{strip_prefix, new_side_path}
use rust_doctor.GitScope.Patch.{
  NewSide, lines, after, LineRanges, Reader, is_body, added, record_side, recorded, no_changes,
  new_side, side, hunk_counts, body_line, hunk_line, header_line, read_line, read_lines,
  parse_patch,
}
use rust_doctor.GitScope.NewPath.{PatchError}

abbrev pub IsRange : ℕ × ℕ → Type 0
IsRange range = (0 < range.0) × (range.0 ≤ range.1) × (range.1 ≤ word_max)

abbrev pub IsBounded : LineRanges → Type 0
IsBounded ranges = Every (λ file. Every IsRange file.1.ranges) ranges

abbrev IsSide : NewSide → Type 0
IsSide (lines start last) = IsRange (start, last)
IsSide (after line) = Unit

new_side-IsSide : (start count : ℕ) (new : NewSide) → new_side start count ≡ some new → IsSide new
unfolding new_side
new_side-IsSide start count (after line) h = tt
new_side-IsSide start count (lines a b) h = ground arith

Every-append :
    (xs ys : List (ℕ × ℕ)) → Every IsRange xs → Every IsRange ys → Every IsRange (xs ++ ys)
Every-append [] ys h k = k
Every-append (x ∷ xs) ys (a, h) k = (a, Every-append xs ys h k)

recorded-ranges :
    (new : NewSide) (changes : FileChanges)
    → IsSide new
    → Every IsRange changes.ranges
    → Every IsRange (recorded new changes).ranges
unfolding recorded
recorded-ranges (lines start last) changes s h = Every-append changes.ranges _ h (s, tt)
recorded-ranges (after line) changes s h = h

Every-entry :
    {V : Type 0} (P : V → Type 0) (k : Text) (d : V) (f : V → V) (m : Map Text V)
    → P (f d)
    → ((v : V) → P v → P (f v))
    → Every (λ e. P e.1) m
    → Every (λ e. P e.1) (entry k d f m)
unfolding entry
Every-entry P k d f [] a b h = (a, tt)
Every-entry P k d f ((j, v) ∷ m) a b (q, h) = elim (Ordering-cases (list_ord.cmp k j)) [
  | inl e ↦ rw (e, entry) (a, (q, h))
  | inr (inl e) ↦ rw (e, entry) (b v q, h)
  | inr (inr e) ↦ rw (e, entry) (q, Every-entry P k d f m a b h)
]

hunk_counts-IsSide :
    (header : List ℕ) (old_count : ℕ) (new : NewSide)
    → hunk_counts header ≡ some (old_count, new)
    → IsSide new
unfolding hunk_counts
hunk_counts-IsSide header old_count new h = elim (Option-cases (from_utf8 header)) [
  | inl e ↦ absurd (ground arith)
  | inr (text, e) ↦ elim (Option-cases (side 45 (split 32 text))) [
    | inl f ↦ absurd (ground arith)
    | inr (old, f) ↦ elim (Option-cases (side 43 (split 32 text))) [
      | inl g ↦ absurd (ground arith)
      | inr ((start, count), g) ↦ elim (Option-cases (new_side start count)) [
        | inl k ↦ absurd (ground arith)
        | inr (found, k) ↦
            let q : found ≡ new = ground arith in
            subst IsSide q (new_side-IsSide start count found k)
      ]
    ]
  ]
]

-- What a result keeps.
abbrev Holds : Result PatchError Reader → Type 0
Holds (err e) = Unit
Holds (ok reader) = IsBounded reader.ranges

record_side-IsBounded :
    (path : Option Text) (new : NewSide) (ranges : LineRanges)
    → IsSide new
    → IsBounded ranges
    → IsBounded (record_side path new ranges)
record_side-IsBounded none new ranges s h = h
record_side-IsBounded (some path) new ranges s h =
    Every-entry (λ c. Every IsRange c.ranges) path no_changes (recorded new) ranges
      (recorded-ranges new no_changes s tt) (λ c k. recorded-ranges new c s k) h

body_line-Holds :
    (line : List ℕ) (reader : Reader) → IsBounded reader.ranges → Holds (body_line line reader)
unfolding body_line
body_line-Holds [] reader h = tt
body_line-Holds (c ∷ cs) reader h = elim (Bool-cases (is_body c)) [
  | inl e ↦ rw e h
  | inr e ↦ elim (Bool-cases (c == 92)) [ inl f ↦ rw (e, f) h | inr f ↦ rw (e, f) tt ]
]

hunk_line-Holds :
    (current : Option (Option Text)) (header : List ℕ) (reader : Reader)
    → IsBounded reader.ranges
    → Holds (hunk_line current (hunk_counts header) reader)
unfolding hunk_line
hunk_line-Holds none header reader h = tt
hunk_line-Holds (some path) header reader h = elim (Option-cases (hunk_counts header)) [
  | inl e ↦ rw e tt
  | inr ((old_count, new), e) ↦ elim (Bool-cases (leb (old_count + added new) word_max)) [
    | inl f ↦
        rw (e, f)
          (record_side-IsBounded path new reader.ranges (hunk_counts-IsSide header old_count new e)
            h)
    | inr f ↦ rw (e, f) tt
  ]
]

read_line-Holds :
    (line : List ℕ) (reader : Reader) → IsBounded reader.ranges → Holds (read_line line reader)
unfolding read_line header_line
read_line-Holds line reader h = elim (Bool-cases (ltb 0 reader.pending)) [
  | inl e ↦ rw (e, read_line) (body_line-Holds line reader h)
  | inr e ↦ elim (Option-cases (strip_prefix (codes "+++ ") line)) [
    | inr (target, f) ↦ elim (Result-cases (new_side_path target)) [
      | inl (x, g) ↦ rw (e, f, g) tt
      | inr (path, g) ↦ rw (e, f, g) h
    ]
    | inl f ↦ elim (Option-cases (strip_prefix (codes "@@ ") line)) [
      | inl g ↦ rw (e, f, g) h
      | inr (header, g) ↦ rw (e, f, g) (hunk_line-Holds reader.current header reader h)
    ]
  ]
]

read_lines-IsBounded :
    (ls : List (List ℕ)) (reader : Reader) (ranges : LineRanges)
    → IsBounded reader.ranges
    → read_lines ls reader ≡ ok ranges
    → IsBounded ranges
unfolding read_lines
read_lines-IsBounded [] reader ranges h k = elim (Bool-cases (ltb 0 reader.pending)) [
  | inl e ↦ absurd (ground arith)
  | inr e ↦ let q : reader.ranges ≡ ranges = ground arith in subst IsBounded q h
]
read_lines-IsBounded (line ∷ ls) reader ranges h k = elim (Result-cases (read_line line reader)) [
  | inl (x, e) ↦ absurd (ground arith)
  | inr (later, e) ↦
      read_lines-IsBounded ls later ranges (subst Holds e (read_line-Holds line reader h))
        (ground arith)
]

-- Every range of a patch that is read starts at a positive line and ends no earlier and within a
-- machine word.
pub parse_patch-IsBounded :
    (output : List ℕ) (ranges : LineRanges) → parse_patch output ≡ ok ranges → IsBounded ranges
unfolding parse_patch
parse_patch-IsBounded output ranges h = read_lines-IsBounded (split 10 output) _ ranges tt h
