-- ===== src/GitScope/Patch/Bodies.antt =====
-- git_scope/lines.rs: patches as files with hunks and bodies, and what is read of them.
use rust_doctor.Prelude.{
  ℕ, ◌+◌, ◌-◌, ◌≤◌, ◌≡◌, refl, ◌∙◌, inl, inr, Bool, true, false, ◌&&◌, Option, none, some, List, [],
  ◌∷◌, ◌++◌, arith, ltb, leb, ◌==◌, if◌then◌else◌, Every, ok, Bool-cases, list_ord, nat_ord,
}
use rust_doctor.Report.{Text, codes}
use rust_doctor.Audit.Counts.{word_max}
use rust_doctor.PathGlob.{split}
use rust_doctor.GitScope.NewPath.{strip_prefix, new_side_path}
use rust_doctor.GitScope.Patch.{
  NewSide, LineRanges, Reader, is_body, added, record_side, hunk_counts, body_line, hunk_line,
  header_line, read_line, read_lines, parse_patch,
}

-- The lines of a body that fill a number of places; a line that starts with a backslash fills none.
abbrev pub fills : ℕ → List (List ℕ) → Bool
fills n [] = n == 0
fills n ([] ∷ ls) = false
fills n ((c ∷ cs) ∷ ls) =
    let less = fills (n - 1) ls in
    let same = fills n ls in ltb 0 n && (if is_body c then less else c == 92 && same)

pub record HunkText : Type 0 where
  pub header : List ℕ
  pub old_count : ℕ
  pub new : NewSide
  pub body : List (List ℕ)

abbrev pub IsHunk : HunkText → Type 0
IsHunk h =
    (hunk_counts h.header ≡ some (h.old_count, h.new))
    × (h.old_count + added h.new ≤ word_max)
    × (fills (h.old_count + added h.new) h.body ≡ true)

-- A line outside the hunks that is no header.
abbrev pub IsIgnored : List ℕ → Type 0
IsIgnored line =
    (strip_prefix (codes "+++ ") line ≡ none) × (strip_prefix (codes "@@ ") line ≡ none)

pub record FileText : Type 0 where
  pub preamble : List (List ℕ)
  pub target : List ℕ
  pub path : Option Text
  pub hunks : List HunkText

abbrev pub IsFile : FileText → Type 0
IsFile f = Every IsIgnored f.preamble × (new_side_path f.target ≡ ok f.path) × Every IsHunk f.hunks

abbrev pub hunk_lines : List HunkText → List (List ℕ) → List (List ℕ)
hunk_lines [] rest = rest
hunk_lines (h ∷ hs) rest = (codes "@@ " ++ h.header) ∷ h.body ++ hunk_lines hs rest

abbrev pub file_lines : List FileText → List (List ℕ) → List (List ℕ)
file_lines [] rest = rest
file_lines (f ∷ fs) rest =
    f.preamble ++ (codes "+++ " ++ f.target) ∷ hunk_lines f.hunks (file_lines fs rest)

-- The ranges of files, hunk by hunk.
abbrev pub hunk_ranges : Option Text → List HunkText → LineRanges → LineRanges
hunk_ranges path [] ranges = ranges
hunk_ranges path (h ∷ hs) ranges = hunk_ranges path hs (record_side path h.new ranges)

abbrev pub file_ranges : List FileText → LineRanges → LineRanges
file_ranges [] ranges = ranges
file_ranges (f ∷ fs) ranges = file_ranges fs (hunk_ranges f.path f.hunks ranges)

abbrev at : LineRanges → Option (Option Text) → ℕ → Reader
at ranges current pending = record { ranges = ranges; current = current; pending = pending }

read_body :
    (ranges : LineRanges) (current : Option (Option Text)) (n : ℕ) (body rest : List (List ℕ))
    → fills n body ≡ true
    → read_lines (body ++ rest) (at ranges current n) ≡ read_lines rest (at ranges current 0)
unfolding read_lines read_line body_line
read_body ranges current n [] rest h = let q : n ≡ 0 = ground arith in rw q refl
read_body ranges current n ([] ∷ ls) rest h = cc
read_body ranges current n ((c ∷ cs) ∷ ls) rest h = elim (Bool-cases (is_body c)) [
  | inl e ↦
      let some_left : ltb 0 n ≡ true = ground arith in
      rw (some_left, e, read_lines) (read_body ranges current (n - 1) ls rest (ground arith))
  | inr e ↦
      let some_left : ltb 0 n ≡ true = ground arith in
      let slash : (c == 92) ≡ true = ground arith in
      rw (some_left, e, slash, read_lines) (read_body ranges current n ls rest (ground arith))
]

read_hunks :
    (path : Option Text) (hunks : List HunkText) (ranges : LineRanges) (rest : List (List ℕ))
    → Every IsHunk hunks
    → read_lines (hunk_lines hunks rest) (at ranges (some path) 0)
      ≡ read_lines rest (at (hunk_ranges path hunks ranges) (some path) 0)
unfolding read_lines read_line header_line hunk_line
read_hunks path [] ranges rest h = refl
read_hunks path (hunk ∷ hunks) ranges rest ((counts, bound, body), more) =
    let fits : leb (hunk.old_count + added hunk.new) word_max ≡ true = ground arith in
    rw (counts, fits)
      (read_body (record_side path hunk.new ranges) (some path) (hunk.old_count + added hunk.new)
          hunk.body (hunk_lines hunks rest) body
        ∙ read_hunks path hunks (record_side path hunk.new ranges) rest more)

read_ignored :
    (ranges : LineRanges) (current : Option (Option Text)) (ignored rest : List (List ℕ))
    → Every IsIgnored ignored
    → read_lines (ignored ++ rest) (at ranges current 0) ≡ read_lines rest (at ranges current 0)
unfolding read_lines read_line header_line
read_ignored ranges current [] rest h = refl
read_ignored ranges current (line ∷ ls) rest ((a, b), more) =
    rw (a, b, read_lines) (read_ignored ranges current ls rest more)

read_trailer :
    (ranges : LineRanges) (current : Option (Option Text)) (ignored : List (List ℕ))
    → Every IsIgnored ignored
    → read_lines ignored (at ranges current 0) ≡ ok ranges
unfolding read_lines read_line header_line
read_trailer ranges current [] h = refl
read_trailer ranges current (line ∷ ls) ((a, b), more) =
    rw (a, b, read_lines) (read_trailer ranges current ls more)

read_files :
    (files : List FileText) (ranges : LineRanges) (current : Option (Option Text))
    (trailer : List (List ℕ))
    → Every IsFile files
    → Every IsIgnored trailer
    → read_lines (file_lines files trailer) (at ranges current 0) ≡ ok (file_ranges files ranges)
unfolding read_lines read_line header_line
read_files [] ranges current trailer h t = read_trailer ranges current trailer t
read_files (f ∷ fs) ranges current trailer ((ignored, target, hunks), more) t =
    read_ignored ranges current f.preamble _ ignored
    ∙ rw target (
        read_hunks f.path f.hunks ranges (file_lines fs trailer) hunks
        ∙ read_files fs (hunk_ranges f.path f.hunks ranges) (some f.path) trailer more t)

-- Where the lines of a patch are those of files, each with lines that are no header, a path that is
-- accepted and hunks whose counts are accepted and filled by the lines of their bodies, whatever
-- these hold, followed by lines that are no header, the patch is read as the ranges of the hunks,
-- file by file.
pub parse_patch-file_ranges :
    (output : List ℕ) (files : List FileText) (trailer : List (List ℕ))
    → Every IsFile files
    → Every IsIgnored trailer
    → split 10 output ≡ file_lines files trailer
    → parse_patch output ≡ ok (file_ranges files [])
unfolding parse_patch
parse_patch-file_ranges output files trailer h t e = rw e (read_files files [] none trailer h t)
