-- ===== src/PathGlob/Parsed.antt =====
-- path_glob.rs: which patterns are read, and as what.
use rust_doctor.Prelude.{
  ◌≡◌, refl, ◌∙◌, sym, ap, subst, inl, inr, true, false, ◌||◌, some, List, [], ◌∷◌, ◌++◌, map,
  arith, is_empty, any, all, Every, Bool-cases, Option-cases, ◌⊎◌, ◌↔◌,
}
use rust_doctor.Report.{Text}
use rust_doctor.PathGlob.{
  Segment, any_depth, name, PathGlob, slash, split, strip_slash, starts_with_slash, is_refused,
  is_dots, is_double_star, has_double_star, parse_segment, parse_segments, parse,
}
use rust_doctor.PathGlob.Pieces.{
  plain, filled, split_nonempty, joined-split, split-plain, joined-filled, joined-refused,
  filled-slash, strip_slash_off, strip_slash-joined, strip_slash_lem,
}
use rust_doctor.PathGlob.Segments.{
  IsName, IsSegment, print, all-plain, has_double_star-HasRun, is_dots_to, is_double_star_to,
  is_empty_to, plain-IsName,
}
use rust_doctor.WorkspacePath.{joined}
use rust_doctor.WorkspacePath.Names.{split-joined}

print-parse_segment : (t : Text) (s : Segment) → parse_segment t ≡ some s → print s ≡ t
unfolding parse_segment
print-parse_segment t s h = ground (arith, is_double_star_to t)

parse_segment-IsSegment :
    (t : Text) (s : Segment) → all plain t ≡ true → parse_segment t ≡ some s → IsSegment s
unfolding parse_segment
parse_segment-IsSegment t any_depth p h = tt
parse_segment-IsSegment t (name n) p h =
    let e : n ≡ t = print-parse_segment t (name n) h in
    rw e (plain-IsName t (ground arith) (ground arith) p)

name_read : (n : Text) → IsName n → parse_segment n ≡ some (name n)
unfolding parse_segment
name_read n (filled, dot, dots, run, chars) =
    let e : is_empty n ≡ false = elim (Bool-cases (is_empty n)) [
      | inl k ↦ absurd (filled (is_empty_to n k))
      | inr k ↦ k
    ] in
    let d : is_dots n ≡ false = elim (Bool-cases (is_dots n)) [
      | inl k ↦ elim (is_dots_to n k) [ inl q ↦ absurd (dot q) | inr q ↦ absurd (dots q) ]
      | inr k ↦ k
    ] in
    let s : has_double_star n ≡ false = elim (Bool-cases (has_double_star n)) [
      | inl k ↦ absurd (run (has_double_star-HasRun n k))
      | inr k ↦ k
    ] in
    let w : is_double_star n ≡ false = elim (Bool-cases (is_double_star n)) [
      | inl k ↦ absurd (run ([], [], is_double_star_to n k))
      | inr k ↦ k
    ] in
    ground arith

segment_read : (s : Segment) → IsSegment s → parse_segment (print s) ≡ some s
unfolding parse_segment
segment_read any_depth h = refl
segment_read (name n) h = name_read n h

segments_read : (ss : List Segment) → Every IsSegment ss → parse_segments (map print ss) ≡ some ss
segments_read [] h = refl
segments_read (s ∷ ss) (h, hs) = rw (segment_read s h, segments_read ss hs) refl

segments_to :
    (ts : List Text) (ss : List Segment)
    → all (all plain) ts ≡ true
    → parse_segments ts ≡ some ss
    → (map print ss ≡ ts) × Every IsSegment ss
segments_to [] ss p h =
    let e : [] ≡ ss = ground arith in
    subst (λ x. (map print x ≡ []) × Every IsSegment x) e (refl, tt)
segments_to (t ∷ ts) ss p h = elim (Option-cases (parse_segment t)) [
  | inl e ↦ absurd (ground arith)
  | inr (one, e) ↦ elim (Option-cases (parse_segments ts)) [
    | inl k ↦ absurd (ground arith)
    | inr (rest, k) ↦
        let q : one ∷ rest ≡ ss = ground arith in
        let (r, i) = segments_to ts rest (ground arith) k in
        subst (λ x. (map print x ≡ t ∷ ts) × Every IsSegment x) q
          (
            rw (print-parse_segment t one e, r) refl,
            (parse_segment-IsSegment t one (ground arith) e, i),
          )
  ]
]

print-filled : (s : Segment) → IsSegment s → filled (print s) ≡ true
unfolding is_refused
print-filled any_depth h = refl
print-filled (name []) (h, a, b, r, chars) = absurd (h refl)
print-filled (name (c ∷ cs)) (h, a, b, r, chars) = (all-plain (c ∷ cs)).1 chars

prints-filled : (ss : List Segment) → Every IsSegment ss → all filled (map print ss) ≡ true
prints-filled [] h = refl
prints-filled (s ∷ ss) (h, hs) = ground (arith, print-filled s h, prints-filled ss hs)

-- A pattern written out from segments, with a slash after it or without.
abbrev pub Writes : Text → List Segment → Type 0
Writes pattern segments =
    (is_empty segments ≡ false)
    × Every IsSegment segments
    × ((pattern ≡ joined (map print segments))
        ⊎ (pattern ≡ joined (map print segments) ++ slash ∷ []))

trimmed_to :
    (pattern : Text) (segments : List Segment)
    → Writes pattern segments
    → strip_slash pattern ≡ joined (map print segments)
trimmed_to pattern segments (f, h, inl e) =
    rw e (strip_slash-joined (map print segments) (prints-filled segments h))
trimmed_to pattern segments (f, h, inr e) = rw e (strip_slash_off (joined (map print segments)))

nonempty : (ss : List Segment) → is_empty (map print ss) ≡ false → is_empty ss ≡ false
nonempty [] h = h
nonempty (s ∷ ss) h = refl

-- What `parse` asks of a pattern without its last slash.
abbrev Trimmed : Text → List Segment → Type 0
Trimmed t segments =
    ((is_empty t || starts_with_slash t) ≡ false)
    × (any is_refused t ≡ false)
    × (parse_segments (split slash t) ≡ some segments)

joined-Trimmed :
    (segments : List Segment)
    → is_empty segments ≡ false
    → Every IsSegment segments
    → Trimmed (joined (map print segments)) segments
joined-Trimmed [] f h = absurd (ground arith)
joined-Trimmed (s ∷ ss) f h =
    let p : all filled (map print (s ∷ ss)) ≡ true = prints-filled (s ∷ ss) h in
    (
      joined-filled (print s) (map print ss) (ground arith),
      joined-refused (map print (s ∷ ss)) p,
      rw (split-joined (print s) (map print ss) (filled-slash (map print (s ∷ ss)) p))
          (segments_read (s ∷ ss) h),
    )

Trimmed-Writes :
    (pattern : Text) (segments : List Segment)
    → Trimmed (strip_slash pattern) segments
    → Writes pattern segments
Trimmed-Writes pattern segments (_, refused, read) =
    let t = strip_slash pattern in
    let (e, h) = segments_to (split slash t) segments (split-plain t refused) read in
    let q : joined (map print segments) ≡ t = ap joined e ∙ joined-split t in
    (nonempty segments (ap is_empty e ∙ split_nonempty slash t), h, rw q (strip_slash_lem pattern))

parse_to :
    (pattern : Text) (glob : PathGlob)
    → parse pattern ≡ some glob
    → (glob.pattern ≡ pattern) × Trimmed (strip_slash pattern) glob.segments
unfolding parse
parse_to pattern glob h = elim (Option-cases (parse_segments (split slash (strip_slash pattern)))) [
  | inl e ↦ absurd (ground arith)
  | inr (segments, e) ↦
      let q : glob.segments ≡ segments = ground arith in
      (ground arith, (ground arith, ground arith, rw q e))
]

parse_from :
    (pattern : Text) (glob : PathGlob)
    → glob.pattern ≡ pattern
    → Trimmed (strip_slash pattern) glob.segments
    → parse pattern ≡ some glob
unfolding parse
parse_from pattern glob p (f, refused, read) =
    rw (f, refused, read)
      (ap (λ x. some (record { pattern = x; segments = glob.segments })) (sym p))

-- A pattern is read as a glob just when the glob keeps the pattern, and the pattern is one or more
-- segments with a slash between each two, and perhaps one after the last, each segment two stars or
-- a name: a text that is not empty, is neither of the two dotted names, and holds no two stars in a
-- row, no slash, square bracket, brace, exclamation mark or backslash, and no control character.
pub parse-Writes :
    (pattern : Text) (glob : PathGlob)
    → (parse pattern ≡ some glob) ↔ ((glob.pattern ≡ pattern) × Writes pattern glob.segments)
parse-Writes pattern glob = (
  (λ h. let (p, t) = parse_to pattern glob h in (p, Trimmed-Writes pattern glob.segments t)),
  (λ (p, w). parse_from pattern glob p (
      subst (λ t. Trimmed t glob.segments) (sym (trimmed_to pattern glob.segments w))
        (joined-Trimmed glob.segments w.0 w.1))),
)
