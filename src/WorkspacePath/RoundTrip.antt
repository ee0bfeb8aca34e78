-- ===== src/WorkspacePath/RoundTrip.antt =====
-- workspace_path.rs: relative paths in normal form that are read back.
use rust_doctor.Prelude.{
  append_assoc, append_nil, ◌≡◌, refl, sym, ◌∙◌, ap, Bool, true, false, not, Option, some, List, [],
  ◌∷◌, ◌++◌, map, arith, ◌==◌, is_empty, any, all, and_then, same_iff, list_ord, nat_ord,
}
use rust_doctor.Report.{Text}
use rust_doctor.PathGlob.{slash}
use rust_doctor.WorkspacePath.{
  safe_component, joined, or_current, normalize_components, normalize_relative, normalize_changed,
  ends_in_slash, pushed, decode_parts, if_normal, decode_normalized_relative,
}
use rust_doctor.WorkspacePath.Decoded.{decode_component-safe_component}
use rust_doctor.WorkspacePath.Names.{
  is_name, split-joined, safe_component-slash, safe_component-filled, path_components-names,
  safe_components-names, not_absolute,
}

joined-filled :
    (part : Text) (parts : List Text)
    → is_empty part ≡ false
    → is_empty (joined (part ∷ parts)) ≡ false
joined-filled [] parts h = cc
joined-filled (c ∷ cs) [] h = refl
joined-filled (c ∷ cs) (next ∷ parts) h = refl

or_current-filled :
    (allow : Bool) (text : Text) → is_empty text ≡ false → or_current allow text ≡ some text
or_current-filled allow [] h = cc
or_current-filled allow (c ∷ cs) h = refl

without_slash :
    (parts : List Text)
    → all is_name parts ≡ true
    → all (λ p. not (any (λ c. c == slash) p)) parts ≡ true
without_slash [] h = refl
without_slash (part ∷ parts) h = ground (arith, without_slash parts)

normalize-names :
    (allow : Bool) (part : Text) (parts : List Text)
    → all is_name (part ∷ parts) ≡ true
    → normalize_components (joined (part ∷ parts)) allow
      ≡ some (joined (map safe_component (part ∷ parts)))
unfolding normalize_components
normalize-names allow part parts h =
    rw
      (
        not_absolute part parts (ground arith),
        split-joined part parts (without_slash (part ∷ parts) h),
        path_components-names (part ∷ parts) h,
        safe_components-names allow (part ∷ parts),
      )
      (or_current-filled allow _ (
        joined-filled (safe_component part) (map safe_component parts)
          (safe_component-filled part (ground arith))))

-- The names that follow the first, each after a slash.
abbrev tail : List Text → Text
tail [] = []
tail (part ∷ parts) = slash ∷ part ++ tail parts

joined-tail : (part : Text) (parts : List Text) → joined (part ∷ parts) ≡ part ++ tail parts
joined-tail part [] = sym (append_nil part)
joined-tail part (next ∷ parts) = rw (joined-tail next parts) refl

ends-name : (part : Text) → any (λ c. c == slash) part ≡ false → ends_in_slash part ≡ false
ends-name [] h = refl
ends-name (c ∷ []) h = ground arith
ends-name (c ∷ d ∷ cs) h = ends-name (d ∷ cs) (ground arith)

ends-append :
    (path part : Text) → is_empty part ≡ false → ends_in_slash (path ++ part) ≡ ends_in_slash part
ends-append [] part h = refl
ends-append (c ∷ []) [] h = cc
ends-append (c ∷ []) (d ∷ part) h = refl
ends-append (c ∷ d ∷ path) part h = ends-append (d ∷ path) part h

pushed-name :
    (path part : Text)
    → is_empty path ≡ false
    → ends_in_slash path ≡ false
    → is_name part ≡ true
    → pushed path part ≡ path ++ slash ∷ part
unfolding pushed
pushed-name path [] e s h = absurd (ground arith)
pushed-name path (c ∷ cs) e s h = ground arith

append-filled : (xs ys : Text) → is_empty ys ≡ false → is_empty (xs ++ ys) ≡ false
append-filled [] ys h = h
append-filled (x ∷ xs) ys h = refl

pushed-open :
    (path part : Text)
    → is_name part ≡ true
    → (is_empty (path ++ slash ∷ part) ≡ false) × (ends_in_slash (path ++ slash ∷ part) ≡ false)
pushed-open path [] h = absurd (ground arith)
pushed-open path (c ∷ cs) h = (
  append-filled path (slash ∷ c ∷ cs) refl,
  ends-append path (slash ∷ c ∷ cs) refl ∙ ends-name (c ∷ cs) (ground arith),
)

decode_parts-names :
    (parts : List Text) (path : Text)
    → is_empty path ≡ false
    → ends_in_slash path ≡ false
    → all is_name parts ≡ true
    → decode_parts (map safe_component parts) path ≡ some (path ++ tail parts)
unfolding decode_parts
decode_parts-names [] path e s h = ap some (sym (append_nil path))
decode_parts-names (part ∷ parts) path e s h =
    let (filled, ends) = pushed-open path part (ground arith) in
    rw
      (
        decode_component-safe_component part (ground arith),
        pushed-name path part e s (ground arith),
      )
      (decode_parts-names parts (path ++ slash ∷ part) filled ends (ground arith)
        ∙ ap some (append_assoc path (slash ∷ part) (tail parts)))

safe-slash :
    (parts : List Text)
    → all is_name parts ≡ true
    → all (λ p. not (any (λ c. c == slash) p)) (map safe_component parts) ≡ true
safe-slash [] h = refl
safe-slash (part ∷ parts) h = ground (arith, safe_component-slash part, safe-slash parts)

safe-filled :
    (parts : List Text) → all is_name parts ≡ true → any is_empty (map safe_component parts) ≡ false
safe-filled [] h = refl
safe-filled (part ∷ parts) h = ground (arith, safe_component-filled part, safe-filled parts)

names-filled : (parts : List Text) → all is_name parts ≡ true → any is_empty parts ≡ false
names-filled [] h = refl
names-filled (part ∷ parts) h = ground (arith, names-filled parts)

pushed_first : (part : Text) → pushed [] part ≡ part
unfolding pushed
pushed_first part = ground arith

settled :
    (read : Option Text) (decoded path : Text)
    → read ≡ some decoded
    → normalize_components decoded true ≡ some path
    → and_then read (λ d. if_normal path d (normalize_relative d)) ≡ some decoded
unfolding normalize_relative
settled read decoded path e f = rw (e, f, (same_iff path path).1 refl) refl

decode-names :
    (part : Text) (parts : List Text)
    → all is_name (part ∷ parts) ≡ true
    → decode_normalized_relative (joined (map safe_component (part ∷ parts)))
      ≡ some (joined (part ∷ parts))
unfolding decode_normalized_relative decode_parts normalize_relative
decode-names part parts h =
    let safe : Text = safe_component part in
    let others : List Text = map safe_component parts in
    let filled : is_empty (joined (safe ∷ others)) ≡ false =
      joined-filled safe others (safe_component-filled part (ground arith)) in
    let read : decode_parts others (pushed [] part) ≡ some (joined (part ∷ parts)) =
      rw (pushed_first part) (
        decode_parts-names parts part (ground arith) (ends-name part (ground arith)) (ground arith)
        ∙ ap some (sym (joined-tail part parts))) in
    rw
      (
        filled,
        split-joined safe others (safe-slash (part ∷ parts) h),
        safe-filled (part ∷ parts) h,
        decode_component-safe_component part (ground arith),
      )
      (settled (decode_parts others (pushed [] part)) (joined (part ∷ parts))
        (joined (safe ∷ others)) read (normalize-names true part parts h))

-- A path of names that are not empty, hold no slash, are neither of the two dotted names and are
-- Unicode scalars has a normal form, and the normal form is decoded to the path.
pub decode_normalized_relative-normalize_changed :
    (part : Text) (parts : List Text)
    → all is_name (part ∷ parts) ≡ true
    → and_then (normalize_changed (joined (part ∷ parts))) decode_normalized_relative
      ≡ some (joined (part ∷ parts))
unfolding normalize_changed
decode_normalized_relative-normalize_changed part parts h =
    rw
      (
        normalize-names false part parts h,
        joined-filled part parts (ground arith),
        split-joined part parts (without_slash (part ∷ parts) h),
        names-filled (part ∷ parts) h,
      )
      (decode-names part parts h)
