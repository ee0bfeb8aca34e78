-- ===== src/Policy/Levels/Printed.antt =====
-- policy.rs: overrides that are printed and read back.
use rust_doctor.Prelude.{
  ℕ, ◌≡◌, refl, false, Option, none, some, [], ◌∷◌, ◌++◌, arith, ◌==◌, is_empty, any, cmp_list,
  same_iff, list_ord, nat_ord, ◌↔◌, Option-cases, ok, Bool-cases, inl, inr,
}
use rust_doctor.Report.{Text, codes}
use rust_doctor.Policy.Levels.{
  RuleLevel, off, warn, error, Override, equals, level_label, print_override, split_once,
  read_level, read_parts, parse_override,
}

split_once-append :
    (c : ℕ) (xs ys : Text)
    → any (λ x. x == c) xs ≡ false
    → split_once c (xs ++ c ∷ ys) ≡ some (xs, ys)
split_once-append c [] ys h = ground arith
split_once-append c (x ∷ xs) ys h = elim (Bool-cases (x == c)) [
  | inl e ↦ absurd (ground arith)
  | inr e ↦ rw (e, split_once-append c xs ys (ground arith)) refl
]

level_label-read : (level : RuleLevel) → read_level (level_label level) ≡ some level
unfolding read_level level_label cmp_list
level_label-read off = refl
level_label-read warn = refl
level_label-read error = refl

split_once-some :
    (c : ℕ) (xs a b : Text)
    → split_once c xs ≡ some (a, b)
    → (a ++ c ∷ b ≡ xs) × (any (λ x. x == c) a ≡ false)
split_once-some c [] a b h = cc
split_once-some c (x ∷ xs) a b h = elim (Bool-cases (x == c)) [
  | inl e ↦ (ground arith, ground arith)
  | inr e ↦ elim (Option-cases (split_once c xs)) [
    | inl q ↦ absurd (ground arith)
    | inr ((a', b'), q) ↦ let (p, r) = split_once-some c xs a' b' q in (ground arith, ground arith)
  ]
]

read_level-label :
    (text : Text) (level : RuleLevel) → read_level text ≡ some level → level_label level ≡ text
unfolding read_level level_label
read_level-label text level h = ground (
  arith,
  (same_iff text (codes "off")).0,
  (same_iff text (codes "warn")).0,
  (same_iff text (codes "error")).0,
)

read_parts-ok :
    (parts : Option (Text × Text)) (override : Override)
    → read_parts parts ≡ ok override
    → (parts ≡ some (override.selector, level_label override.level))
      × (is_empty override.selector ≡ false)
unfolding read_parts
read_parts-ok none override h = absurd (ground arith)
read_parts-ok (some (selector, level)) override h = elim (Bool-cases (is_empty selector)) [
  | inl e ↦ absurd (ground arith)
  | inr e ↦ elim (Option-cases (read_level level)) [
    | inl q ↦ absurd (ground arith)
    | inr (l, q) ↦ (ground (arith, read_level-label level l q), ground arith)
  ]
]

-- A text is read as an override just when it is what the override prints and the selector is not
-- empty and has no equals sign.
pub parse_override_iff :
    (value : Text) (override : Override)
    → (parse_override value ≡ ok override) ↔ (
        (print_override override ≡ value)
        × (is_empty override.selector ≡ false)
        × (any (λ c. c == equals) override.selector ≡ false))
unfolding parse_override print_override read_parts
parse_override_iff value override = (
  (λ h.
      let (parts, filled) = read_parts-ok (split_once equals value) override h in
      let (joined, absent) =
        split_once-some equals value override.selector (level_label override.level) parts in
      (joined, filled, absent)),
  (λ h. rw (← h.0) (
      rw
        (
          split_once-append equals override.selector (level_label override.level) h.2,
          h.1,
          level_label-read override.level,
        )
        refl)),
)
