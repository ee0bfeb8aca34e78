-- ===== src/TerminalText/Cut.antt =====
-- terminal_text.rs: `truncate` and the width of what it answers.
use rust_doctor.Prelude.{
  ℕ, ◌+◌, ◌-◌, ◌≤◌, ◌≡◌, refl, ap, inl, inr, Option, some, [], ◌∷◌, ◌++◌, arith, leb, ltb, ◌==◌,
  fold, Bool-cases, leb→le,
}
use rust_doctor.Report.{Text}
use rust_doctor.TerminalText.{width_of, display_width, cut, truncate}

module _ (char_width : ℕ → Option ℕ) where
  -- The width of a text, from a width on.
  abbrev wide : ℕ → Text → ℕ
  wide used content = fold (λ (width : ℕ) (c : ℕ). width + width_of char_width c) used content

  wide-append : (used : ℕ) (xs ys : Text) → wide used (xs ++ ys) ≡ wide (wide used xs) ys
  wide-append used [] ys = refl
  wide-append used (x ∷ xs) ys = wide-append (used + width_of char_width x) xs ys

  wide-cut :
      (budget used : ℕ) (content : Text)
      → used ≤ budget
      → wide used (cut char_width budget used content) ≤ budget
  unfolding cut
  wide-cut budget used [] h = h
  wide-cut budget used (c ∷ cs) h = elim (Bool-cases (ltb budget (used + width_of char_width c))) [
    | inl e ↦ rw e h
    | inr e ↦ rw e (wide-cut budget (used + width_of char_width c) cs (ground arith))
  ]

  -- What is cut is a start of the text.
  cut-prefix :
      (budget used : ℕ) (content : Text)
      → (rest : Text) × (content ≡ cut char_width budget used content ++ rest)
  unfolding cut
  cut-prefix budget used [] = ([], refl)
  cut-prefix budget used (c ∷ cs) = elim (Bool-cases (ltb budget (used + width_of char_width c))) [
    | inl e ↦ rw e (c ∷ cs, refl)
    | inr e ↦
        let (rest, q) = cut-prefix budget (used + width_of char_width c) cs in
        rw e (rest, ap (λ t. c ∷ t) q)
  ]

  -- Where the ellipsis is one column wide, a truncated text is at most as wide as asked.
  pub display_width-truncate :
      (content : Text) (width : ℕ)
      → char_width 8230 ≡ some 1
      → display_width char_width (truncate char_width content width) ≤ width
  unfolding display_width truncate
  display_width-truncate content width one = elim (Bool-cases (leb (wide 0 content) width)) [
    | inl e ↦ rw e (leb→le _ _ e)
    | inr e ↦ rw e (elim (Bool-cases (width == 0)) [
      | inl z ↦ rw z (omega arith)
      | inr z ↦
          rw (z, wide-append 0 (cut char_width (width - 1) 0 content) (8230 ∷ []), one)
            (ground (arith, wide-cut (width - 1) 0 content (omega arith)))
    ])
  ]
