-- ===== src/TerminalText/Stripped.antt =====
-- terminal_text.rs: the characters that `strip_escapes` leaves.
use rust_doctor.Prelude.{
  ℕ, zero, suc, ◌≤◌, ◌≡◌, refl, inl, inr, Bool, true, false, not, ◌&&◌, ◌||◌, [], ◌∷◌, arith, ◌==◌,
  length, Bool-cases, all,
}
use rust_doctor.Report.{Text}
use rust_doctor.TerminalText.{
  is_control, opens_escape, control_sequence_end, string_sequence_end, intermediate_end,
  after_escape, escape_end, strip, strip_escapes,
}

-- The characters that may stand in the output.
abbrev pub is_clean : Bool → ℕ → Bool
is_clean keep_whitespace c = not (is_control c) || keep_whitespace && (c == 10 || c == 9)

strip-clean :
    (fuel : ℕ) (keep : Bool) (content : Text) → all (is_clean keep) (strip fuel keep content) ≡ true
unfolding strip
strip-clean fuel keep [] = refl
strip-clean zero keep (c ∷ cs) = refl
strip-clean (suc fuel) keep (c ∷ cs) = elim (Bool-cases (opens_escape c)) [
  | inl e ↦ rw e (strip-clean fuel keep (escape_end (c ∷ cs)))
  | inr e ↦ rw e (ground (arith, strip-clean fuel keep cs))
]

-- Sequences end further on.
length-control : (cs : Text) → length (control_sequence_end cs) ≤ length cs
unfolding control_sequence_end
length-control [] = omega arith
length-control (c ∷ cs) = ground (arith, length-control cs)

length-string : (bell : Bool) (cs : Text) → length (string_sequence_end bell cs) ≤ length cs
unfolding string_sequence_end
length-string bell [] = omega arith
length-string bell (c ∷ []) = omega arith
length-string bell (c ∷ d ∷ cs) = ground (arith, length-string bell (d ∷ cs))

length-intermediate : (cs : Text) → length (intermediate_end cs) ≤ length cs
unfolding intermediate_end
length-intermediate [] = omega arith
length-intermediate (c ∷ cs) = ground (arith, length-intermediate cs)

length-after_escape : (cs : Text) → length (after_escape cs) ≤ length cs
unfolding after_escape
length-after_escape [] = omega arith
length-after_escape (c ∷ cs) = ground (
  arith,
  length-control cs,
  length-string true cs,
  length-string false cs,
  length-intermediate cs,
)

pub length-escape_end : (c : ℕ) (cs : Text) → length (escape_end (c ∷ cs)) ≤ length cs
unfolding escape_end
length-escape_end c cs = ground (
  arith,
  length-control cs,
  length-string true cs,
  length-string false cs,
  length-after_escape cs,
)

-- Fuel beyond the length changes nothing.
pub strip-fuel :
    (m n : ℕ) (keep : Bool) (content : Text)
    → length content ≤ m
    → length content ≤ n
    → strip m keep content ≡ strip n keep content
unfolding strip
strip-fuel m n keep [] h k = refl
strip-fuel zero n keep (c ∷ cs) h k = absurd (omega arith)
strip-fuel (suc m) zero keep (c ∷ cs) h k = absurd (omega arith)
strip-fuel (suc m) (suc n) keep (c ∷ cs) h k =
    rw
      (
        strip-fuel m n keep cs (omega arith) (omega arith),
        strip-fuel m n keep (escape_end (c ∷ cs)) (omega (arith, length-escape_end c cs))
            (omega (arith, length-escape_end c cs)),
      )
      refl

-- The stripped text has no control character, but for newlines and tabs when whitespace is kept.
pub strip_escapes-clean :
    (content : Text) (keep : Bool) → all (is_clean keep) (strip_escapes content keep) ≡ true
unfolding strip_escapes
strip_escapes-clean content keep = strip-clean (length content) keep content

clean-opens : (keep : Bool) (c : ℕ) → is_clean keep c ≡ true → opens_escape c ≡ false
unfolding is_control opens_escape
clean-opens keep c h = ground arith

clean-control :
    (keep : Bool) (c : ℕ)
    → is_clean keep c ≡ true
    → is_control c ≡ true
    → (keep && (c == 10 || c == 9)) ≡ true
clean-control keep c h k = ground arith

strip-unchanged :
    (fuel : ℕ) (keep : Bool) (content : Text)
    → length content ≤ fuel
    → all (is_clean keep) content ≡ true
    → strip fuel keep content ≡ content
unfolding strip
strip-unchanged fuel keep [] h k = refl
strip-unchanged zero keep (c ∷ cs) h k = absurd (omega arith)
strip-unchanged (suc fuel) keep (c ∷ cs) h k =
    rw
      (clean-opens keep c (ground arith), strip-unchanged fuel keep cs (omega arith) (ground arith))
      (elim (Bool-cases (is_control c)) [
        | inl e ↦ rw (e, clean-control keep c (ground arith) e) refl
        | inr e ↦ rw e refl
      ])

strip_escapes-unchanged :
    (content : Text) (keep : Bool)
    → all (is_clean keep) content ≡ true
    → strip_escapes content keep ≡ content
unfolding strip_escapes
strip_escapes-unchanged content keep h =
    strip-unchanged (length content) keep content (omega arith) h

-- Stripping a stripped text again, with the same choice on whitespace, changes nothing.
strip_escapes-idempotent :
    (content : Text) (keep : Bool)
    → strip_escapes (strip_escapes content keep) keep ≡ strip_escapes content keep
strip_escapes-idempotent content keep =
    strip_escapes-unchanged (strip_escapes content keep) keep (strip_escapes-clean content keep)
