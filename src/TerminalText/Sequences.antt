-- ===== src/TerminalText/Sequences.antt =====
-- terminal_text.rs: whole escape sequences in `strip_escapes`.
use rust_doctor.Prelude.{
  ℕ, ◌≡◌, refl, Bool, true, not, ◌&&◌, [], ◌∷◌, ◌++◌, arith, ◌==◌, length, all,
}
use rust_doctor.Report.{Text}
use rust_doctor.TerminalText.{
  escape, opens_escape, ends_control, ends_string, control_sequence_end, string_sequence_end,
  after_escape, escape_end, strip, strip_escapes,
}
use rust_doctor.TerminalText.Stripped.{strip-fuel, length-escape_end}

control-end :
    (parameters : Text) (final : ℕ) (rest : Text)
    → all (λ c. not (ends_control c)) parameters ≡ true
    → ends_control final ≡ true
    → control_sequence_end (parameters ++ final ∷ rest) ≡ rest
unfolding control_sequence_end
control-end [] final rest h k = rw k refl
control-end (c ∷ cs) final rest h k = ground (arith, control-end cs final rest)

-- A character that a string sequence holds: no terminator, and no escape.
abbrev pub is_held : Bool → ℕ → Bool
is_held bell c = not (ends_string bell c) && not (c == escape)

string-end :
    (bell : Bool) (title : Text) (final : ℕ) (rest : Text)
    → all (is_held bell) title ≡ true
    → ends_string bell final ≡ true
    → string_sequence_end bell (title ++ final ∷ rest) ≡ rest
unfolding string_sequence_end
string-end bell [] final [] h k = refl
string-end bell [] final (d ∷ rest) h k = rw k refl
string-end bell (c ∷ []) final rest h k = ground (arith, string-end bell [] final rest refl)
string-end bell (c ∷ d ∷ cs) final rest h k = ground (arith, string-end bell (d ∷ cs) final rest)

-- One round of the loop at a character that opens an escape.
strip-escape :
    (content : Text) (keep : Bool) (c : ℕ) (rest : Text)
    → opens_escape c ≡ true
    → escape_end (c ∷ content) ≡ rest
    → strip_escapes (c ∷ content) keep ≡ strip_escapes rest keep
unfolding strip_escapes strip
strip-escape content keep c rest h e = rw h (
    rw e (
      strip-fuel (length content) (length rest) keep rest (rw (← e) (length-escape_end c content))
        (omega arith)))

-- A control sequence of an escape, a bracket, parameters that do not end it and a final character
-- that does leaves nothing in the stripped text.
strip_escapes-control :
    (parameters : Text) (final : ℕ) (rest : Text) (keep : Bool)
    → all (λ c. not (ends_control c)) parameters ≡ true
    → ends_control final ≡ true
    → strip_escapes (escape ∷ 91 ∷ parameters ++ final ∷ rest) keep ≡ strip_escapes rest keep
unfolding opens_escape escape_end after_escape
strip_escapes-control parameters final rest keep h k =
    strip-escape (91 ∷ parameters ++ final ∷ rest) keep escape rest refl
      (control-end parameters final rest h k)

-- An operating system command, whose text holds no escape and no terminator, leaves nothing in the
-- stripped text up to its terminator.
strip_escapes-title :
    (title : Text) (final : ℕ) (rest : Text) (keep : Bool)
    → all (is_held true) title ≡ true
    → ends_string true final ≡ true
    → strip_escapes (escape ∷ 93 ∷ title ++ final ∷ rest) keep ≡ strip_escapes rest keep
unfolding opens_escape escape_end after_escape
strip_escapes-title title final rest keep h k =
    strip-escape (93 ∷ title ++ final ∷ rest) keep escape rest refl
      (string-end true title final rest h k)
