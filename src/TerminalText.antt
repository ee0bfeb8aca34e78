-- ===== src/TerminalText.antt =====
-- terminal_text.rs: escape sequences and control characters are removed from a text, and a text is cut to
-- a width. Characters are code points, and an index into them is the list of the characters from it
-- on. The width of a character is the unicode-width crate's, a parameter.
pub mod Stripped
pub mod Sequences
pub mod Cut
use rust_doctor.Prelude.{
  ℕ, zero, suc, ◌+◌, ◌-◌, ◌≡◌, Bool, true, false, not, ◌&&◌, ◌||◌, Option, none, some, List, [],
  ◌∷◌, ◌++◌, arith, leb, ltb, ◌==◌, if◌then◌else◌, unwrap_or, length, fold,
}
use rust_doctor.Report.{Text}

abbrev pub escape : ℕ
escape = 27

-- `char::is_control`: the code points 0 to 31 and 127 to 159.
unfoldable pub is_control : ℕ → Bool
is_control c = leb c 31 || leb 127 c && leb c 159

unfoldable pub opens_escape : ℕ → Bool
opens_escape c = c == 27 || c == 144 || c == 152 || c == 155 || c == 157 || c == 158 || c == 159

-- The characters that end a control sequence, and those that end a string sequence.
unfoldable pub ends_control : ℕ → Bool
ends_control c = c == 24 || c == 26 || leb 64 c && leb c 126

unfoldable pub ends_string : Bool → ℕ → Bool
ends_string bell_terminates c = c == 24 || c == 26 || c == 156 || bell_terminates && c == 7

unfoldable pub control_sequence_end : Text → Text
unfolding ends_control
control_sequence_end [] = []
control_sequence_end (c ∷ cs) = if ends_control c then cs else control_sequence_end cs

unfoldable pub string_sequence_end : Bool → Text → Text
unfolding ends_string
string_sequence_end bell [] = []
string_sequence_end bell (c ∷ []) = []
string_sequence_end bell (c ∷ d ∷ cs) =
    let rest = string_sequence_end bell (d ∷ cs) in
    if ends_string bell c then d ∷ cs else if c == escape && d == 92 then cs else rest

-- The run of intermediate characters of an escape, and its final one.
abbrev pub is_intermediate : ℕ → Bool
is_intermediate c = leb 32 c && leb c 47

unfoldable pub intermediate_end : Text → Text
intermediate_end [] = []
intermediate_end (c ∷ cs) =
    let rest = intermediate_end cs in
    if is_intermediate c then rest else if leb 48 c && leb c 126 then cs else c ∷ cs

-- The match on the character after an escape.
unfoldable pub after_escape : Text → Text
unfolding control_sequence_end string_sequence_end intermediate_end
after_escape [] = []
after_escape (c ∷ cs) =
    if c == 91
    then control_sequence_end cs
    else if c == 93
    then string_sequence_end true cs
    else if c == 80 || c == 88 || c == 94 || c == 95
    then string_sequence_end false cs
    else if is_intermediate c
    then intermediate_end cs
    else cs

unfoldable pub escape_end : Text → Text
unfolding after_escape
escape_end [] = []
escape_end (c ∷ cs) =
    if c == 155
    then control_sequence_end cs
    else if c == 157
    then string_sequence_end true cs
    else if c == 144 || c == 152 || c == 158 || c == 159
    then string_sequence_end false cs
    else if c == escape
    then after_escape cs
    else cs

-- The loop of `strip_escapes`, each round of which takes a character at least.
unfoldable pub strip : ℕ → Bool → Text → Text
unfolding escape_end opens_escape is_control
strip fuel keep_whitespace [] = []
strip zero keep_whitespace (c ∷ cs) = []
strip (suc fuel) keep_whitespace (c ∷ cs) =
    let skipped = strip fuel keep_whitespace (escape_end (c ∷ cs)) in
    let rest = strip fuel keep_whitespace cs in
    if opens_escape c
    then skipped
    else if is_control c
    then (if keep_whitespace && (c == 10 || c == 9) then c ∷ rest else rest)
    else c ∷ rest

unfoldable pub strip_escapes : Text → Bool → Text
unfolding strip
strip_escapes content keep_whitespace = strip (length content) keep_whitespace content

unfoldable pub sanitize : Text → Text
unfolding strip_escapes
sanitize content = strip_escapes content false

unfoldable pub sanitize_multiline : Text → Text
unfolding strip_escapes
sanitize_multiline content = strip_escapes content true

module _ (char_width : ℕ → Option ℕ) where
  abbrev pub width_of : ℕ → ℕ
  width_of c = unwrap_or (char_width c) 0

  -- Widths are far below the bound of `saturating_add`.
  unfoldable pub display_width : Text → ℕ
  display_width content = fold (λ (width : ℕ) (c : ℕ). width + width_of c) 0 content

  -- The loop of `truncate`, with the width used so far.
  unfoldable pub cut : ℕ → ℕ → Text → Text
  cut budget used [] = []
  cut budget used (c ∷ cs) =
      let rest = cut budget (used + width_of c) cs in
      if ltb budget (used + width_of c) then [] else c ∷ rest

  unfoldable pub truncate : Text → ℕ → Text
  unfolding display_width cut
  truncate content width =
      if leb (display_width content) width
      then content
      else if width == 0
      then []
      else cut (width - 1) 0 content ++ 8230 ∷ []
