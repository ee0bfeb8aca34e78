-- ===== src/WorkspacePath/Decoded.antt =====
-- workspace_path.rs: names that are escaped and read back.
use rust_doctor.Prelude.{
  ℕ, ◌+◌, ◌*◌, ◌/◌, ◌%◌, ◌<◌, ◌≡◌, refl, subst, inl, inr, true, false, ◌||◌, some, List, [], ◌∷◌,
  ◌++◌, arith, ◌==◌, all, Every, Bool-cases,
}
use rust_doctor.Report.{Text}
use rust_doctor.PathGlob.{is_control}
use rust_doctor.Utf8.{utf8, is_scalar, decode_utf8, from_utf8, bytes_of}
use rust_doctor.WorkspacePath.{
  percent, hex_digit, hex_value, escape_bytes, safe_character, safe_component, plain,
  decode_percent, decode_component,
}

decode_utf8-utf8 :
    (c : ℕ) (bs : List ℕ) (text : Text)
    → is_scalar c ≡ true
    → decode_utf8 bs 0 0 0 ≡ some text
    → decode_utf8 (utf8 c ++ bs) 0 0 0 ≡ some (c ∷ text)
unfolding decode_utf8 utf8
decode_utf8-utf8 c bs text h k = ground arith

bytes_of-decoded :
    (text : Text) → all is_scalar text ≡ true → decode_utf8 (bytes_of text) 0 0 0 ≡ some text
unfolding decode_utf8
bytes_of-decoded [] h = refl
bytes_of-decoded (c ∷ cs) h =
    decode_utf8-utf8 c (bytes_of cs) cs (ground arith) (bytes_of-decoded cs (ground arith))

hex_value-hex_digit : (n : ℕ) → n < 16 → hex_value (hex_digit n) ≡ some n
unfolding hex_value hex_digit
hex_value-hex_digit n h = ground arith

utf8-hex_digit : (n : ℕ) → n < 16 → utf8 (hex_digit n) ≡ hex_digit n ∷ []
unfolding utf8 hex_digit
utf8-hex_digit n h = ground arith

decode_percent-hex :
    (p q x y : ℕ) (bs r : List ℕ)
    → hex_value p ≡ some x
    → hex_value q ≡ some y
    → decode_percent bs plain ≡ some r
    → decode_percent (percent ∷ p ∷ q ∷ bs) plain ≡ some ((x * 16 + y) ∷ r)
unfolding decode_percent
decode_percent-hex p q x y bs r e f k = ground arith

decode_percent-escape :
    (b : ℕ) (cs : Text) (r : List ℕ)
    → b < 256
    → decode_percent (bytes_of cs) plain ≡ some r
    → decode_percent (bytes_of (percent ∷ hex_digit (b / 16) ∷ hex_digit (b % 16) ∷ cs)) plain
      ≡ some (b ∷ r)
unfolding utf8
decode_percent-escape b cs r h k =
    let x : b / 16 < 16 = omega arith in
    let y : b % 16 < 16 = omega arith in
    let z : b / 16 * 16 + b % 16 ≡ b = omega arith in
    rw (utf8-hex_digit (b / 16) x, utf8-hex_digit (b % 16) y)
      (subst
        (λ n.
          decode_percent (percent ∷ hex_digit (b / 16) ∷ hex_digit (b % 16) ∷ bytes_of cs) plain
          ≡ some (n ∷ r))
        z
        (decode_percent-hex _ _ (b / 16) (b % 16) (bytes_of cs) r (hex_value-hex_digit (b / 16) x)
          (hex_value-hex_digit (b % 16) y) k))

decode_percent-escape_bytes :
    (bs : List ℕ) (cs : Text) (r : List ℕ)
    → Every (λ b. b < 256) bs
    → decode_percent (bytes_of cs) plain ≡ some r
    → decode_percent (bytes_of (escape_bytes bs ++ cs)) plain ≡ some (bs ++ r)
decode_percent-escape_bytes [] cs r h k = k
decode_percent-escape_bytes (b ∷ bs) cs r h k =
    decode_percent-escape b (escape_bytes bs ++ cs) (bs ++ r) h.0
      (decode_percent-escape_bytes bs cs r h.1 k)

control-utf8 : (c : ℕ) → (c == percent || is_control c) ≡ true → Every (λ b. b < 256) (utf8 c)
unfolding utf8
control-utf8 c h = ground arith

decode_percent-utf8 :
    (c : ℕ) (bs r : List ℕ)
    → (c == percent) ≡ false
    → decode_percent bs plain ≡ some r
    → decode_percent (utf8 c ++ bs) plain ≡ some (utf8 c ++ r)
unfolding decode_percent utf8
decode_percent-utf8 c bs r h k = ground arith

decode_percent-safe_component :
    (cs : Text) → decode_percent (bytes_of (safe_component cs)) plain ≡ some (bytes_of cs)
unfolding safe_component safe_character decode_percent
decode_percent-safe_component [] = refl
decode_percent-safe_component (c ∷ cs) = elim (Bool-cases (c == percent || is_control c)) [
  | inl e ↦
      rw (e, safe_character)
        (decode_percent-escape_bytes (utf8 c) (safe_component cs) (bytes_of cs) (control-utf8 c e)
          (decode_percent-safe_component cs))
  | inr e ↦
      rw (e, safe_character)
        (decode_percent-utf8 c (bytes_of (safe_component cs)) (bytes_of cs) (ground arith)
          (decode_percent-safe_component cs))
]

pub decode_component-safe_component :
    (name : Text) → all is_scalar name ≡ true → decode_component (safe_component name) ≡ some name
unfolding decode_component from_utf8
decode_component-safe_component name h =
    rw (decode_percent-safe_component name) (bytes_of-decoded name h)
