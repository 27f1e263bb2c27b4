-- ===== src/Json/Strings.antt =====
-- What AppendString writes, ParseString reads (linux/src/json.cpp).
use harness_desktop.Base.{
  ℕ, suc, ◌+◌, ◌*◌, ◌/◌, ◌%◌, ◌<◌, ◌≡◌, refl, ◌∙◌, true, false, ◌||◌, inl, inr, ◌⊎◌, [], ◌∷◌, ◌++◌,
  some, Bytes, ltb, Bool, ◌==◌, append_assoc, append-nil, Bool-cases, arith,
}
use harness_desktop.Json.Scan.{
  is_high_surrogate, utf8, hex_digit, unicode_escape, escape, read_chars, open_quote, parse_string,
}
use harness_desktop.Json.Printer.{hex_char, append_char, append_chars, append_string}

pub hex_digit-hex_char : (n : ℕ) → n < 16 → hex_digit (hex_char n) ≡ some n
unfolding hex_digit hex_char
hex_digit-hex_char n h = ground arith

unicode_escape-control :
    (c : ℕ) (rest : Bytes)
    → c < 32
    → unicode_escape (b'0' ∷ b'0' ∷ hex_char (c / 16) ∷ hex_char (c % 16) ∷ rest) ≡ some (4, c ∷ [])
unfolding unicode_escape
unicode_escape-control c rest h =
    let whole : (0 + c / 16) * 16 + c % 16 ≡ c = omega arith in
    let low : is_high_surrogate c ≡ false = ground arith in
    let byte : ltb c 0x80 ≡ true = ground arith in
    rw (hex_digit-hex_char (c / 16) (omega arith))
      (rw (hex_digit-hex_char (c % 16) (omega arith)) (rw whole (rw low (rw (byte, utf8)))))

-- A byte that stands for itself.
read_chars_plain :
    (c : ℕ) (s out : Bytes)
    → (c == b'"') ≡ false
    → (c == b'\\') ≡ false
    → read_chars 0 (c ∷ s) out ≡ read_chars 0 s (out ++ c ∷ [])
unfolding read_chars
read_chars_plain c s out q b = rw (q, read_chars) (rw (b, read_chars))

read_chars-escape :
    (n : ℕ) (s piece out : Bytes)
    → escape s ≡ some (n, piece)
    → read_chars 0 (b'\\' ∷ s) out ≡ read_chars n s (out ++ piece)
unfolding read_chars
read_chars-escape n s piece out h = rw (h, read_chars)

escape-u :
    (n : ℕ) (s piece : Bytes)
    → unicode_escape s ≡ some (n, piece)
    → escape (b'u' ∷ s) ≡ some (suc n, piece)
unfolding escape
escape-u n s piece h = rw (h, escape)

read_chars_skip :
    (a b c d e : ℕ) (s out : Bytes) → read_chars 5 (a ∷ b ∷ c ∷ d ∷ e ∷ s) out ≡ read_chars 0 s out
unfolding read_chars
read_chars_skip a b c d e s out = refl

abbrev ReadBack : ℕ → Type 0
ReadBack c =
    (rest out : Bytes)
    → read_chars 0 (append_char c ++ rest) out ≡ read_chars 0 rest (out ++ c ∷ [])

-- A control byte without a letter of its own, behind the tests for those that have one.
read_control :
    (c : ℕ)
    → c < 32
    → append_char c ≡ b'\\' ∷ b'u' ∷ b'0' ∷ b'0' ∷ hex_char (c / 16) ∷ hex_char (c % 16) ∷ []
    → ReadBack c
read_control c h e rest out = rw e (
    read_chars-escape 5 _ (c ∷ []) out (escape-u 4 _ (c ∷ []) (unicode_escape-control c rest h))
    ∙ read_chars_skip _ _ _ _ _ rest (out ++ c ∷ []))

-- The bytes that have an escape of their own.
is_special : ℕ → Bool
is_special c =
    (c == b'"')
    || (c == b'\\')
    || (c == 8)
    || (c == 12)
    || (c == b'\n')
    || (c == b'\r')
    || (c == b'\t')

abbrev IsSpecial : ℕ → Type 0
IsSpecial c =
    (c ≡ b'"') ⊎ (c ≡ b'\\') ⊎ (c ≡ 8) ⊎ (c ≡ 12) ⊎ (c ≡ b'\n') ⊎ (c ≡ b'\r') ⊎ (c ≡ b'\t')

IsSpecial-cases : (c : ℕ) → is_special c ≡ true → IsSpecial c
unfolding is_special
IsSpecial-cases c h = ground arith

ReadBack-special : (c : ℕ) → IsSpecial c → ReadBack c
unfolding append_char read_chars
ReadBack-special c (inl e) rest out = rw e
ReadBack-special c (inr (inl e)) rest out = rw e
ReadBack-special c (inr (inr (inl e))) rest out = rw e
ReadBack-special c (inr (inr (inr (inl e)))) rest out = rw e
ReadBack-special c (inr (inr (inr (inr (inl e))))) rest out = rw e
ReadBack-special c (inr (inr (inr (inr (inr (inl e)))))) rest out = rw e
ReadBack-special c (inr (inr (inr (inr (inr (inr e)))))) rest out = rw e

append_char-control :
    (c : ℕ)
    → is_special c ≡ false
    → ltb c 32 ≡ true
    → append_char c ≡ b'\\' ∷ b'u' ∷ b'0' ∷ b'0' ∷ hex_char (c / 16) ∷ hex_char (c % 16) ∷ []
unfolding append_char is_special
append_char-control c h k = ground arith

append_char-plain : (c : ℕ) → is_special c ≡ false → ltb c 32 ≡ false → append_char c ≡ c ∷ []
unfolding append_char is_special
append_char-plain c h k = ground arith

ReadBack-plain : (c : ℕ) → is_special c ≡ false → ReadBack c
unfolding is_special
ReadBack-plain c h rest out = elim (Bool-cases (ltb c 32)) [
  | inl k ↦ read_control c (ground arith) (append_char-control c h k) rest out
  | inr k ↦ rw (append_char-plain c h k) (read_chars_plain c rest out (ground arith) (ground arith))
]

-- One byte, however it was written, is read back.
read_chars-append_char : (c : ℕ) → ReadBack c
read_chars-append_char c = elim (Bool-cases (is_special c)) [
  | inl h ↦ ReadBack-special c (IsSpecial-cases c h)
  | inr h ↦ ReadBack-plain c h
]

read_chars-append_chars :
    (s rest out : Bytes)
    → read_chars 0 (append_chars s ++ (b'"' ∷ rest)) out ≡ some (out ++ s, rest)
unfolding append_chars
read_chars-append_chars [] rest out = unfold read_chars in rw append-nil
read_chars-append_chars (c ∷ s) rest out =
    simp (append_assoc, read_chars-append_char, read_chars-append_chars s)

pub parse_string-append_string :
    (s rest : Bytes) → parse_string (append_string s ++ rest) ≡ some (s, rest)
unfolding parse_string append_string open_quote
parse_string-append_string s rest = simp (append_assoc) (read_chars-append_chars s rest [])
