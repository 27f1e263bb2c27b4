-- ===== src/Windows/Escapes.antt =====
-- What JsonEscapeString writes, ParseString reads (windows/src/json.cpp).
use harness_desktop.Base.{
  ℕ, ◌≡◌, refl, ◌∙◌, ap, sym, true, false, Bool, ◌||◌, inl, inr, ◌⊎◌, [], ◌∷◌, ◌++◌, Bytes, ◌==◌,
  append_assoc, append-nil, Bool-cases, arith,
}
use harness_desktop.Windows.Scan.{
  escape, read_chars, parse_string, escape_char, escape_chars, escape_string,
}

abbrev IsSpecial : ℕ → Type 0
IsSpecial c = (c ≡ b'"') ⊎ (c ≡ b'\\') ⊎ (c ≡ b'\n') ⊎ (c ≡ b'\r') ⊎ (c ≡ b'\t')

abbrev is_special : ℕ → Bool
is_special c = (c == b'"') || (c == b'\\') || (c == b'\n') || (c == b'\r') || (c == b'\t')

IsSpecial-cases : (c : ℕ) → is_special c ≡ true → IsSpecial c
IsSpecial-cases c h = ground arith

abbrev ReadBack : ℕ → Type 0
ReadBack c =
    (rest out : Bytes)
    → read_chars 0 (escape_char c ++ rest) out ≡ read_chars 0 rest (out ++ c ∷ [])

ReadBack-special : (c : ℕ) → IsSpecial c → ReadBack c
unfolding escape_char read_chars escape
ReadBack-special c (inl e) rest out = rw e refl
ReadBack-special c (inr (inl e)) rest out = rw e refl
ReadBack-special c (inr (inr (inl e))) rest out = rw e refl
ReadBack-special c (inr (inr (inr (inl e)))) rest out = rw e refl
ReadBack-special c (inr (inr (inr (inr e)))) rest out = rw e refl

escape_char_plain : (c : ℕ) → is_special c ≡ false → escape_char c ≡ c ∷ []
unfolding escape_char
escape_char_plain c h = ground arith

read_chars_plain :
    (c : ℕ) (s out : Bytes)
    → (c == b'"') ≡ false
    → (c == b'\\') ≡ false
    → read_chars 0 (c ∷ s) out ≡ read_chars 0 s (out ++ c ∷ [])
unfolding read_chars
read_chars_plain c s out q b = rw (b, read_chars) (rw (q, read_chars))

ReadBack-escape_char : (c : ℕ) → ReadBack c
ReadBack-escape_char c = elim (Bool-cases (is_special c)) [
  | inl e ↦ ReadBack-special c (IsSpecial-cases c e)
  | inr e ↦ λ rest out.
      rw (escape_char_plain c e) (read_chars_plain c rest out (ground arith) (ground arith))
]

read_chars-escape_chars :
    (s rest out : Bytes) → read_chars 0 (escape_chars s ++ rest) out ≡ read_chars 0 rest (out ++ s)
unfolding escape_chars
read_chars-escape_chars [] rest out = ap (read_chars 0 rest) (sym (append-nil out))
read_chars-escape_chars (c ∷ s) rest out =
    ap (λ t. read_chars 0 t out) (append_assoc (escape_char c) (escape_chars s) rest)
    ∙ (ReadBack-escape_char c (escape_chars s ++ rest) out
        ∙ (read_chars-escape_chars s rest (out ++ c ∷ [])
            ∙ ap (read_chars 0 rest) (append_assoc out (c ∷ []) s)))

closed :
    (s rest : Bytes)
    → read_chars 0 (b'"' ∷ rest) s ≡ record { returned = true; out = s; rest = rest }
unfolding read_chars
closed s rest = refl

-- ParseString reads back any text that JsonEscapeString wrote, whatever bytes it has, and stands behind
-- its closing quote.
pub parse_string-escape_string :
    (s rest : Bytes)
    → parse_string (escape_string s ++ rest) ≡ record { returned = true; out = s; rest = rest }
unfolding parse_string escape_string
parse_string-escape_string s rest =
    ap (λ t. read_chars 0 t []) (append_assoc (escape_chars s) (b'"' ∷ []) rest)
    ∙ (read_chars-escape_chars s (b'"' ∷ rest) [] ∙ closed s rest)
