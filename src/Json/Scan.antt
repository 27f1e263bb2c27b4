-- ===== src/Json/Scan.antt =====
-- The lexical part of struct Parser in linux/src/json.cpp: SkipWs, ParseString, and the number and
-- literal tokens. A position `i` in `s` is the list of the bytes from `i` on; to advance it is to
-- drop bytes, and `i >= s.size()` is the empty list.
use harness_desktop.Base.{
  ℕ, zero, suc, ◌+◌, ◌-◌, ◌*◌, ◌/◌, ◌%◌, Bool, true, false, ◌&&◌, ◌||◌, [], ◌∷◌, ◌++◌, Option, none,
  some, Bytes, ltb, leb, ◌==◌, if◌then◌else◌, drop,
}

infixl 5 ◌>>=◌
abbrev pub ◌>>=◌ {ℓ κ} : {A : Type ℓ} {B : Type κ} → Option A → (A → Option B) → Option B
none >>= f = none
some a >>= f = f a

abbrev pub is_ws : ℕ → Bool
is_ws c = c == b' ' || c == b'\t' || c == b'\n' || c == b'\r'

-- SkipWs
unfoldable pub skip_ws : Bytes → Bytes
skip_ws [] = []
skip_ws (c ∷ s) = let rest = skip_ws s in if is_ws c then rest else c ∷ s

abbrev pub is_digit : ℕ → Bool
is_digit c = leb b'0' c && leb c b'9'

-- One hexadecimal digit, as the two loops of ParseString read it.
unfoldable pub hex_digit : ℕ → Option ℕ
hex_digit h =
    if is_digit h
    then some (h - b'0')
    else if leb b'a' h && leb h b'f'
    then some (h - b'a' + 10)
    else if leb b'A' h && leb h b'F'
    then some (h - b'A' + 10)
    else none

-- Four hexadecimal digits: `cp <<= 4; cp |= digit`, four times. Fewer bytes are none.
unfoldable pub hex4 : Bytes → Option ℕ
unfolding hex_digit
hex4 (a ∷ b ∷ c ∷ d ∷ s) = do
  x ← hex_digit a
  y ← hex_digit b
  z ← hex_digit c
  w ← hex_digit d
  some (((x * 16 + y) * 16 + z) * 16 + w)
hex4 _ = none

-- The low surrogate behind `\u`, if one stands at the front: the test `i + 6 <= s.size()`, the two
-- bytes, the digits and the range.
unfoldable pub low_surrogate : Bytes → Option ℕ
unfolding hex4
low_surrogate (b ∷ u ∷ s) =
    if (b == b'\\') && (u == b'u')
    then (do lo ← hex4 s; if leb 0xDC00 lo && leb lo 0xDFFF then some lo else none)
    else none
low_surrogate _ = none

-- "Encode as UTF-8."
unfoldable pub utf8 : ℕ → Bytes
utf8 cp =
    if ltb cp 0x80
    then cp ∷ []
    else if ltb cp 0x800
    then (0xC0 + cp / 64) ∷ (0x80 + cp % 64) ∷ []
    else if ltb cp 0x10000
    then (0xE0 + cp / 4096) ∷ (0x80 + cp / 64 % 64) ∷ (0x80 + cp % 64) ∷ []
    else (0xF0 + cp / 262144)
      ∷ (0x80 + cp / 4096 % 64)
      ∷ (0x80 + cp / 64 % 64)
      ∷ (0x80 + cp % 64)
      ∷ []

abbrev pub is_high_surrogate : ℕ → Bool
is_high_surrogate cp = leb 0xD800 cp && leb cp 0xDBFF

-- The code point with its low surrogate, if there is one: how many bytes were read for it, and its
-- encoding.
unfoldable pub join_surrogates : ℕ → Option ℕ → ℕ × Bytes
unfolding utf8
join_surrogates cp none = (4, utf8 cp)
join_surrogates cp (some lo) = (10, utf8 (0x10000 + (cp - 0xD800) * 1024 + (lo - 0xDC00)))

-- `case 'u'`, on the bytes behind it: how many of them it takes, and the bytes that it appends.
unfoldable pub unicode_escape : Bytes → Option (ℕ × Bytes)
unfolding hex4 low_surrogate join_surrogates
unicode_escape s = do
  cp ← hex4 s
  let low = if is_high_surrogate cp then low_surrogate (drop 4 s) else none
  some (join_surrogates cp low)

-- The switch behind a backslash, on the bytes from there on.
unfoldable pub escape : Bytes → Option (ℕ × Bytes)
unfolding unicode_escape
escape [] = none
escape (e ∷ s) =
    if (e == b'"') || (e == b'\\') || (e == b'/')
    then some (1, e ∷ [])
    else if e == b'b'
    then some (1, 8 ∷ [])
    else if e == b'f'
    then some (1, 12 ∷ [])
    else if e == b'n'
    then some (1, b'\n' ∷ [])
    else if e == b'r'
    then some (1, b'\r' ∷ [])
    else if e == b't'
    then some (1, b'\t' ∷ [])
    else if e == b'u'
    then (do (n, piece) ← unicode_escape s; some (suc n, piece))
    else none

-- The loop of ParseString. The first argument counts the bytes that `i` has advanced over already.
unfoldable pub read_chars : ℕ → Bytes → Bytes → Option (Bytes × Bytes)
unfolding escape
read_chars skip [] result = none
read_chars (suc skip) (c ∷ s) result = read_chars skip s result
read_chars zero (c ∷ s) result = elim (c == b'"') [
  | true ↦ some (result, s)
  | false ↦ elim (c == b'\\') [
    | true ↦ elim (escape s) [ none ↦ none | some (n, piece) ↦ read_chars n s (result ++ piece) ]
    | false ↦ read_chars zero s (result ++ c ∷ [])
  ]
]

unfoldable pub open_quote : Bytes → Option (Bytes × Bytes)
open_quote [] = none
open_quote (c ∷ s) = if c == b'"' then read_chars 0 s [] else none

-- ParseString
unfoldable pub parse_string : Bytes → Option (Bytes × Bytes)
unfolding skip_ws read_chars
parse_string s = open_quote (skip_ws s)

-- What ParseNumber reads: each part is the bytes taken and the bytes left.
unfoldable pub scan_digits : Bytes → Bytes × Bytes
scan_digits [] = ([], [])
scan_digits (c ∷ s) =
    let (digits, rest) = scan_digits s in if is_digit c then (c ∷ digits, rest) else ([], c ∷ s)

unfoldable pub scan_minus : Bytes → Bytes × Bytes
scan_minus [] = ([], [])
scan_minus (c ∷ s) = if c == b'-' then (c ∷ [], s) else ([], c ∷ s)

unfoldable pub scan_fraction : Bytes → Bytes × Bytes
unfolding scan_digits
scan_fraction [] = ([], [])
scan_fraction (c ∷ s) =
    if c == b'.' then (c ∷ (scan_digits s).0, (scan_digits s).1) else ([], c ∷ s)

unfoldable pub scan_exponent_sign : Bytes → Bytes × Bytes
scan_exponent_sign [] = ([], [])
scan_exponent_sign (c ∷ s) = if (c == b'+') || (c == b'-') then (c ∷ [], s) else ([], c ∷ s)

unfoldable pub scan_exponent : Bytes → Bytes × Bytes
unfolding scan_digits scan_exponent_sign
scan_exponent [] = ([], [])
scan_exponent (c ∷ s) =
    let (sign, s₁) = scan_exponent_sign s in
    let (digits, s₂) = scan_digits s₁ in
    if (c == b'e') || (c == b'E') then (c ∷ (sign ++ digits), s₂) else ([], c ∷ s)

-- ParseNumber: the token s.substr(start, i - start), and the bytes from `i` on.
unfoldable pub scan_number : Bytes → Bytes × Bytes
unfolding scan_minus scan_digits scan_fraction scan_exponent
scan_number s =
    let (minus, s₁) = scan_minus s in
    let (whole, s₂) = scan_digits s₁ in
    let (fraction, s₃) = scan_fraction s₂ in
    let (exponent, s₄) = scan_exponent s₃ in (minus ++ (whole ++ (fraction ++ exponent)), s₄)
