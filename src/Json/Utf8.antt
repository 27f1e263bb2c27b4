-- ===== src/Json/Utf8.antt =====
-- The UTF-8 encoder and the surrogate pairs of ParseString (linux/src/json.cpp).
use harness_desktop.Base.{
  ℕ, ◌+◌, ◌-◌, ◌*◌, ◌/◌, ◌%◌, ◌≤◌, ◌<◌, ◌≡◌, ◌∙◌, Bool, true, false, ◌&&◌, ◌==◌, [], ◌∷◌, Option,
  none, some, Bytes, ltb, leb, if◌then◌else◌, drop, arith,
}
use harness_desktop.Json.Printer.{hex_char}
use harness_desktop.Json.Strings.{hex_digit-hex_char}
use harness_desktop.Json.Scan.{
  hex4, low_surrogate, utf8, join_surrogates, unicode_escape, is_high_surrogate,
}

abbrev is_continuation : ℕ → Bool
is_continuation b = leb 0x80 b && ltb b 0xC0

-- A decoder of one code point, by the lead byte, as RFC 3629 lays the bits out.
unfoldable pub utf8_decode : Bytes → Option ℕ
utf8_decode (a ∷ []) = if ltb a 0x80 then some a else none
utf8_decode (a ∷ b ∷ []) =
    if leb 0xC0 a && ltb a 0xE0 && is_continuation b
    then some ((a - 0xC0) * 64 + (b - 0x80))
    else none
utf8_decode (a ∷ b ∷ c ∷ []) =
    if leb 0xE0 a && ltb a 0xF0 && is_continuation b && is_continuation c
    then some ((a - 0xE0) * 4096 + (b - 0x80) * 64 + (c - 0x80))
    else none
utf8_decode (a ∷ b ∷ c ∷ d ∷ []) =
    if leb 0xF0 a && ltb a 0xF8 && is_continuation b && is_continuation c && is_continuation d
    then some ((a - 0xF0) * 262144 + (b - 0x80) * 4096 + (c - 0x80) * 64 + (d - 0x80))
    else none
utf8_decode _ = none

-- The bytes written for a code point decode to it, for every code point of Unicode.
pub utf8_decode-utf8 : (cp : ℕ) → cp < 0x110000 → utf8_decode (utf8 cp) ≡ some cp
unfolding utf8_decode utf8
utf8_decode-utf8 cp h = ground arith

-- "%04x" of a number below 65536
abbrev pub hexes : ℕ → Bytes → Bytes
hexes n rest =
    hex_char (n / 4096)
    ∷ hex_char (n / 256 % 16)
    ∷ hex_char (n / 16 % 16)
    ∷ hex_char (n % 16)
    ∷ rest

hex4-hexes : (n : ℕ) (rest : Bytes) → n < 65536 → hex4 (hexes n rest) ≡ some n
hex4-hexes n rest h =
    let whole : ((n / 4096 * 16 + n / 256 % 16) * 16 + n / 16 % 16) * 16 + n % 16 ≡ n =
      omega arith in
    unfold hex4 in
    rw (hex_digit-hex_char (n / 4096) (omega arith)) (
      rw (hex_digit-hex_char (n / 256 % 16) (omega arith)) (
        rw (hex_digit-hex_char (n / 16 % 16) (omega arith))
          (rw (hex_digit-hex_char (n % 16) (omega arith)) (rw whole))))

-- The escape of a code point beyond the first 65536, behind its first `\u`: two surrogates.
abbrev pub surrogate_pair : ℕ → Bytes → Bytes
surrogate_pair cp rest =
    hexes (0xD800 + (cp - 0x10000) / 1024)
      (b'\\' ∷ b'u' ∷ hexes (0xDC00 + (cp - 0x10000) % 1024) rest)

low_surrogate-hexes :
    (lo : ℕ) (rest : Bytes)
    → 0xDC00 ≤ lo
    → lo ≤ 0xDFFF
    → low_surrogate (b'\\' ∷ b'u' ∷ hexes lo rest) ≡ some lo
low_surrogate-hexes lo rest h k =
    unfold low_surrogate in rw (hex4-hexes lo rest (omega arith)) (ground arith)

-- What `\u` makes of a high surrogate, by what stands behind it.
unicode_escape-of_hex4 :
    (s : Bytes) (cp : ℕ) (low : Option ℕ)
    → hex4 s ≡ some cp
    → is_high_surrogate cp ≡ true
    → low_surrogate (drop 4 s) ≡ low
    → unicode_escape s ≡ some (join_surrogates cp low)
unicode_escape-of_hex4 s cp low h high l = unfold unicode_escape in rw h (rw high (rw l))

-- Two surrogate escapes are read as the UTF-8 encoding of the code point that they stand for, and
-- the ten bytes behind the first `\u` are taken.
pub unicode_escape-surrogate_pair :
    (cp : ℕ) (rest : Bytes)
    → 0x10000 ≤ cp
    → cp < 0x110000
    → unicode_escape (surrogate_pair cp rest) ≡ some (10, utf8 cp)
unicode_escape-surrogate_pair cp rest h k =
    let hi = 0xD800 + (cp - 0x10000) / 1024 in
    let lo = 0xDC00 + (cp - 0x10000) % 1024 in
    let whole : 0x10000 + (hi - 0xD800) * 1024 + (lo - 0xDC00) ≡ cp = omega arith in
    unicode_escape-of_hex4 _ hi (some lo) (hex4-hexes hi _ (omega arith)) (ground arith)
      (low_surrogate-hexes lo rest (omega arith) (omega arith))
    ∙ (unfold join_surrogates in rw whole)

abbrev pub starts_escape : Bytes → Bool
starts_escape [] = false
starts_escape (c ∷ s) = c == b'\\'

abbrev lead : Bytes → ℕ
lead [] = 0
lead (c ∷ s) = c
