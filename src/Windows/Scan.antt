-- ===== src/Windows/Scan.antt =====
-- The lexical part of windows/src/json.cpp: SkipWs, ParseString and JsonEscapeString. A position in a
-- text is the list of the bytes from there on.
use harness_desktop.Base.{
  ℕ, zero, suc, ◌+◌, ◌*◌, ◌/◌, ◌%◌, Bool, true, false, ◌||◌, [], ◌∷◌, ◌++◌, Option, none, some,
  Bytes, ltb, ◌==◌, if◌then◌else◌,
}
use harness_desktop.Json.Scan.{◌>>=◌, is_ws, hex_digit}

-- SkipWs
unfoldable pub skip_ws : Bytes → Bytes
skip_ws [] = []
skip_ws (c ∷ s) = let rest = skip_ws s in if is_ws c then rest else c ∷ s

-- What ParseString returns and leaves in `out` and `i`, also when it fails.
pub record Parsed : Type 0 where
  pub returned : Bool
  pub out : Bytes
  pub rest : Bytes

-- "convert a BMP code unit to UTF-8"
unfoldable pub code_unit : ℕ → Bytes
code_unit code =
    if ltb code 0x80
    then code ∷ []
    else if ltb code 0x800
    then (0xC0 + code / 64) ∷ (0x80 + code % 64) ∷ []
    else (0xE0 + code / 4096) ∷ (0x80 + code / 64 % 64) ∷ (0x80 + code % 64) ∷ []

-- `case 'u'`, on the bytes behind it: the bytes that it appends
unfoldable pub unicode_escape : Bytes → Option Bytes
unfolding hex_digit code_unit
unicode_escape (a ∷ b ∷ c ∷ d ∷ s) = do
  x ← hex_digit a
  y ← hex_digit b
  z ← hex_digit c
  w ← hex_digit d
  some (code_unit (((x * 16 + y) * 16 + z) * 16 + w))
unicode_escape _ = none

abbrev pub taken : ℕ → Option Bytes → Option (ℕ × Bytes)
taken n none = none
taken n (some piece) = some (n, piece)

-- The switch behind a backslash: how many bytes it takes, and the bytes that it appends.
unfoldable pub escape : Bytes → Option (ℕ × Bytes)
unfolding unicode_escape
escape [] = none
escape (e ∷ s) =
    if (e == b'"') || (e == b'\\') || (e == b'/')
    then some (1, e ∷ [])
    else if e == b'b'
    then some (1, 8 ∷ [])
    else if e == b'f'
    then some (1, 12 ∷ [])
    else if e == b'n'
    then some (1, b'\n' ∷ [])
    else if e == b'r'
    then some (1, b'\r' ∷ [])
    else if e == b't'
    then some (1, b'\t' ∷ [])
    else if e == b'u'
    then taken 5 (unicode_escape s)
    else none

-- The loop of ParseString. The first argument counts the bytes that `i` has advanced over already.
unfoldable pub read_chars : ℕ → Bytes → Bytes → Parsed
unfolding escape
read_chars skip [] out = record { returned = false; out = out; rest = [] }
read_chars (suc skip) (c ∷ s) out = read_chars skip s out
read_chars zero (c ∷ s) out = elim (c == b'\\') [
  | true ↦ elim (escape s) [
    | none ↦ record { returned = false; out = out; rest = s }
    | some (n, piece) ↦ read_chars n s (out ++ piece)
  ]
  | false ↦ elim (c == b'"') [
    | true ↦ record { returned = true; out = out; rest = s }
    | false ↦ read_chars zero s (out ++ c ∷ [])
  ]
]

-- ParseString; its callers pass an empty `out`.
unfoldable pub parse_string : Bytes → Parsed
unfolding read_chars
parse_string [] = record { returned = false; out = []; rest = [] }
parse_string (c ∷ s) =
    if c == b'"' then read_chars 0 s [] else record { returned = false; out = []; rest = c ∷ s }

-- the switch of JsonEscapeString
unfoldable pub escape_char : ℕ → Bytes
escape_char c =
    if c == b'"'
    then b'\\' ∷ b'"' ∷ []
    else if c == b'\\'
    then b'\\' ∷ b'\\' ∷ []
    else if c == b'\n'
    then b'\\' ∷ b'n' ∷ []
    else if c == b'\r'
    then b'\\' ∷ b'r' ∷ []
    else if c == b'\t'
    then b'\\' ∷ b't' ∷ []
    else c ∷ []

unfoldable pub escape_chars : Bytes → Bytes
unfolding escape_char
escape_chars [] = []
escape_chars (c ∷ s) = escape_char c ++ escape_chars s

-- JsonEscapeString
unfoldable pub escape_string : Bytes → Bytes
unfolding escape_chars
escape_string s = b'"' ∷ (escape_chars s ++ b'"' ∷ [])
