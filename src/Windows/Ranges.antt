-- ===== src/Windows/Ranges.antt =====
-- The searches of windows/src/json.cpp in a document: FindValueRange, ObjectGetString, JsonObjectKeys,
-- JsonObjectGetStringArray, JsonArrayNextObject, JsonReplaceStringArray and JsonFirstLTSVersion.
use harness_desktop.Base.{
  ℕ, zero, suc, ◌+◌, ◌-◌, Bool, true, false, not, ◌&&◌, ◌||◌, ◌==◌, [], ◌∷◌, Bytes, bytes_eq,
  length, drop, ltb, leb, if◌then◌else◌,
}
use harness_desktop.Base.Outcome.{Outcome, ok, failed, out_of_fuel}
use harness_desktop.Windows.Scan.{skip_ws, parse_string}

-- A position `i`, and the bytes of the document from there on.
pub record Cursor : Type 0 where
  pub at : ℕ
  pub rest : Bytes

-- s[i]; behind the last byte stands a null byte.
abbrev pub byte : Cursor → ℕ
byte c = elim c.rest [ [] ↦ 0 | b ∷ s ↦ b ]

-- the position at which `rest` is left
abbrev pub moved : Cursor → Bytes → Cursor
moved c rest = record { at = c.at + (length (c.rest) - length rest); rest = rest }

-- `i++`
abbrev pub next : Cursor → Cursor
next c = record { at = c.at + 1; rest = drop 1 (c.rest) }

abbrev pub skip_spaces : Cursor → Cursor
skip_spaces c = moved c (skip_ws (c.rest))

abbrev pub cursor_at : Bytes → ℕ → Cursor
cursor_at json i = record { at = i; rest = drop i json }

abbrev pub is_open : ℕ → Bool
is_open c = c == b'{' || c == b'['

abbrev pub is_close : ℕ → Bool
is_close c = c == b'}' || c == b']'

-- `depth` behind a byte
abbrev pub deeper : ℕ → ℕ → ℕ
deeper c depth = if is_open c then suc depth else if is_close c then depth - 1 else depth

-- The loop that skips a value that is no string, in FindValueRange and SkipValue: it ends at a closing
-- bracket that was not opened in it. The first argument is what is left of the range.
unfoldable pub skip_nested : ℕ → ℕ → Bytes → Bytes
skip_nested left depth [] = []
skip_nested zero depth (c ∷ s) = c ∷ s
skip_nested (suc left) depth (c ∷ s) =
    let rest = skip_nested left (deeper c depth) s in
    if is_close c && depth == 0 then c ∷ s else rest

-- The loop of ObjectGetString in its place, which also ends at a comma or a brace.
unfoldable pub skip_flat : ℕ → ℕ → Bytes → Bytes
skip_flat left depth [] = []
skip_flat zero depth (c ∷ s) = c ∷ s
skip_flat (suc left) depth (c ∷ s) =
    let rest = skip_flat left (deeper c depth) s in
    if c == b',' || (c == b'}' || (c == b']' && depth == 0)) then c ∷ s else rest

-- The loop that looks for the end of an object or an array: what stands behind its last bracket.
unfoldable pub skip_closed : ℕ → ℕ → Bytes → Bytes
skip_closed left depth [] = []
skip_closed zero depth (c ∷ s) = c ∷ s
skip_closed (suc left) depth (c ∷ s) =
    let rest = skip_closed left (deeper c depth) s in if is_close c && depth == 1 then s else rest

abbrev pub starts_string : ℕ → Cursor → Bool
starts_string end c = ltb (c.at) end && byte c == b'"'

abbrev pub skip_value_by : (ℕ → ℕ → Bytes → Bytes) → ℕ → Cursor → Cursor
skip_value_by skip end c =
    if starts_string end c
    then moved c ((parse_string (c.rest)).rest)
    else moved c (skip (end - c.at) 0 (c.rest))

-- SkipValue
unfoldable pub skip_value : ℕ → Cursor → Cursor
unfolding skip_nested parse_string
skip_value end c = skip_value_by skip_nested end c

-- A round of a loop: it goes on, or the function returns.
pub data Round (A : Type 0) : Type 0 where
  again : Cursor → Round A
  over : Outcome A → Round A

-- The front of the loops: the key that is parsed, with what is done behind it.
unfoldable pub read_key : {A : Type 0} → ℕ → (Bytes → Cursor → Round A) → Cursor → Round A
unfolding skip_ws parse_string
read_key end found c =
    let d = skip_spaces c in
    let p = parse_string (d.rest) in
    if leb end (d.at) || not (byte d == b'"')
    then again (next d)
    else if not (p.returned)
    then again (next (moved d (p.rest)))
    else found (p.out) (skip_spaces (moved d (p.rest)))

-- A key with a colon behind it: its value is looked at, or it is skipped.
unfoldable pub at_colon :
    {A : Type 0}
    → (ℕ → Cursor → Cursor)
    → (ℕ → Cursor → Outcome A)
    → ℕ
    → Bytes
    → Bytes
    → Cursor
    → Round A
unfolding skip_ws bytes_eq
at_colon skip value end key k c =
    let v = skip_spaces (next c) in
    if ltb (c.at) end && byte c == b':'
    then (if bytes_eq k key then over (value end v) else again (skip end v))
    else again (next c)

-- The loop of FindValueRange and ObjectGetString. The first argument is fuel.
unfoldable pub search :
    {A : Type 0}
    → (ℕ → Cursor → Cursor)
    → (ℕ → Cursor → Outcome A)
    → ℕ
    → ℕ
    → Bytes
    → Cursor
    → Outcome A
unfolding read_key at_colon
search skip value zero end key c = out_of_fuel
search skip value (suc n) end key c = elim (ltb (c.at) end) [
  | false ↦ failed
  | true ↦ elim (read_key end (at_colon skip value end key) c) [
    | again d ↦ search skip value n end key d
    | over r ↦ r
  ]
]

-- a string or a bracketed value of FindValueRange
unfoldable pub value_range : ℕ → Cursor → Outcome (ℕ × ℕ)
unfolding parse_string skip_closed
value_range end c =
    let p = parse_string (c.rest) in
    if leb end (c.at)
    then failed
    else if byte c == b'"'
    then (if not (p.returned) then failed else ok (c.at, (moved c (p.rest)).at))
    else if is_open (byte c)
    then ok (c.at, (moved c (skip_closed (end - c.at) 0 (c.rest))).at)
    else failed

-- FindValueRange, which is JsonGetValueRangeAt
unfoldable pub find_value_range : Bytes → ℕ → ℕ → Bytes → Outcome (ℕ × ℕ)
unfolding search skip_value value_range
find_value_range json start end key =
    search skip_value value_range (suc (end - start)) end key (cursor_at json start)

-- JsonGetValueRange
unfoldable pub get_value_range : Bytes → Bytes → Outcome (ℕ × ℕ)
unfolding find_value_range
get_value_range json key = find_value_range json 0 (length json) key

-- the value of ObjectGetString, and the values that it skips
unfoldable pub value_string : ℕ → Cursor → Outcome Bytes
unfolding parse_string
value_string end c = if starts_string end c then ok ((parse_string (c.rest)).out) else failed

unfoldable pub skip_member : ℕ → Cursor → Cursor
unfolding skip_flat parse_string
skip_member end c = skip_value_by skip_flat end c

-- ObjectGetString, which is JsonObjectGetString
unfoldable pub object_get_string : Bytes → ℕ → ℕ → Bytes → Outcome Bytes
unfolding search skip_member value_string
object_get_string json start end key =
    search skip_member value_string (suc (end - start)) end key (cursor_at json start)

-- JsonGetString
unfoldable pub get_string : Bytes → Bytes → Outcome Bytes
unfolding object_get_string
get_string json key = object_get_string json 0 (length json) key
