-- ===== src/Windows/Arrays.antt =====
-- The functions of windows/src/json.cpp on keys, arrays and the index of Node.js releases.
use harness_desktop.Base.{
  ℕ, zero, suc, ◌+◌, ◌-◌, true, false, not, ◌&&◌, ◌||◌, ◌==◌, List, [], ◌∷◌, ◌++◌, Bytes, codes,
  is_empty, length, take, drop, ltb, leb, if◌then◌else◌,
}
use harness_desktop.Base.Outcome.{Outcome, ok, failed, out_of_fuel, ◌>>=◌}
use harness_desktop.Windows.Scan.{skip_ws, parse_string, escape_string}
use harness_desktop.Windows.Ranges.{
  Cursor, byte, moved, next, skip_spaces, cursor_at, is_close, skip_closed, skip_value, Round,
  again, over, read_key, find_value_range, object_get_string,
}

-- what JsonObjectKeys skips behind a key
unfoldable pub behind_key : ℕ → Cursor → Cursor
unfolding skip_ws skip_value
behind_key end c =
    if ltb (c.at) end && byte c == b':' then skip_value end (skip_spaces (next c)) else c

-- The loop of JsonObjectKeys. The first argument is fuel.
unfoldable pub keys_from : ℕ → ℕ → Cursor → List Bytes → Outcome (List Bytes)
unfolding read_key behind_key
keys_from zero end c out = out_of_fuel
keys_from (suc n) end c out = elim (ltb (c.at) end) [
  | false ↦ ok out
  | true ↦ elim (read_key {A = Bytes × Cursor} end (λ k d. over (ok (k, behind_key end d))) c) [
    | again d ↦ keys_from n end d out
    | over r ↦ elim r [
      | ok (k, d) ↦ keys_from n end d (out ++ (k ∷ []))
      | failed ↦ failed
      | out_of_fuel ↦ out_of_fuel
    ]
  ]
]

-- JsonObjectKeys, for an `out` that is empty
unfoldable pub object_keys : Bytes → ℕ → ℕ → Outcome (List Bytes)
unfolding keys_from
object_keys json start end = keys_from (suc (end - start)) end (cursor_at json start) []

-- An element of JsonObjectGetStringArray: where the loop stands behind it, and `out`.
unfoldable pub read_item : ℕ → Cursor → List Bytes → Cursor × List Bytes
unfolding parse_string skip_value
read_item end c out =
    let p = parse_string (c.rest) in
    if byte c == b'"'
    then (if p.returned
        then (moved c (p.rest), out ++ (p.out ∷ []))
        else (next (moved c (p.rest)), out))
    else (skip_value end c, out)

abbrev pub skip_comma : ℕ → Cursor → Cursor
skip_comma end c = if ltb (c.at) end && byte c == b',' then next c else c

-- The loop of JsonObjectGetStringArray. The first argument is fuel.
unfoldable pub items_from : ℕ → ℕ → Cursor → List Bytes → Outcome (List Bytes)
unfolding read_item skip_ws
items_from zero end c out = out_of_fuel
items_from (suc n) end c out =
    let d = skip_spaces c in
    let r = read_item end d out in
    elim (ltb (c.at) end && not (leb end (d.at) || byte d == b']')) [
      | false ↦ ok out
      | true ↦ items_from n end (skip_comma end (skip_spaces r.0)) r.1
    ]

unfoldable pub items_at : ℕ → Bytes → ℕ → ℕ → Outcome (List Bytes)
unfolding items_from
items_at fuel json start end =
    if leb end start || not (byte (cursor_at json start) == b'[')
    then failed
    else items_from fuel end (cursor_at json (start + 1)) []

-- JsonObjectGetStringArray, for an `out` that is empty
unfoldable pub object_get_string_array : ℕ → Bytes → ℕ → ℕ → Bytes → Outcome (List Bytes)
unfolding find_value_range items_at
object_get_string_array fuel json start end key =
    find_value_range json start end key >>= λ r. items_at fuel json r.0 r.1

-- The loop of JsonArrayNextObject, for the size of the document. The first argument is fuel.
unfoldable pub next_object_from : ℕ → ℕ → Cursor → Outcome (ℕ × ℕ)
unfolding skip_ws skip_closed
next_object_from zero size c = out_of_fuel
next_object_from (suc n) size c =
    let d = skip_spaces c in
    elim (ltb (c.at) size && ltb (d.at) size) [
      | false ↦ failed
      | true ↦ elim (byte d == b'{') [
        | true ↦ ok (d.at, (moved d (skip_closed (size - d.at) 0 (d.rest))).at)
        | false ↦ elim (is_close (byte d)) [
          | true ↦ failed
          | false ↦ next_object_from n size (next d)
        ]
      ]
    ]

-- JsonArrayNextObject; `pos` becomes the end of the object.
unfoldable pub array_next_object : Bytes → ℕ → Outcome (ℕ × ℕ)
unfolding next_object_from
array_next_object json pos =
    next_object_from (suc (length json - pos)) (length json) (cursor_at json pos)

unfoldable pub joined : List Bytes → Bytes
unfolding escape_string
joined [] = []
joined (s ∷ []) = escape_string s
joined (s ∷ t ∷ ss) = escape_string s ++ (b',' ∷ joined (t ∷ ss))

-- the array that JsonReplaceStringArray writes
unfoldable pub string_array : List Bytes → Bytes
unfolding joined
string_array items = b'[' ∷ (joined items ++ (b']' ∷ []))

unfoldable pub replaced : Bytes → List Bytes → ℕ → ℕ → Outcome Bytes
unfolding string_array
replaced json items start end =
    if leb end start || not (byte (cursor_at json start) == b'[')
    then failed
    else ok (take start json ++ (string_array items ++ drop end json))

-- JsonReplaceStringArray
unfoldable pub replace_string_array : Bytes → ℕ → ℕ → Bytes → List Bytes → Outcome Bytes
unfolding find_value_range replaced
replace_string_array json start end key items =
    find_value_range json start end key >>= λ r. replaced json items r.0 r.1

-- JsonFirstLTSVersion: what stands behind the object at a position, if it is closed
unfoldable pub behind_object : ℕ → Bytes → Outcome Bytes
behind_object depth [] = failed
behind_object depth (c ∷ s) =
    let rest =
      behind_object (if c == b'{' then suc depth else if c == b'}' then depth - 1 else depth) s in
    if c == b'}' && depth == 1 then ok s else rest

-- the entry between two positions: does the loop return, and with what
unfoldable pub lts_entry : Bytes → ℕ → Cursor → Outcome (Round Bytes)
unfolding object_get_string
lts_entry json start e = elim (object_get_string json start (e.at) (codes "lts")) [
  | ok lts ↦ ok (
      if not (is_empty lts)
      then over (object_get_string json start (e.at) (codes "version"))
      else again e)
  | failed ↦ ok (again e)
  | out_of_fuel ↦ out_of_fuel
]

-- a round at an object
unfoldable pub lts_object : Bytes → Cursor → Outcome (Round Bytes)
unfolding behind_object lts_entry
lts_object json c = behind_object 0 (c.rest) >>= λ rest. lts_entry json (c.at) (moved c rest)

-- The loop of JsonFirstLTSVersion. The first argument is fuel.
unfoldable pub first_lts_from : ℕ → Bytes → Cursor → Outcome Bytes
unfolding skip_ws lts_object
first_lts_from zero json c = out_of_fuel
first_lts_from (suc n) json c =
    let d = skip_spaces c in
    elim (is_empty (d.rest) || byte d == b']') [
      | true ↦ failed
      | false ↦ elim (byte d == b'{') [
        | false ↦ first_lts_from n json (next d)
        | true ↦ elim (lts_object json d) [
          | ok (again e) ↦ first_lts_from n json e
          | ok (over r) ↦ r
          | failed ↦ failed
          | out_of_fuel ↦ out_of_fuel
        ]
      ]
    ]

-- JsonFirstLTSVersion
unfoldable pub first_lts_version : Bytes → Outcome Bytes
unfolding first_lts_from skip_ws
first_lts_version json =
    let c = skip_spaces (cursor_at json 0) in
    if not (byte c == b'[') then failed else first_lts_from (suc (length json)) json (next c)
