-- ===== src/Json/Parser.antt =====
-- struct Parser of linux/src/json.cpp: recursive descent, and Parse. Each method returns the value
-- with the bytes that are left. Fail() sets the flag `error` and returns false, and every caller
-- returns false on a false, so the flag adds nothing to `failed`. A call costs a unit of fuel, since
-- what a call leaves of the input is not a structural part of it.
use harness_desktop.Base.{
  ℕ, zero, suc, ◌+◌, ◌*◌, true, false, ◌||◌, [], ◌∷◌, Option, none, some, Bytes, codes, starts_with,
  ◌==◌, if◌then◌else◌, drop, length, is_empty,
}
use harness_desktop.Base.Outcome.{Outcome, ok, failed, out_of_fuel, ◌>>=◌}
use harness_desktop.Json.Value.{
  Value, Items, Members, null, bool, number, str, array, object, no_items, no_members, append_item,
  set_member,
}
use harness_desktop.Json.Scan.{skip_ws, parse_string, scan_number}

abbrev pub or_fail {ℓ} : {A : Type ℓ} → Option A → Outcome A
or_fail none = failed
or_fail (some a) = ok a

-- `if (i >= s.size() || s[i] != b) return Fail(); ++i;`
unfoldable pub expect : ℕ → Bytes → Outcome Bytes
expect b [] = failed
expect b (c ∷ s) = if c == b then ok s else failed

-- What stands behind an element: the next round after a comma, the end at the closing bracket.
pub data After : Type 0 where
  more finish : Bytes → After

unfoldable pub after_element : ℕ → Bytes → Outcome After
after_element close [] = failed
after_element close (c ∷ s) =
    if c == b',' then ok (more s) else if c == close then ok (finish s) else failed

abbrev pub Parsed : Type 0 → Type 0
Parsed D = Outcome (Value D × Bytes)

module _ {D : Type 0} where
  -- ParseStringValue
  unfoldable pub parse_string_value : Bytes → Parsed D
  parse_string_value s = do (t, rest) ← or_fail (parse_string s); ok (str t, rest)

  -- ParseLiteral
  unfoldable pub parse_literal : Bytes → Parsed D
  unfolding starts_with
  parse_literal s =
      if starts_with (codes "true") s
      then ok (bool true, drop 4 s)
      else if starts_with (codes "false") s
      then ok (bool false, drop 5 s)
      else if starts_with (codes "null") s
      then ok (null, drop 4 s)
      else failed

module _ {D : Type 0} (strtod : Bytes → D) where
  -- ParseNumber; the test `i == start` is that the token is empty.
  unfoldable pub parse_number : Bytes → Parsed D
  parse_number s =
      if is_empty (scan_number s).0
      then failed
      else ok (number (strtod (scan_number s).0), (scan_number s).1)

  -- The cases of the switch in ParseValue that hold no values.
  unfoldable pub parse_scalar : ℕ → Bytes → Parsed D
  unfolding parse_string_value parse_literal parse_number
  parse_scalar c r =
      if c == b'"'
      then parse_string_value (c ∷ r)
      else if (c == b't') || (c == b'f') || (c == b'n')
      then parse_literal (c ∷ r)
      else parse_number (c ∷ r)

  unfoldable mutual
    unfolding skip_ws expect after_element parse_scalar

    pub parse_value : ℕ → Bytes → Parsed D
    parse_value zero s = out_of_fuel
    parse_value (suc f) s = elim (skip_ws s) [
      | [] ↦ failed
      | c ∷ r ↦ elim (c == b'{') [
        | true ↦ parse_object f r
        | false ↦ elim (c == b'[') [ true ↦ parse_array f r | false ↦ parse_scalar c r ]
      ]
    ]

    -- ParseObject, from behind the brace
    pub parse_object : ℕ → Bytes → Parsed D
    parse_object zero s = out_of_fuel
    parse_object (suc f) s = elim (skip_ws s) [
      | [] ↦ failed
      | c ∷ r ↦ elim (c == b'}') [
        | true ↦ ok (object no_members, r)
        | false ↦ object_loop f no_members (c ∷ r)
      ]
    ]

    -- the loop of ParseObject; `obj` is the object so far
    pub object_loop : ℕ → Members D → Bytes → Parsed D
    object_loop zero obj s = out_of_fuel
    object_loop (suc f) obj s = do
      (key, s₁) ← or_fail (parse_string (skip_ws s))
      s₂ ← expect b':' (skip_ws s₁)
      (v, s₃) ← parse_value f s₂
      next ← after_element b'}' (skip_ws s₃)
      elim next [
        | more r ↦ object_loop f (set_member key v obj) r
        | finish r ↦ ok (object (set_member key v obj), r)
      ]

    -- ParseArray, from behind the bracket
    pub parse_array : ℕ → Bytes → Parsed D
    parse_array zero s = out_of_fuel
    parse_array (suc f) s = elim (skip_ws s) [
      | [] ↦ failed
      | c ∷ r ↦ elim (c == b']') [
        | true ↦ ok (array no_items, r)
        | false ↦ array_loop f no_items (c ∷ r)
      ]
    ]

    -- the loop of ParseArray; `arr` is the array so far
    pub array_loop : ℕ → Items D → Bytes → Parsed D
    array_loop zero arr s = out_of_fuel
    array_loop (suc f) arr s = do
      (v, s₁) ← parse_value f s
      next ← after_element b']' (skip_ws s₁)
      elim next [
        | more r ↦ array_loop f (append_item arr v) r
        | finish r ↦ ok (array (append_item arr v), r)
      ]

  -- `p.SkipWs(); if (p.i != text.size()) return false;`
  unfoldable pub finish_parse : Value D → Bytes → Outcome (Value D)
  unfolding skip_ws
  finish_parse v rest = elim (skip_ws rest) [ [] ↦ ok v | _ ∷ _ ↦ failed ]

  -- Parse
  unfoldable pub parse : Bytes → Outcome (Value D)
  unfolding parse_value finish_parse
  parse text = do (v, rest) ← parse_value (3 * length text + 3) text; finish_parse v rest
