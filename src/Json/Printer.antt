-- ===== src/Json/Printer.antt =====
-- AppendString, AppendValue and Stringify of linux/src/json.cpp. A function that appends to `out`
-- returns what it appends.
use harness_desktop.Base.{
  ℕ, suc, ◌+◌, ◌-◌, ◌*◌, ◌/◌, ◌%◌, Bool, true, false, ◌&&◌, List, [], ◌∷◌, ◌++◌, Bytes, codes,
  bytes_eq, ltb, ◌==◌, if◌then◌else◌, replicate,
}
use harness_desktop.Json.Value.{
  Value, Items, Members, null, bool, number, str, array, object, no_items, item, no_members, member,
  member_keys,
}
use harness_desktop.Json.Floats.{Floats}

-- a digit of "%04x"
unfoldable pub hex_char : ℕ → ℕ
hex_char n = if ltb n 10 then b'0' + n else b'a' + n - 10

-- The switch in the loop of AppendString.
unfoldable pub append_char : ℕ → Bytes
unfolding hex_char
append_char c =
    if c == b'"'
    then b'\\' ∷ b'"' ∷ []
    else if c == b'\\'
    then b'\\' ∷ b'\\' ∷ []
    else if c == 8
    then b'\\' ∷ b'b' ∷ []
    else if c == 12
    then b'\\' ∷ b'f' ∷ []
    else if c == b'\n'
    then b'\\' ∷ b'n' ∷ []
    else if c == b'\r'
    then b'\\' ∷ b'r' ∷ []
    else if c == b'\t'
    then b'\\' ∷ b't' ∷ []
    else if ltb c 0x20
    then b'\\' ∷ b'u' ∷ b'0' ∷ b'0' ∷ hex_char (c / 16) ∷ hex_char (c % 16) ∷ []
    else c ∷ []

unfoldable pub append_chars : Bytes → Bytes
unfolding append_char
append_chars [] = []
append_chars (c ∷ s) = append_char c ++ append_chars s

-- AppendString
unfoldable pub append_string : Bytes → Bytes
unfolding append_chars
append_string s = b'"' ∷ (append_chars s ++ (b'"' ∷ []))

-- `if (pretty) *out += "\n"`, and the lambda `indent`
abbrev pub newline : Bool → Bytes
newline pretty = if pretty then b'\n' ∷ [] else []

abbrev pub indent : Bool → ℕ → Bytes
indent pretty d = if pretty then replicate (d * 2) b' ' else []

-- `if (i) *out += pretty ? ",\n" : ","`
abbrev pub separator : Bool → Bool → Bytes
separator pretty first = if first then [] else (b',' ∷ newline pretty)

-- the brackets round the elements, or the two brackets alone where there is none
unfoldable pub enclose : Bool → ℕ → Bool → ℕ → ℕ → Bytes → Bytes
enclose pretty d is_empty open_char close_char body =
    if is_empty
    then open_char ∷ close_char ∷ []
    else open_char
      ∷ (newline pretty ++ (body ++ (newline pretty ++ (indent pretty d ++ (close_char ∷ [])))))

-- the text of `*v.Get(key)`: the first member of that key
unfoldable pub text_of : Bytes → List (Bytes × Bytes) → Bytes
text_of k [] = []
text_of k ((j, t) ∷ ms) = if bytes_eq j k then t else text_of k ms

-- the loop over `keys`, with the printed members
unfoldable pub append_members : Bool → ℕ → Bool → List (Bytes × Bytes) → List Bytes → Bytes
unfolding append_string text_of
append_members pretty d first printed [] = []
append_members pretty d first printed (k ∷ ks) =
    separator pretty first
    ++ (indent pretty (suc d)
        ++ (append_string k
            ++ ((if pretty then codes ": " else codes ":")
                ++ (text_of k printed ++ append_members pretty d false printed ks))))

module _ (fl : Floats) where
  open fl use {Double, is_finite, is_integral, is_below_9e15, print_f0, print_g}

  -- `case Value::Type::Number`
  unfoldable pub append_number : Double → Bytes
  append_number n =
      if is_finite n && (is_integral n && is_below_9e15 n) then print_f0 n else print_g n

  abbrev is_empty_items : Items Double → Bool
  is_empty_items no_items = true
  is_empty_items (item v xs) = false

  abbrev is_empty_members : Members Double → Bool
  is_empty_members no_members = true
  is_empty_members (member k v ms) = false

  unfoldable mutual
    unfolding append_number append_string enclose append_members member_keys

    -- AppendValue
    pub append_value : Bool → ℕ → Value Double → Bytes
    append_value pretty d null = codes "null"
    append_value pretty d (bool b) = if b then codes "true" else codes "false"
    append_value pretty d (number n) = append_number n
    append_value pretty d (str s) = append_string s
    append_value pretty d (array xs) =
        enclose pretty d (is_empty_items xs) b'[' b']' (append_items pretty d true xs)
    append_value pretty d (object ms) =
        enclose pretty d (is_empty_members ms) b'{' b'}'
          (append_members pretty d true (print_members pretty d ms) (member_keys ms))

    -- the loop over the elements of an array
    pub append_items : Bool → ℕ → Bool → Items Double → Bytes
    append_items pretty d first no_items = []
    append_items pretty d first (item v xs) =
        separator pretty first
        ++ (indent pretty (suc d)
            ++ (append_value pretty (suc d) v ++ append_items pretty d false xs))

    -- the members of an object with their texts, one level deeper
    pub print_members : Bool → ℕ → Members Double → List (Bytes × Bytes)
    print_members pretty d no_members = []
    print_members pretty d (member k v ms) =
        (k, append_value pretty (suc d) v) ∷ print_members pretty d ms

  -- Stringify
  unfoldable pub stringify : Value Double → Bool → Bytes
  unfolding append_value
  stringify v pretty = append_value pretty 0 v
