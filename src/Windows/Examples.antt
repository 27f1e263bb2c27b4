-- ===== src/Windows/Examples.antt =====
-- The functions of windows/src/json.cpp at concrete inputs.
use harness_desktop.Base.{◌≡◌, refl, true, [], ◌∷◌, ◌++◌, Bytes, codes, bytes_eq}
use harness_desktop.Base.Outcome.{Ends, ok, failed, out_of_fuel}
use harness_desktop.Windows.Scan.{
  skip_ws, escape, read_chars, parse_string, escape_char, escape_chars, escape_string,
}
use harness_desktop.Windows.Escapes.{parse_string-escape_string}
use harness_desktop.Windows.Ranges.{
  skip_nested, skip_flat, skip_closed, skip_value, read_key, at_colon, search, value_range,
  find_value_range, get_value_range, value_string, skip_member, object_get_string,
}
use harness_desktop.Windows.Arrays.{
  behind_key, keys_from, object_keys, read_item, items_from, items_at, object_get_string_array,
  next_object_from, array_next_object, joined, string_array, replaced, replace_string_array,
  behind_object, lts_entry, lts_object, first_lts_from, first_lts_version,
}
use harness_desktop.Windows.Rounds.{IsRange, IsRange-find_value_range}

parse_string-escape_string_example :
    parse_string (escape_string (codes "a\"\n") ++ codes ",")
    ≡ record { returned = true; out = codes "a\"\n"; rest = codes "," }
parse_string-escape_string_example = parse_string-escape_string (codes "a\"\n") (codes ",")

abbrev names_first : Bytes
names_first = codes "{\"name\":\"x\",\"bundles\":[\"a\"]}"

IsRange-find_value_range_example :
    Ends (IsRange 29) (find_value_range names_first 0 29 (codes "bundles"))
IsRange-find_value_range_example = IsRange-find_value_range names_first 0 29 (codes "bundles")

bundles_run : get_value_range names_first (codes "bundles") ≡ ok (22, 27)
unfolding get_value_range find_value_range search read_key at_colon value_range skip_value
    skip_closed skip_nested skip_ws parse_string read_chars escape bytes_eq
bundles_run = refl

replace_run :
    replace_string_array names_first 0 29 (codes "bundles") (codes "b" ∷ codes "c" ∷ [])
    ≡ ok (codes "{\"name\":\"x\",\"bundles\":[\"b\",\"c\"]}")
unfolding replace_string_array replaced string_array joined escape_string escape_chars escape_char
    find_value_range search read_key at_colon value_range skip_value skip_closed skip_nested skip_ws
    parse_string read_chars escape bytes_eq
replace_run = refl

-- A key behind a value that is no string is not found.
missed_run : get_value_range (codes "{\"a\":{},\"b\":\"c\"}") (codes "b") ≡ failed
unfolding get_value_range find_value_range search read_key at_colon value_range skip_value
    skip_closed skip_nested skip_ws parse_string read_chars escape bytes_eq
missed_run = refl

-- The loop on the elements stays at a brace.
items_hang : object_get_string_array 50 (codes "{\"b\":[}") 0 7 (codes "b") ≡ out_of_fuel
unfolding object_get_string_array items_at items_from read_item find_value_range search read_key
    at_colon value_range skip_value skip_closed skip_nested skip_ws parse_string read_chars escape
    bytes_eq
items_hang = refl

lts_run :
    first_lts_version
      (codes "[{\"version\":\"v23\",\"lts\":false},{\"version\":\"v22\",\"lts\":\"Jod\"}]")
    ≡ ok (codes "v22")
unfolding first_lts_version first_lts_from lts_object lts_entry behind_object object_get_string
    search read_key at_colon value_string skip_member skip_flat skip_ws parse_string read_chars
    escape bytes_eq
lts_run = refl

keys_run : object_keys (codes "{\"a\":\"1\",\"b\":\"2\"}") 0 17 ≡ ok (codes "a" ∷ codes "b" ∷ [])
unfolding object_keys keys_from behind_key read_key skip_value skip_nested skip_ws parse_string
    read_chars escape
keys_run = refl

next_object_run : array_next_object (codes "[{},{\"a\":[]}]") 3 ≡ ok (4, 12)
unfolding array_next_object next_object_from skip_closed skip_ws
next_object_run = refl
