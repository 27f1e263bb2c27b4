-- ===== src/Json/Examples.antt =====
-- Runs of linux/src/json.cpp on small texts, and its theorems at concrete inputs.
use harness_desktop.Base.{ℕ, ◌≡◌, refl, true, [], ◌∷◌, some, codes, bytes_eq}
use harness_desktop.Base.Decimal.{decimal}
use harness_desktop.Base.Outcome.{ok, Ends}
use harness_desktop.Settings.{leading_number}
use harness_desktop.Json.Value.{
  Value, set_member, null, bool, number, str, array, object, no_items, item, no_members, member,
  keys,
}
use harness_desktop.Json.Naturals.{naturals}
use harness_desktop.Json.Scan.{
  scan_number, hex4, hex_digit, join_surrogates, low_surrogate, utf8, unicode_escape, skip_ws,
  parse_string, open_quote,
}
use harness_desktop.Json.Parser.{parse}
use harness_desktop.Json.Printer.{stringify, append_number}
use harness_desktop.Json.Printable.{IsPrintable, IsReadable}
use harness_desktop.Json.RoundTrip.{parse-stringify}
use harness_desktop.Json.Total.{parse-Ends}
use harness_desktop.Json.WellFormed.{IsWellFormed}

-- {"dsh": {"n": 42, "tags": ["a\n", [], true]}, "": null}
abbrev sample : Value ℕ
sample = object (
    member (codes "dsh")
      (object (
        member (codes "n") (number 42) (
          member (codes "tags")
            (array (
              item (str (b'a' ∷ b'\n' ∷ 1 ∷ []))
                (item (array no_items) (item (bool true) no_items))))
            no_members)))
      (member [] null no_members))

IsReadable-42 : IsReadable naturals 42
unfolding append_number decimal scan_number leading_number
IsReadable-42 = record { starts = refl; token = refl; value = refl }

sample-IsPrintable : IsPrintable naturals sample
unfolding bytes_eq keys
sample-IsPrintable = (
  ((refl, tt), (tt, tt)),
  ((((refl, tt), (tt, tt)), (IsReadable-42, ((tt, (tt, (tt, tt))), tt))), (tt, tt)),
)

parse-stringify_example : parse (leading_number 0) (stringify naturals sample true) ≡ ok sample
parse-stringify_example = parse-stringify naturals true sample sample-IsPrintable

-- An array that is cut off, which fails.
parse-Ends_example : Ends IsWellFormed (parse (leading_number 0) (codes "[1, {\"a\": 2, \"a\": 3}"))
parse-Ends_example = parse-Ends (leading_number 0) (codes "[1, {\"a\": 2, \"a\": 3}")

parse_last :
    parse (leading_number 0) (codes "{\"a\": 2, \"a\": 3}")
    ≡ ok (object (member (codes "a") (number 3) no_members))
unfolding parse skip_ws parse_string scan_number leading_number open_quote set_member bytes_eq
parse_last = refl

lone_run : unicode_escape (codes "D83D!") ≡ some (4, 0xED ∷ 0xA0 ∷ 0xBD ∷ [])
unfolding unicode_escape hex4 hex_digit low_surrogate join_surrogates utf8
lone_run = refl
