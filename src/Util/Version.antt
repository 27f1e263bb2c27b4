-- ===== src/Util/Version.antt =====
-- VersionComponent and VersionNewer of linux/src/util.cpp. A position in a text is the list of the
-- bytes from there on.
pub mod Rounds
pub mod Order
pub mod Suffix
use harness_desktop.Base.{
  ℕ, zero, suc, ◌+◌, ◌-◌, ◌*◌, ◌^◌, Bool, true, false, not, ◌&&◌, ◌||◌, [], ◌∷◌, Option, none, some,
  Bytes, is_empty, ltb, leb, ◌==◌, if◌then◌else◌,
}
use harness_desktop.Base.Outcome.{Outcome, ok, failed, out_of_fuel, ◌>>=◌}

abbrev pub max_int : ℕ
max_int = 2 ^ 31 - 1

abbrev pub is_digit : ℕ → Bool
is_digit c = leb b'0' c && leb c b'9'

abbrev pub is_separator : ℕ → Bool
is_separator c = (c == b'.') || (c == b'-')

-- VersionComponent, with the value so far; `failed` is an overflow of int, which is undefined.
unfoldable pub version_component : ℕ → Bytes → Outcome (ℕ × Bytes)
version_component value [] = ok (value, [])
version_component value (c ∷ s) =
    let next = value * 10 + (c - b'0') in
    let rest = version_component next s in
    if is_digit c then (if ltb max_int next then failed else rest) else ok (value, c ∷ s)

-- "skip separators"
unfoldable pub skip_separators : Bytes → Bytes
skip_separators [] = []
skip_separators (c ∷ s) = let rest = skip_separators s in if is_separator c then rest else c ∷ s

-- VersionNewer. The loop need not end (see Util/Version/Suffix), so it runs on fuel.
unfoldable pub version_newer : ℕ → Bytes → Bytes → Outcome Bool
unfolding version_component skip_separators
version_newer zero a b = out_of_fuel
version_newer (suc f) a b = elim (is_empty a && is_empty b) [
  | true ↦ ok false
  | false ↦ do
    (ca, a') ← version_component 0 a
    (cb, b') ← version_component 0 b
    elim (ca == cb) [
      | false ↦ ok (ltb cb ca)
      | true ↦ version_newer f (skip_separators a') (skip_separators b')
    ]
]
