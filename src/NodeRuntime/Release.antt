-- ===== src/NodeRuntime/Release.antt =====
-- ResolveLatestLTS of linux/src/node_runtime_manager.cpp. A position in the index is the list of the
-- bytes from there on.
use harness_desktop.Base.{
  ℕ, zero, suc, ◌+◌, Bool, true, false, ◌||◌, ◌==◌, [], ◌∷◌, Option, none, some, Bytes, codes,
  find?, length, take, drop, ltb, if◌then◌else◌,
}
use harness_desktop.Base.Outcome.{Outcome, ok, out_of_fuel}

abbrev pub fallback_version : Bytes
fallback_version = codes "v22.14.0"

abbrev pub entry_key : Bytes
entry_key = codes "\"version\":\""

abbrev pub lts_key : Bytes
lts_key = codes "\"lts\":"

-- Behind blanks and tabs, does a quote follow?
unfoldable pub opens_string : Bytes → Bool
opens_string [] = false
opens_string (c ∷ s) =
    let rest = opens_string s in if c == b' ' || c == b'\t' then rest else c == b'"'

-- `next == npos || lts < next`
abbrev pub stands_before : ℕ → Option ℕ → Bool
stands_before lts none = true
stands_before lts (some next) = ltb lts next

-- The test of an entry, from the end of its version on.
unfoldable pub has_codename : Bytes → Bool
unfolding find? opens_string
has_codename s = elim (find? lts_key s) [
  | none ↦ false
  | some lts ↦
      if stands_before lts (find? entry_key s) then opens_string (drop (lts + 6) s) else false
]

-- The loop of ResolveLatestLTS.
unfoldable pub latest_lts : ℕ → Bytes → Outcome Bytes
unfolding has_codename find?
latest_lts zero s = out_of_fuel
latest_lts (suc f) s = elim (find? entry_key s) [
  | none ↦ ok fallback_version
  | some pos ↦
      let version = drop (pos + 11) s in
      elim (find? (codes "\"") version) [
        | none ↦ ok fallback_version
        | some end ↦
            let found = ok (take end version) in
            let others = latest_lts f (drop (suc end) version) in
            if has_codename (drop end version) then found else others
      ]
]

-- ResolveLatestLTS on the text of the index, with a round for each of its bytes and one more
unfoldable pub resolve_latest_lts : Bytes → Outcome Bytes
unfolding latest_lts
resolve_latest_lts json = latest_lts (suc (length json)) json
