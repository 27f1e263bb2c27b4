-- ===== src/Windows/Versions.antt =====
-- CompareVersions and the update check of windows/src/dsh_update_manager.cpp.
use harness_desktop.Base.{
  ℕ, zero, suc, Bool, true, false, not, ◌==◌, ◌||◌, ◌&&◌, List, [], ◌∷◌, ◌++◌, Option, none, some,
  Bytes, codes, is_empty, ltb, leb, if◌then◌else◌,
}
use harness_desktop.Base.Outcome.{ok}
use harness_desktop.Settings.{leading_number}
use harness_desktop.Windows.Ranges.{get_string}

-- The texts that getline gives up to each point; nothing behind the last one is no text.
unfoldable pub pieces : Bytes → Bytes → List Bytes
pieces part [] = if is_empty part then [] else part ∷ []
pieces part (c ∷ s) =
    let ended = pieces [] s in
    let grown = pieces (part ++ (c ∷ [])) s in if c == b'.' then part ∷ ended else grown

abbrev pub part_at : ℕ → List Bytes → Option Bytes
part_at i [] = none
part_at zero (p ∷ ps) = some p
part_at (suc i) (p ∷ ps) = part_at i ps

unfoldable pub before_dash : Bytes → Bytes
before_dash [] = []
before_dash (c ∷ s) = let rest = before_dash s in if c == b'-' then [] else c ∷ rest

-- atoi on a text without a minus sign. For a number outside int, atoi is undefined.
unfoldable pub atoi : Bytes → ℕ
unfolding leading_number
atoi [] = 0
atoi (c ∷ s) =
    let later = atoi s in
    if c == b' ' || (leb 9 c && leb c 13)
    then later
    else if c == b'+'
    then leading_number 0 s
    else leading_number 0 (c ∷ s)

abbrev pub value_of : Option Bytes → ℕ
value_of none = 0
value_of (some part) = atoi (before_dash part)

-- PartValue
unfoldable pub part_value : Bytes → ℕ → ℕ
unfolding pieces
part_value s index = value_of (part_at index (pieces [] s))

-- -1, 0 and 1
pub data Compared : Type 0 where
  older same newer : Compared

-- The loop of CompareVersions: the rounds that are left, and `i`.
unfoldable pub compare_from : ℕ → ℕ → Bytes → Bytes → Compared
unfolding part_value
compare_from zero i a b = same
compare_from (suc left) i a b =
    let later = compare_from left (suc i) a b in
    if not (part_value a i == part_value b i)
    then (if ltb (part_value a i) (part_value b i) then older else newer)
    else later

-- CompareVersions
unfoldable pub compare_versions : Bytes → Bytes → Compared
unfolding compare_from
compare_versions a b = compare_from 4 0 a b

abbrev pub is_newer : Compared → Bool
is_newer newer = true
is_newer _ = false

-- The text of a package.json or of the registry's answer, as LocalVersion and FetchLatest read it; the
-- file and the answer may be missing.
unfoldable pub version_in : Option Bytes → Bytes
unfolding get_string
version_in none = []
version_in (some text) = elim (get_string text (codes "version")) [ ok v ↦ v | _ ↦ [] ]

-- LatestIfUpdateAvailable, and what it leaves in `latest`, if it gets so far
unfoldable pub latest_if_update_available : Option Bytes → Option Bytes → Bool × Option Bytes
unfolding version_in compare_versions
latest_if_update_available installed answer =
    let local = version_in installed in
    let latest = version_in answer in
    if is_empty local
    then (false, none)
    else if is_empty latest
    then (false, some latest)
    else (is_newer (compare_versions latest local), some latest)
