-- ===== src/Update.antt =====
-- linux/src/update_manager.cpp: which version is installed, which is the latest, and whether it is
-- newer.
pub mod Extract
pub mod Newest
mod Examples
use harness_desktop.Base.{
  ℕ, ◌+◌, Bool, true, false, List, [], ◌∷◌, ◌++◌, Option, none, some, Bytes, codes, is_empty, find?,
  length, take, drop, leb, if◌then◌else◌,
}
use harness_desktop.Base.Outcome.{Outcome, ok}
use harness_desktop.Util.Version.{version_newer}

abbrev pub version_key : Bytes
version_key = codes "\"version\""

abbrev pub quote : Bytes
quote = b'"' ∷ []

-- the text behind the first occurrence of `p`
unfoldable pub behind : Bytes → Bytes → Option Bytes
unfolding find?
behind p s = elim (find? p s) [ none ↦ none | some i ↦ some (drop (i + length p) s) ]

-- the text up to the next quote
unfoldable pub up_to_quote : Bytes → Bytes
unfolding find?
up_to_quote s = elim (find? quote s) [ none ↦ [] | some n ↦ take n s ]

-- ExtractVersion
unfoldable pub extract_version : Bytes → Bytes
unfolding behind up_to_quote
extract_version json = elim (behind version_key json) [
  | none ↦ []
  | some rest ↦ elim (behind quote rest) [ none ↦ [] | some value ↦ up_to_quote value ]
]

-- What the loop of LocalVersion reads: the modification time of a package.json, or none if it is not
-- there, and its text.
pub record Package : Type 0 where
  pub mtime : Option ℕ
  pub text : Bytes

-- The loop of LocalVersion, with `bestMtime` and `bestVersion`.
unfoldable pub newest : ℕ → Bytes → List Package → Bytes
unfolding extract_version
newest best_mtime best_version [] = best_version
newest best_mtime best_version (p ∷ ps) = elim (p.mtime) [
  | none ↦ newest best_mtime best_version ps
  | some mtime ↦
      let version = extract_version (p.text) in
      let skipped = newest best_mtime best_version ps in
      let taken = newest mtime version ps in
      if is_empty version then skipped else if leb best_mtime mtime then taken else skipped
]

-- LocalVersion, for HOME and for the packages in the directory of a path, in the order of the
-- directory; none is a directory that cannot be opened.
unfoldable pub local_version : Bytes → (Bytes → Option (List Package)) → Bytes
unfolding newest
local_version home directory =
    if is_empty home
    then []
    else elim (directory (home ++ codes "/.npm/_npx")) [ none ↦ [] | some ps ↦ newest 0 [] ps ]

-- UpdateAvailable, for the local version and the answer of the registry, which is empty if there is
-- none; version_newer runs on fuel.
unfoldable pub update_available : ℕ → Bytes → Bytes → Outcome Bool
unfolding extract_version version_newer
update_available fuel local body =
    let remote = extract_version body in
    if is_empty local
    then ok false
    else if is_empty remote
    then ok false
    else version_newer fuel remote local
