-- ===== src/Windows/Paths.antt =====
-- Paths and command lines in windows/src/util.cpp. A wide string is the list of its code units.
use harness_desktop.Base.{
  ℕ, zero, suc, Bool, false, ◌||◌, ◌==◌, [], ◌∷◌, ◌++◌, Option, none, some, Bytes, codes, is_empty,
  take, drop, if◌then◌else◌,
}
use harness_desktop.Base.Decimal.{decimal}

abbrev pub is_separator : ℕ → Bool
is_separator c = c == b'\\' || c == b'/'

abbrev pub ends_in_separator : Bytes → Bool
ends_in_separator [] = false
ends_in_separator (c ∷ []) = is_separator c
ends_in_separator (c ∷ d ∷ s) = ends_in_separator (d ∷ s)

-- JoinPath
unfoldable pub join_path : Bytes → Bytes → Bytes
join_path a b = if is_empty a then b else if ends_in_separator a then a ++ b else a ++ (b'\\' ∷ b)

-- find_last_of, for a test on the code units
unfoldable pub find_last : (ℕ → Bool) → Bytes → Option ℕ
find_last p [] = none
find_last p (c ∷ s) = elim (find_last p s) [
  | some n ↦ some (suc n)
  | none ↦ if p c then some 0 else none
]

abbrev pub dir_up_to : Bytes → Option ℕ → Bytes
dir_up_to path none = []
dir_up_to path (some zero) = b'\\' ∷ []
dir_up_to path (some (suc n)) = take (suc n) path

-- DirName
unfoldable pub dir_name : Bytes → Bytes
unfolding find_last
dir_name path = dir_up_to path (find_last is_separator path)

abbrev pub base_behind : Bytes → Option ℕ → Bytes
base_behind path none = path
base_behind path (some n) = drop (suc n) path

-- BaseName
unfoldable pub base_name : Bytes → Bytes
unfolding find_last
base_name path = base_behind path (find_last is_separator path)

abbrev pub stem_and_ext : Bytes → Option ℕ → Bytes × Bytes
stem_and_ext name none = (name, [])
stem_and_ext name (some dot) = (take dot name, drop dot name)

abbrev pub numbered : Bytes → Bytes × Bytes → ℕ → Bytes
numbered dir (stem, ext) i =
    join_path dir (stem ++ (codes " (" ++ (decimal i ++ (codes ")" ++ ext))))

-- The loop of MakeUniquePath: the tries that are left, and `i`.
unfoldable pub unique_from : (Bytes → Bool) → Bytes → (ℕ → Bytes) → ℕ → ℕ → Bytes
unique_from exists path candidate zero i = path
unique_from exists path candidate (suc left) i =
    let later = unique_from exists path candidate left (suc i) in
    if exists (candidate i) then later else candidate i

-- MakeUniquePath, for the files that exist
unfoldable pub make_unique_path : (Bytes → Bool) → Bytes → Bytes
unfolding join_path dir_name base_name find_last unique_from decimal
make_unique_path exists path =
    let name = base_name path in
    let parts = stem_and_ext name (find_last (λ c. c == b'.') name) in
    unique_from exists path (numbered (dir_name path) parts) 999 1

abbrev pub has_space : Bytes → Bool
has_space [] = false
has_space (c ∷ s) = c == b' ' || has_space s

-- QuoteArg
unfoldable pub quote_arg : Bytes → Bytes
quote_arg s = if has_space s then b'"' ∷ (s ++ (b'"' ∷ [])) else s
