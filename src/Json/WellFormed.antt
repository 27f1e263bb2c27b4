-- ===== src/Json/WellFormed.antt =====
-- Values of linux/src/json.cpp in which no object has a key twice.
use harness_desktop.Base.{
  ℕ, zero, suc, ◌≤◌, ◌<◌, ◌≡◌, true, [], ◌∷◌, Bytes, length, drop, starts_with, inl, inr,
  Bool-cases, bytes_eq, arith,
}
use harness_desktop.Base.Outcome.{Outcome, Ends, holds, rejected}
use harness_desktop.Json.Value.{
  Value, Items, Members, array, object, no_items, item, no_members, member, member_keys,
  append_item, set_member,
}
use harness_desktop.Json.Members.{AreDistinct, AreDistinct-set_member}

pub length-drop-le : (n : ℕ) (s : Bytes) → length (drop n s) ≤ length s
length-drop-le zero s = omega arith
length-drop-le (suc n) [] = omega arith
length-drop-le (suc n) (c ∷ s) = omega (arith, length-drop-le n s)

pub length-drop-lt :
    (n b : ℕ) (p s : Bytes) → starts_with (b ∷ p) s ≡ true → length (drop (suc n) s) < length s
unfolding starts_with
length-drop-lt n b p [] h = cc
length-drop-lt n b p (c ∷ s) h = omega (arith, length-drop-le n s)

-- No object in the value has a key twice.
module _ {D : Type 0} where
  abbrev mutual
    pub IsWellFormed : Value D → Type 0
    IsWellFormed (array xs) = AreWellFormed xs
    IsWellFormed (object ms) = AreDistinct (member_keys ms) × HaveWellFormed ms
    IsWellFormed _ = Unit

    pub AreWellFormed : Items D → Type 0
    AreWellFormed no_items = Unit
    AreWellFormed (item v xs) = IsWellFormed v × AreWellFormed xs

    pub HaveWellFormed : Members D → Type 0
    HaveWellFormed no_members = Unit
    HaveWellFormed (member k v ms) = IsWellFormed v × HaveWellFormed ms

  pub AreWellFormed-append_item :
      (xs : Items D) (v : Value D)
      → AreWellFormed xs
      → IsWellFormed v
      → AreWellFormed (append_item xs v)
  unfolding append_item
  AreWellFormed-append_item no_items v h hv = (hv, tt)
  AreWellFormed-append_item (item w xs) v (hw, h) hv = (hw, AreWellFormed-append_item xs v h hv)

  HaveWellFormed-set_member :
      (k : Bytes) (v : Value D) (ms : Members D)
      → IsWellFormed v
      → HaveWellFormed ms
      → HaveWellFormed (set_member k v ms)
  unfolding set_member
  HaveWellFormed-set_member k v no_members hv h = (hv, tt)
  HaveWellFormed-set_member k v (member j w ms) hv (hw, h) = elim (Bool-cases (bytes_eq j k)) [
    | inl e ↦ rw e (hv, h)
    | inr e ↦ rw e (hw, HaveWellFormed-set_member k v ms hv h)
  ]

  pub IsWellFormed-set_member :
      (k : Bytes) (v : Value D) (ms : Members D)
      → IsWellFormed (object ms)
      → IsWellFormed v
      → IsWellFormed (object (set_member k v ms))
  IsWellFormed-set_member k v ms (distinct, h) hv =
      (AreDistinct-set_member k v ms distinct, HaveWellFormed-set_member k v ms hv h)

  -- A value was read off a text of length `n`.
  abbrev pub Reads : ℕ → Value D × Bytes → Type 0
  Reads n (v, rest) = IsWellFormed v × (length rest < n)

  pub Ends-mono :
      {n m : ℕ} {r : Outcome (Value D × Bytes)} → n ≤ m → Ends (Reads n) r → Ends (Reads m) r
  Ends-mono h (holds (w, l)) = holds (w, omega arith)
  Ends-mono h rejected = rejected
