-- ===== src/Json/Access.antt =====
-- What Get, Set and GetOrCreate of class Value (linux/src/json.cpp) do to one another.
use harness_desktop.Base.{
  ◌≡◌, refl, Bool, false, ◌||◌, List, [], ◌∷◌, ◌++◌, some, Bytes, bytes_eq, if◌then◌else◌, arith,
}
use harness_desktop.Json.Value.{
  Value, Members, object, no_members, member, members, get, set, get_or_create, find_member,
  member_keys, set_member, keys,
}
use harness_desktop.Json.Members.{find-set_member, find-update_member, or_null}

abbrev pub has_key : Bytes → List Bytes → Bool
has_key k [] = false
has_key k (j ∷ ks) = bytes_eq j k || has_key k ks

module _ {D : Type 0} where
  get-members : (o : Value D) (k : Bytes) → get o k ≡ find_member k (members o)
  unfolding get
  get-members (object ms) k = refl
  get-members _ k = refl

  -- After Set the key has the new value and every other key what it had; a receiver that is no
  -- object had nothing.
  pub get-set :
      (o : Value D) (k j : Bytes) (v : Value D)
      → get (set o k v) j ≡ (if bytes_eq k j then some v else get o j)
  get-set o k j v = rw (get-members o j) (unfold get set in find-set_member k j v (members o))

  -- After a change through the reference that GetOrCreate returns, the key has the changed member,
  -- which was null if there was none, and every other key what it had.
  pub get-get_or_create :
      (o : Value D) (k j : Bytes) (f : Value D → Value D)
      → get (get_or_create o k f) j
        ≡ (if bytes_eq k j then some (f (or_null (get o k))) else get o j)
  get-get_or_create o k j f =
      rw (get-members o j)
        (rw (get-members o k) (unfold get get_or_create in find-update_member k j f (members o)))

  member_keys-set_member :
      (k : Bytes) (v : Value D) (ms : Members D)
      → member_keys (set_member k v ms)
        ≡ (if has_key k (member_keys ms) then member_keys ms else member_keys ms ++ (k ∷ []))
  unfolding member_keys set_member
  member_keys-set_member k v no_members = refl
  member_keys-set_member k v (member j w ms) = ground (arith, member_keys-set_member k v ms)

  -- Set on an object keeps the keys in their order, with a new key behind the others.
  pub keys-set :
      (ms : Members D) (k : Bytes) (v : Value D)
      → keys (set (object ms) k v)
        ≡ (if has_key k (keys (object ms)) then keys (object ms) else keys (object ms) ++ (k ∷ []))
  unfolding keys set
  keys-set ms k v = member_keys-set_member k v ms
