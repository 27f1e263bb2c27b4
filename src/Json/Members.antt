-- ===== src/Json/Members.antt =====
-- The members of an object and the elements of an array as the parser collects them, and the laws
-- of the operations of class Value (linux/src/json.cpp).
use harness_desktop.Base.{
  ◌≡◌, refl, false, List, [], ◌∷◌, Option, none, some, Bytes, bytes_eq, bytes_eq_iff, if◌then◌else◌,
  All, Bool-cases, inl, inr, arith,
}
use harness_desktop.Json.Value.{
  Value, Items, Members, no_items, item, no_members, member, find_member, member_keys, set_member,
  update_member, append_item, null,
}

-- `k` is none of the keys.
abbrev pub IsFresh : Bytes → List Bytes → Type 0
IsFresh k = All (λ j. bytes_eq k j ≡ false)

-- The keys are pairwise different.
abbrev pub AreDistinct : List Bytes → Type 0
AreDistinct [] = Unit
AreDistinct (k ∷ ks) = IsFresh k ks × AreDistinct ks

module _ {D : Type 0} where
  -- what the loop of ParseObject makes of the members that follow
  abbrev pub set_all : Members D → Members D → Members D
  set_all obj no_members = obj
  set_all obj (member k v ms) = set_all (set_member k v obj) ms

  -- what the loop of ParseArray makes of the elements that follow
  abbrev pub push_all : Items D → Items D → Items D
  push_all arr no_items = arr
  push_all arr (item v xs) = push_all (append_item arr v) xs

  abbrev concat_items : Items D → Items D → Items D
  concat_items no_items ys = ys
  concat_items (item v xs) ys = item v (concat_items xs ys)

  abbrev concat_members : Members D → Members D → Members D
  concat_members no_members ns = ns
  concat_members (member k v ms) ns = member k v (concat_members ms ns)

  concat-append_item :
      (xs : Items D) (v : Value D) (ys : Items D)
      → concat_items (append_item xs v) ys ≡ concat_items xs (item v ys)
  unfolding append_item
  concat-append_item no_items v ys = refl
  concat-append_item (item w xs) v ys = rw (concat-append_item xs v ys)

  concat_items-nil : (xs : Items D) → concat_items xs no_items ≡ xs
  concat_items-nil no_items = refl
  concat_items-nil (item v xs) = rw (concat_items-nil xs)

  push_all-concat : (arr xs : Items D) → push_all arr xs ≡ concat_items arr xs
  push_all-concat arr no_items = rw (concat_items-nil arr)
  push_all-concat arr (item v xs) =
      rw (push_all-concat (append_item arr v) xs) (concat-append_item arr v xs)

  pub push_all-nil : (xs : Items D) → push_all no_items xs ≡ xs
  push_all-nil xs = push_all-concat no_items xs

  -- Setting one key: what each key then has.
  pub find-set_member :
      (k j : Bytes) (v : Value D) (ms : Members D)
      → find_member j (set_member k v ms) ≡ (if bytes_eq k j then some v else find_member j ms)
  unfolding find_member set_member
  find-set_member k j v no_members = refl
  find-set_member k j v (member i w ms) =
      ground (arith, bytes_eq_iff k j, bytes_eq_iff i k, bytes_eq_iff i j, find-set_member k j v ms)

  -- What GetOrCreate returns a reference to.
  abbrev pub or_null : Option (Value D) → Value D
  or_null none = null
  or_null (some v) = v

  pub find-update_member :
      (k j : Bytes) (f : Value D → Value D) (ms : Members D)
      → find_member j (update_member k f ms)
        ≡ (if bytes_eq k j then some (f (or_null (find_member k ms))) else find_member j ms)
  unfolding find_member update_member
  find-update_member k j f no_members = refl
  find-update_member k j f (member i w ms) =
      ground
        (arith, bytes_eq_iff k j, bytes_eq_iff i k, bytes_eq_iff i j, find-update_member k j f ms)

  IsFresh-set_member :
      (i k : Bytes) (v : Value D) (ms : Members D)
      → IsFresh i (member_keys ms)
      → bytes_eq i k ≡ false
      → IsFresh i (member_keys (set_member k v ms))
  unfolding member_keys set_member
  IsFresh-set_member i k v no_members h e = (e, tt)
  IsFresh-set_member i k v (member j w ms) (hj, h) e = elim (Bool-cases (bytes_eq j k)) [
    | inl s ↦ rw s (hj, h)
    | inr s ↦ rw s (hj, IsFresh-set_member i k v ms h e)
  ]

  -- Set keeps the keys of an object pairwise different.
  pub AreDistinct-set_member :
      (k : Bytes) (v : Value D) (ms : Members D)
      → AreDistinct (member_keys ms)
      → AreDistinct (member_keys (set_member k v ms))
  unfolding member_keys set_member
  AreDistinct-set_member k v no_members h = (tt, tt)
  AreDistinct-set_member k v (member j w ms) (hj, h) = elim (Bool-cases (bytes_eq j k)) [
    | inl s ↦ rw s (hj, h)
    | inr s ↦ rw s (IsFresh-set_member j k v ms hj s, AreDistinct-set_member k v ms h)
  ]

  -- no key of `ks` is in `obj`
  abbrev AreNew : Members D → List Bytes → Type 0
  AreNew obj = All (λ k. find_member k obj ≡ none)

  AreNew-set_member :
      (k : Bytes) (v : Value D) (obj : Members D) (ks : List Bytes)
      → IsFresh k ks
      → AreNew obj ks
      → AreNew (set_member k v obj) ks
  AreNew-set_member k v obj [] fresh h = tt
  AreNew-set_member k v obj (j ∷ ks) (e, fresh) (hj, h) =
      (rw (find-set_member k j v obj) (rw e hj), AreNew-set_member k v obj ks fresh h)

  concat-set_member :
      (k : Bytes) (v : Value D) (obj ms : Members D)
      → find_member k obj ≡ none
      → concat_members (set_member k v obj) ms ≡ concat_members obj (member k v ms)
  unfolding find_member set_member
  concat-set_member k v no_members ms h = refl
  concat-set_member k v (member j w obj) ms h = ground (arith, concat-set_member k v obj ms)

  concat_members-nil : (ms : Members D) → concat_members ms no_members ≡ ms
  concat_members-nil no_members = refl
  concat_members-nil (member k v ms) = rw (concat_members-nil ms)

  set_all-concat :
      (obj ms : Members D)
      → AreNew obj (member_keys ms)
      → AreDistinct (member_keys ms)
      → set_all obj ms ≡ concat_members obj ms
  unfolding member_keys
  set_all-concat obj no_members new h = rw (concat_members-nil obj)
  set_all-concat obj (member k v ms) (n, new) (fresh, h) =
      rw
        (set_all-concat (set_member k v obj) ms
          (AreNew-set_member k v obj (member_keys ms) fresh new) h)
        (concat-set_member k v obj ms n)

  AreNew-nil : (ms : Members D) → AreNew no_members (member_keys ms)
  unfolding find_member member_keys
  AreNew-nil no_members = tt
  AreNew-nil (member k v ms) = (refl, AreNew-nil ms)

  -- Members with different keys are collected in their order.
  pub set_all-nil : (ms : Members D) → AreDistinct (member_keys ms) → set_all no_members ms ≡ ms
  set_all-nil ms h = set_all-concat no_members ms (AreNew-nil ms) h
