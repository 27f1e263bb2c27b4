-- ===== src/Json/Value.antt =====
-- The value tree of linux/src/json.h and json.cpp (class Value). A C++ value holds a tag and one
-- field for each kind, of which only the tagged one is ever set: here it is a data type.
use harness_desktop.Base.{
  Bool, true, false, ◌&&◌, List, [], ◌∷◌, Option, none, some, Bytes, bytes_eq, if◌then◌else◌,
}

-- `D` is the type double. Items and Members are the vectors inside an array and an object.
mutual
  pub data Value (D : Type 0) : Type 0 where
    null : Value D
    bool : Bool → Value D
    number : D → Value D
    str : Bytes → Value D
    array : Items D → Value D
    object : Members D → Value D

  pub data Items (D : Type 0) : Type 0 where
    no_items : Items D
    item : Value D → Items D → Items D

  pub data Members (D : Type 0) : Type 0 where
    no_members : Members D
    member : Bytes → Value D → Members D → Members D

module _ {D : Type 0} where
  -- Value::IsObject, IsArray, IsString, IsNumber
  abbrev pub is_object : Value D → Bool
  is_object (object ms) = true
  is_object _ = false

  abbrev pub is_array : Value D → Bool
  is_array (array xs) = true
  is_array _ = false

  abbrev pub is_string : Value D → Bool
  is_string (str s) = true
  is_string _ = false

  -- Value::AsString: the field is empty in a value of another kind.
  abbrev pub as_string : Value D → Bytes
  as_string (str s) = s
  as_string _ = []

  -- What GetOrCreate and Set keep of their receiver: another kind becomes an empty object.
  abbrev pub members : Value D → Members D
  members (object ms) = ms
  members _ = no_members

  -- What Push keeps of its receiver: another kind becomes an empty array.
  abbrev pub items : Value D → Items D
  items (array xs) = xs
  items _ = no_items

  unfoldable pub find_member : Bytes → Members D → Option (Value D)
  find_member k no_members = none
  find_member k (member j v ms) = if bytes_eq j k then some v else find_member k ms

  unfoldable pub get : Value D → Bytes → Option (Value D)
  unfolding find_member
  get (object ms) k = find_member k ms
  get _ k = none

  unfoldable pub member_keys : Members D → List Bytes
  member_keys no_members = []
  member_keys (member k v ms) = k ∷ member_keys ms

  unfoldable pub keys : Value D → List Bytes
  unfolding member_keys
  keys (object ms) = member_keys ms
  keys _ = []

  unfoldable pub set_member : Bytes → Value D → Members D → Members D
  set_member k v no_members = member k v no_members
  set_member k v (member j w ms) =
      if bytes_eq j k then member j v ms else member j w (set_member k v ms)

  -- Value::Set
  unfoldable pub set : Value D → Bytes → Value D → Value D
  unfolding set_member
  set o k v = object (set_member k v (members o))

  unfoldable pub update_member : Bytes → (Value D → Value D) → Members D → Members D
  update_member k f no_members = member k (f null) no_members
  update_member k f (member j w ms) =
      if bytes_eq j k then member j (f w) ms else member j w (update_member k f ms)

  -- Value::GetOrCreate: `f` is what the caller does to the member through the reference returned.
  unfoldable pub get_or_create : Value D → Bytes → (Value D → Value D) → Value D
  unfolding update_member
  get_or_create o k f = object (update_member k f (members o))

  unfoldable pub append_item : Items D → Value D → Items D
  append_item no_items v = item v no_items
  append_item (item w xs) v = item w (append_item xs v)

  -- Value::Push
  unfoldable pub push : Value D → Value D → Value D
  unfolding append_item
  push a v = array (append_item (items a) v)

  -- it->IsString() && it->str_ == s
  unfoldable pub is_the_string : Bytes → Value D → Bool
  is_the_string s v = is_string v && bytes_eq (as_string v) s

  unfoldable pub remove_first : Bytes → Items D → Items D
  unfolding is_the_string
  remove_first s no_items = no_items
  remove_first s (item v xs) = if is_the_string s v then xs else item v (remove_first s xs)

  -- Value::RemoveString
  unfoldable pub remove_string : Value D → Bytes → Value D
  unfolding remove_first
  remove_string (array xs) s = array (remove_first s xs)
  remove_string v s = v
