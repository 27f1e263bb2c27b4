-- ===== src/Plugins/Bundles.antt =====
-- What SetEnabled (linux/src/plugins_manager.cpp) does to package.json.
use harness_desktop.Base.{
  ◌≡◌, refl, ◌∙◌, sym, ap, Bool, true, false, ◌||◌, List, [], ◌∷◌, ◌++◌, Option, none, some, Bytes,
  codes, bytes_eq, bytes_eq_self, if◌then◌else◌, Bool-cases, inl, inr,
}
use harness_desktop.Json.Value.{
  Value, Items, null, str, array, object, no_items, item, is_object, is_string, as_string, items,
  get, keys, get_or_create, push, append_item, remove_string, remove_first, is_the_string,
}
use harness_desktop.Json.Members.{or_null}
use harness_desktop.Json.Access.{get-set, get-get_or_create}
use harness_desktop.Plugins.Profile.{
  strings_of, string_array, in_object, names_of, array_or_new, installed_in, bundles_of, enabled_in,
  existing_bundles, has_string, changed_bundles, change_profile, change_root,
}

-- The names enabled afterwards: an enabled name is added behind the others unless it is there, and a
-- disabled name is removed where it stands first.
abbrev pub is_named : Bytes → List Bytes → Bool
is_named name [] = false
is_named name (n ∷ ns) = bytes_eq n name || is_named name ns

abbrev pub remove_one : Bytes → List Bytes → List Bytes
remove_one name [] = []
remove_one name (n ∷ ns) = if bytes_eq n name then ns else n ∷ remove_one name ns

abbrev pub changed : Bytes → Bool → List Bytes → List Bytes
changed name true ns = if is_named name ns then ns else ns ++ (name ∷ [])
changed name false ns = remove_one name ns

module _ {D : Type 0} where
  strings_of-append_item :
      (xs : Items D) (s : Bytes) → strings_of (append_item xs (str s)) ≡ strings_of xs ++ (s ∷ [])
  unfolding append_item
  strings_of-append_item no_items s = refl
  strings_of-append_item (item v xs) s = elim (Bool-cases (is_string v)) [
    | inl e ↦ rw e (ap (λ t. as_string v ∷ t) (strings_of-append_item xs s))
    | inr e ↦ rw e (strings_of-append_item xs s)
  ]

  has_string-strings_of :
      (name : Bytes) (xs : Items D) → has_string name xs ≡ is_named name (strings_of xs)
  unfolding has_string is_the_string
  has_string-strings_of name no_items = refl
  has_string-strings_of name (item v xs) = elim (Bool-cases (is_string v)) [
    | inl e ↦ rw e (rw (has_string-strings_of name xs) refl)
    | inr e ↦ rw e (has_string-strings_of name xs)
  ]

  strings_of-remove_first :
      (name : Bytes) (xs : Items D)
      → strings_of (remove_first name xs) ≡ remove_one name (strings_of xs)
  unfolding remove_first is_the_string
  strings_of-remove_first name no_items = refl
  strings_of-remove_first name (item v xs) = elim (Bool-cases (is_string v)) [
    | inl e ↦ elim (Bool-cases (bytes_eq (as_string v) name)) [
      | inl h ↦ rw (e, h) refl
      | inr h ↦ rw (e, h, e) (ap (λ t. as_string v ∷ t) (strings_of-remove_first name xs))
    ]
    | inr e ↦ rw (e, e) (strings_of-remove_first name xs)
  ]

  string_array-changed_bundles :
      (name : Bytes) (enabled : Bool) (xs : Items D)
      → string_array (changed_bundles name enabled (array xs))
        ≡ changed name enabled (strings_of xs)
  unfolding string_array changed_bundles push remove_string
  string_array-changed_bundles name true xs = elim (Bool-cases (has_string name xs)) [
    | inl e ↦ rw (e, sym (has_string-strings_of name xs) ∙ e) refl
    | inr e ↦ rw (e, sym (has_string-strings_of name xs) ∙ e) (strings_of-append_item xs name)
  ]
  string_array-changed_bundles name false xs = strings_of-remove_first name xs

  -- the profile's object in the file, empty if there is none
  abbrev profile_in : Value D → Value D
  profile_in root = or_null (get (or_null (get root (codes "dsh"))) (codes "profile"))

  get-no_object : (x : Value D) (key : Bytes) → is_object x ≡ false → get x key ≡ none
  unfolding get
  get-no_object (object ms) key h = cc
  get-no_object _ key h = refl

  in_object-or_null :
      (f : Value D → List Bytes) (o : Option (Value D))
      → ((x : Value D) → is_object x ≡ false → f x ≡ [])
      → in_object f o ≡ f (or_null o)
  in_object-or_null f none h = sym (h null refl)
  in_object-or_null f (some x) h = elim (Bool-cases (is_object x)) [
    | inl e ↦ rw e refl
    | inr e ↦ rw e (sym (h x e))
  ]

  names_of-array_or_new : (o : Option (Value D)) → names_of o ≡ string_array (array_or_new o)
  unfolding string_array
  names_of-array_or_new none = refl
  names_of-array_or_new (some (array xs)) = refl
  names_of-array_or_new (some _) = refl

  array_or_new-is_array : (o : Option (Value D)) → array_or_new o ≡ array (items (array_or_new o))
  array_or_new-is_array none = refl
  array_or_new-is_array (some (array xs)) = refl
  array_or_new-is_array (some _) = refl

  changed-array_or_new :
      (name : Bytes) (enabled : Bool) (o : Option (Value D))
      → string_array (changed_bundles name enabled (array_or_new o))
        ≡ changed name enabled (names_of o)
  unfolding string_array
  changed-array_or_new name enabled o =
      ap (λ b. string_array (changed_bundles name enabled b)) (array_or_new-is_array o)
      ∙ (string_array-changed_bundles name enabled (items (array_or_new o))
          ∙ ap (changed name enabled)
              (sym (names_of-array_or_new o ∙ ap string_array (array_or_new-is_array o))))

  bundles_of-change_profile :
      (name : Bytes) (enabled : Bool) (profile : Value D)
      → bundles_of (change_profile name enabled profile) ≡ changed name enabled (bundles_of profile)
  unfolding bundles_of change_profile existing_bundles bytes_eq
  bundles_of-change_profile name enabled profile =
      ap names_of (
        get-set profile (codes "bundles") (codes "bundles")
          (changed_bundles name enabled (existing_bundles profile)))
      ∙ changed-array_or_new name enabled (get profile (codes "bundles"))

  bundles_of-no_object : (x : Value D) → is_object x ≡ false → bundles_of x ≡ []
  unfolding bundles_of
  bundles_of-no_object x h = ap names_of (get-no_object x (codes "bundles") h)

  -- the profile's object in the file, null if there is none
  abbrev profile_of : Value D → Value D
  profile_of dsh = or_null (get dsh (codes "profile"))

  profile_bundles-profile_of :
      (dsh : Value D)
      → in_object bundles_of (get dsh (codes "profile")) ≡ bundles_of (profile_of dsh)
  profile_bundles-profile_of dsh =
      in_object-or_null bundles_of (get dsh (codes "profile")) bundles_of-no_object

  enabled_in-profile_of :
      (root : Value D)
      → enabled_in root ≡ bundles_of (profile_of (or_null (get root (codes "dsh"))))
  unfolding enabled_in
  enabled_in-profile_of root =
      in_object-or_null (λ dsh. in_object bundles_of (get dsh (codes "profile")))
        (get root (codes "dsh"))
        (λ x h. ap (in_object bundles_of) (get-no_object x (codes "profile") h))
      ∙ profile_bundles-profile_of (or_null (get root (codes "dsh")))

  get_or_create_self :
      (o : Value D) (k : Bytes) (f : Value D → Value D)
      → or_null (get (get_or_create o k f) k) ≡ f (or_null (get o k))
  get_or_create_self o k f = ap or_null (get-get_or_create o k k f) ∙ rw (bytes_eq_self k) refl

  abbrev pub change_dsh : Bytes → Bool → Value D → Value D
  change_dsh name enabled dsh = get_or_create dsh (codes "profile") (change_profile name enabled)

  -- After SetEnabled the enabled bundles are those before it with the name behind them, unless it is
  -- among them, or without the name's first occurrence; whatever stands in the file in the place of
  -- the objects and of the array counts as empty.
  pub enabled_in-change_root :
      (name : Bytes) (enabled : Bool) (root : Value D)
      → enabled_in (change_root name enabled root) ≡ changed name enabled (enabled_in root)
  unfolding change_root
  enabled_in-change_root name enabled root =
      let dsh = or_null (get root (codes "dsh")) in
      enabled_in-profile_of (change_root name enabled root)
      ∙ (ap (λ d. bundles_of (profile_of d))
            (get_or_create_self root (codes "dsh") (change_dsh name enabled))
          ∙ (ap bundles_of (get_or_create_self dsh (codes "profile") (change_profile name enabled))
              ∙ (bundles_of-change_profile name enabled (profile_of dsh)
                  ∙ ap (changed name enabled) (sym (enabled_in-profile_of root)))))

  -- SetEnabled changes no member of the file but "dsh", and so the installed packages stay.
  pub change_root-others :
      (name : Bytes) (enabled : Bool) (root : Value D)
      → ((key : Bytes)
          → bytes_eq (codes "dsh") key ≡ false
          → get (change_root name enabled root) key ≡ get root key)
        × (installed_in (change_root name enabled root) ≡ installed_in root)
  unfolding change_root installed_in
  change_root-others name enabled root =
      (others, ap (in_object keys) (others (codes "dependencies") (unfold bytes_eq in refl)))
    where
      others :
          (key : Bytes)
          → bytes_eq (codes "dsh") key ≡ false
          → get (change_root name enabled root) key ≡ get root key
      others key h = get-get_or_create root (codes "dsh") key (change_dsh name enabled) ∙ rw h refl
