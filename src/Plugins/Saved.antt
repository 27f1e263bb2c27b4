-- ===== src/Plugins/Saved.antt =====
-- SetEnabled and EnabledBundles (linux/src/plugins_manager.cpp) through the text of package.json.
use harness_desktop.Base.{
  ◌≡◌, refl, ◌∙◌, sym, ap, subst, Bool, true, false, [], ◌∷◌, Option, none, some, Bytes, codes,
  bytes_eq, bytes_eq_self, if◌then◌else◌, Bool-cases, inl, inr,
}
use harness_desktop.Base.Outcome.{ok, failed}
use harness_desktop.Json.Value.{
  Value, Items, Members, str, array, object, no_items, item, no_members, member, find_member,
  member_keys, get, set, set_member, get_or_create, update_member, push, append_item, remove_string,
  remove_first, is_the_string,
}
use harness_desktop.Json.Floats.{Floats}
use harness_desktop.Json.Parser.{parse}
use harness_desktop.Json.Printer.{stringify}
use harness_desktop.Json.Members.{or_null, AreDistinct-set_member}
use harness_desktop.Json.Printable.{IsPrintable, ArePrintable, HavePrintable}
use harness_desktop.Json.RoundTrip.{parse-stringify}
use harness_desktop.Plugins.Profile.{
  Files, package_json_path, of_root, array_or_new, existing_bundles, has_string, changed_bundles,
  change_profile, change_root, enabled_in, read_json, read_package_json, enabled_bundles,
  set_enabled,
}
use harness_desktop.Plugins.Bundles.{changed, change_dsh, enabled_in-change_root}

-- the files behind a write to `path`
abbrev pub save : Files → Bytes → Option Bytes → Files
save files path none other = files other
save files path (some text) other = if bytes_eq other path then text else files other

module _ {D : Type 0} where
  update_member-set_member :
      (k : Bytes) (f : Value D → Value D) (ms : Members D)
      → update_member k f ms ≡ set_member k (f (or_null (find_member k ms))) ms
  unfolding update_member set_member find_member
  update_member-set_member k f no_members = refl
  update_member-set_member k f (member j w ms) = elim (Bool-cases (bytes_eq j k)) [
    | inl e ↦ rw e refl
    | inr e ↦
        let found : find_member k ms ≡ find_member k (member j w ms) = rw e refl in
        rw e (
          ap (member j w)
            (update_member-set_member k f ms ∙ ap (λ o. set_member k (f (or_null o)) ms) found))
  ]

  get_or_create-set :
      (o : Value D) (k : Bytes) (f : Value D → Value D)
      → get_or_create o k f ≡ set o k (f (or_null (get o k)))
  unfolding get_or_create set get find_member
  get_or_create-set (object ms) k f = ap object (update_member-set_member k f ms)
  get_or_create-set _ k f = ap object (update_member-set_member k f no_members)

module _ (fl : Floats) where
  open fl use {Double, strtod}

  HavePrintable-set_member :
      (k : Bytes) (v : Value Double) (ms : Members Double)
      → IsPrintable fl v
      → HavePrintable fl ms
      → HavePrintable fl (set_member k v ms)
  unfolding set_member
  HavePrintable-set_member k v no_members hv h = (hv, tt)
  HavePrintable-set_member k v (member j w ms) hv (hw, h) = elim (Bool-cases (bytes_eq j k)) [
    | inl e ↦ rw e (hv, h)
    | inr e ↦ rw e (hw, HavePrintable-set_member k v ms hv h)
  ]

  IsPrintable-set :
      (o : Value Double) (k : Bytes) (v : Value Double)
      → IsPrintable fl o
      → IsPrintable fl v
      → IsPrintable fl (set o k v)
  unfolding set member_keys
  IsPrintable-set (object ms) k v (distinct, h) hv =
      (AreDistinct-set_member k v ms distinct, HavePrintable-set_member k v ms hv h)
  IsPrintable-set _ k v h hv =
      (AreDistinct-set_member k v no_members tt, HavePrintable-set_member k v no_members hv tt)

  HavePrintable-find_member :
      (k : Bytes) (ms : Members Double)
      → HavePrintable fl ms
      → IsPrintable fl (or_null (find_member k ms))
  unfolding find_member
  HavePrintable-find_member k no_members h = tt
  HavePrintable-find_member k (member j v ms) (hv, h) = elim (Bool-cases (bytes_eq j k)) [
    | inl e ↦ rw e hv
    | inr e ↦ rw e (HavePrintable-find_member k ms h)
  ]

  IsPrintable-get :
      (o : Value Double) (k : Bytes) → IsPrintable fl o → IsPrintable fl (or_null (get o k))
  unfolding get
  IsPrintable-get (object ms) k (distinct, h) = HavePrintable-find_member k ms h
  IsPrintable-get _ k h = tt

  IsPrintable-get_or_create :
      (o : Value Double) (k : Bytes) (f : Value Double → Value Double)
      → ((v : Value Double) → IsPrintable fl v → IsPrintable fl (f v))
      → IsPrintable fl o
      → IsPrintable fl (get_or_create o k f)
  IsPrintable-get_or_create o k f hf h =
      subst (IsPrintable fl) (sym (get_or_create-set o k f))
        (IsPrintable-set o k _ h (hf (or_null (get o k)) (IsPrintable-get o k h)))

  ArePrintable-append_item :
      (xs : Items Double) (s : Bytes)
      → ArePrintable fl xs
      → ArePrintable fl (append_item xs (str s))
  unfolding append_item
  ArePrintable-append_item no_items s h = (tt, tt)
  ArePrintable-append_item (item v xs) s (hv, h) = (hv, ArePrintable-append_item xs s h)

  ArePrintable-remove_first :
      (s : Bytes) (xs : Items Double) → ArePrintable fl xs → ArePrintable fl (remove_first s xs)
  unfolding remove_first
  ArePrintable-remove_first s no_items h = tt
  ArePrintable-remove_first s (item v xs) (hv, h) = elim (Bool-cases (is_the_string s v)) [
    | inl e ↦ rw e h
    | inr e ↦ rw e (hv, ArePrintable-remove_first s xs h)
  ]

  IsPrintable-changed_array :
      (name : Bytes) (enabled : Bool) (xs : Items Double)
      → ArePrintable fl xs
      → IsPrintable fl (changed_bundles name enabled (array xs))
  unfolding changed_bundles push remove_string
  IsPrintable-changed_array name true xs h = elim (Bool-cases (has_string name xs)) [
    | inl e ↦ rw e h
    | inr e ↦ rw e (ArePrintable-append_item xs name h)
  ]
  IsPrintable-changed_array name false xs h = ArePrintable-remove_first name xs h

  IsPrintable-changed_bundles :
      (name : Bytes) (enabled : Bool) (o : Option (Value Double))
      → IsPrintable fl (or_null o)
      → IsPrintable fl (changed_bundles name enabled (array_or_new o))
  IsPrintable-changed_bundles name enabled none h =
      IsPrintable-changed_array name enabled no_items tt
  IsPrintable-changed_bundles name enabled (some (array xs)) h =
      IsPrintable-changed_array name enabled xs h
  IsPrintable-changed_bundles name enabled (some _) h =
      IsPrintable-changed_array name enabled no_items tt

  IsPrintable-change_profile :
      (name : Bytes) (enabled : Bool) (profile : Value Double)
      → IsPrintable fl profile
      → IsPrintable fl (change_profile name enabled profile)
  unfolding change_profile existing_bundles
  IsPrintable-change_profile name enabled profile h =
      IsPrintable-set profile (codes "bundles") _ h (
        IsPrintable-changed_bundles name enabled (get profile (codes "bundles"))
          (IsPrintable-get profile (codes "bundles") h))

  IsPrintable-change_root :
      (name : Bytes) (enabled : Bool) (root : Value Double)
      → IsPrintable fl root
      → IsPrintable fl (change_root name enabled root)
  unfolding change_root
  IsPrintable-change_root name enabled root h =
      IsPrintable-get_or_create root (codes "dsh") (change_dsh name enabled)
        (λ dsh hd.
          IsPrintable-get_or_create dsh (codes "profile") (change_profile name enabled)
            (IsPrintable-change_profile name enabled) hd)
        h

  -- A text that parses is not empty.
  pub read_json-of_parse :
      (text : Bytes) (v : Value Double) → parse strtod text ≡ ok v → read_json fl text ≡ some v
  unfolding read_json
  read_json-of_parse [] v h = let e : failed ≡ ok v = (unfold parse in refl) ∙ h in cc
  read_json-of_parse (c ∷ s) v h = rw h refl

  save_self : (files : Files) (path text : Bytes) → save files path (some text) path ≡ text
  save_self files path text = rw (bytes_eq_self path) refl

  module _ (files : Files) (home name : Bytes) (enabled : Bool) where
    written-set_enabled :
        (root : Value Double)
        → read_package_json fl files home ≡ some root
        → (set_enabled fl files home true name enabled).written
          ≡ some (stringify fl (change_root name enabled root) true)
    unfolding set_enabled
    written-set_enabled root h = rw (h, set_enabled) refl

    read-saved :
        (root : Value Double)
        → IsPrintable fl root
        → read_package_json fl
            (save files
              (package_json_path home)
              (some (stringify fl (change_root name enabled root) true)))
            home
          ≡ some (change_root name enabled root)
    unfolding read_package_json
    read-saved root h =
        let text = stringify fl (change_root name enabled root) true in
        ap (read_json fl) (save_self files (package_json_path home) text)
        ∙ read_json-of_parse text (change_root name enabled root) (
            parse-stringify fl true (change_root name enabled root)
              (IsPrintable-change_root name enabled root h))

    -- When package.json holds a value whose numbers are read back as they are printed and in which no
    -- object has a key twice, EnabledBundles reads from the text that SetEnabled writes the bundles
    -- that were enabled before, with the name behind them unless it is among them, or without its
    -- first occurrence.
    pub enabled_bundles-set_enabled :
        (root : Value Double)
        → read_package_json fl files home ≡ some root
        → IsPrintable fl root
        → enabled_bundles fl
            (save files
              (package_json_path home)
              (set_enabled fl files home true name enabled).written)
            home
          ≡ changed name enabled (enabled_bundles fl files home)
    unfolding enabled_bundles
    enabled_bundles-set_enabled root h printable =
        ap (λ w. enabled_bundles fl (save files (package_json_path home) w) home)
          (written-set_enabled root h)
        ∙ (ap (of_root enabled_in) (read-saved root printable)
            ∙ (enabled_in-change_root name enabled root
                ∙ ap (changed name enabled) (sym (ap (of_root enabled_in) h))))
