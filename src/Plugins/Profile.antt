-- ===== src/Plugins/Profile.antt =====
-- The profile's package.json in linux/src/plugins_manager.cpp: InstalledPackages, EnabledBundles and
-- SetEnabled.
use harness_desktop.Base.{
  Bool, true, false, ◌||◌, List, [], ◌∷◌, ◌++◌, Option, none, some, Bytes, codes, is_empty,
  if◌then◌else◌,
}
use harness_desktop.Base.Outcome.{ok, failed, out_of_fuel}
use harness_desktop.Json.Value.{
  Value, Items, str, array, no_items, item, is_array, is_object, is_string, as_string, items, get,
  get_or_create, keys, set, push, remove_string, is_the_string,
}
use harness_desktop.Json.Floats.{Floats}
use harness_desktop.Json.Parser.{parse}
use harness_desktop.Json.Printer.{stringify}

-- ReadFileText; a file that cannot be read is empty.
abbrev pub Files : Type 0
Files = Bytes → Bytes

-- ProfileDir and PackageJSONPath, for the home directory
unfoldable pub profile_dir : Bytes → Bytes
profile_dir home = home ++ codes "/.dsh/profiles/web"

unfoldable pub package_json_path : Bytes → Bytes
unfolding profile_dir
package_json_path home = profile_dir home ++ codes "/package.json"

module _ {D : Type 0} where
  abbrev pub strings_of : Items D → List Bytes
  strings_of no_items = []
  strings_of (item v xs) = if is_string v then as_string v ∷ strings_of xs else strings_of xs

  -- StringArray
  unfoldable pub string_array : Value D → List Bytes
  string_array (array xs) = strings_of xs
  string_array _ = []

  -- `if (const Value* m = ...; m && m->IsObject()) return f(m); return {};`
  abbrev pub in_object : (Value D → List Bytes) → Option (Value D) → List Bytes
  in_object f none = []
  in_object f (some m) = if is_object m then f m else []

  -- `if (!ReadPackageJSON(&root)) return {};` in front of the rest
  abbrev pub of_root : (Value D → List Bytes) → Option (Value D) → List Bytes
  of_root f none = []
  of_root f (some root) = f root

  -- InstalledPackages on the parsed file
  unfoldable pub installed_in : Value D → List Bytes
  unfolding get keys
  installed_in root = in_object keys (get root (codes "dependencies"))

  abbrev pub names_of : Option (Value D) → List Bytes
  names_of none = []
  names_of (some bundles) = string_array bundles

  -- EnabledBundles on the parsed file
  unfoldable pub bundles_of : Value D → List Bytes
  unfolding get
  bundles_of profile = names_of (get profile (codes "bundles"))

  unfoldable pub enabled_in : Value D → List Bytes
  unfolding bundles_of get
  enabled_in root =
      in_object (λ dsh. in_object bundles_of (get dsh (codes "profile"))) (get root (codes "dsh"))

  -- `bundles` of SetEnabled: the array that is there, or a new one
  abbrev pub array_or_new : Option (Value D) → Value D
  array_or_new none = array no_items
  array_or_new (some b) = if is_array b then b else array no_items

  unfoldable pub existing_bundles : Value D → Value D
  unfolding get
  existing_bundles profile = array_or_new (get profile (codes "bundles"))

  -- the loop that looks for the name
  unfoldable pub has_string : Bytes → Items D → Bool
  unfolding is_the_string
  has_string name no_items = false
  has_string name (item v xs) = is_the_string name v || has_string name xs

  unfoldable pub changed_bundles : Bytes → Bool → Value D → Value D
  unfolding has_string push remove_string
  changed_bundles name enabled b =
      if enabled
      then (if has_string name (items b) then b else push b (str name))
      else remove_string b name

  unfoldable pub change_profile : Bytes → Bool → Value D → Value D
  unfolding existing_bundles changed_bundles set
  change_profile name enabled profile =
      set profile (codes "bundles") (changed_bundles name enabled (existing_bundles profile))

  -- SetEnabled on the parsed file
  unfoldable pub change_root : Bytes → Bool → Value D → Value D
  unfolding change_profile get_or_create
  change_root name enabled root =
      get_or_create root (codes "dsh")
        λ dsh. get_or_create dsh (codes "profile") (change_profile name enabled)

-- What SetEnabled does: the error, if it fails, and the text it writes to package.json, if it comes
-- to that.
pub record Change : Type 0 where
  pub error : Option Bytes
  pub written : Option Bytes

module _ (fl : Floats) where
  open fl use {Double, strtod}

  -- `!text.empty() && Json::Parse(text, out)`; the parser does not run out of fuel.
  unfoldable pub read_json : Bytes → Option (Value Double)
  unfolding parse
  read_json text =
      if is_empty text
      then none
      else elim (parse strtod text) [ ok v ↦ some v | failed ↦ none | out_of_fuel ↦ none ]

  module _ (files : Files) (home : Bytes) where
    -- ReadPackageJSON
    unfoldable pub read_package_json : Option (Value Double)
    unfolding read_json package_json_path
    read_package_json = read_json (files (package_json_path home))

    -- InstalledPackages
    unfoldable pub installed_packages : List Bytes
    unfolding read_package_json installed_in
    installed_packages = of_root installed_in read_package_json

    -- EnabledBundles
    unfoldable pub enabled_bundles : List Bytes
    unfolding read_package_json enabled_in
    enabled_bundles = of_root enabled_in read_package_json

    -- SetEnabled; `writes` says whether WriteFileText succeeds.
    unfoldable pub set_enabled : Bool → Bytes → Bool → Change
    unfolding read_package_json change_root stringify package_json_path
    set_enabled writes name enabled = elim read_package_json [
      | none ↦ record {
        error = some (codes "cannot read " ++ package_json_path home);
        written = none;
      }
      | some root ↦ record {
        error = if writes then none else some (codes "cannot write " ++ package_json_path home);
        written = some (stringify fl (change_root name enabled root) true);
      }
    ]
