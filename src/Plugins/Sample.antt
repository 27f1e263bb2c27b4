-- ===== src/Plugins/Sample.antt =====
-- A package.json of linux/src/plugins_manager.cpp with two enabled bundles.
use harness_desktop.Base.{ℕ, ◌≡◌, refl, true, some, codes, bytes_eq}
use harness_desktop.Json.Value.{
  Value, null, str, array, object, no_items, item, no_members, member, keys,
}
use harness_desktop.Json.Naturals.{naturals}
use harness_desktop.Json.Printer.{stringify}
use harness_desktop.Json.Printable.{IsPrintable}
use harness_desktop.Json.RoundTrip.{parse-stringify}
use harness_desktop.Plugins.Profile.{Files, read_package_json}
use harness_desktop.Plugins.Saved.{read_json-of_parse}

-- {"dependencies": {"a": "1"}, "dsh": {"profile": {"bundles": ["a", null, "b"]}}}
abbrev pub root : Value ℕ
root = object (
    member (codes "dependencies") (object (member (codes "a") (str (codes "1")) no_members)) (
      member (codes "dsh")
        (object (
          member (codes "profile")
            (object (
              member (codes "bundles")
                (array (item (str (codes "a")) (item null (item (str (codes "b")) no_items))))
                no_members))
            no_members))
        no_members))

pub root-IsPrintable : IsPrintable naturals root
unfolding bytes_eq keys
root-IsPrintable = (
  ((refl, tt), (tt, tt)),
  (((tt, tt), (tt, tt)), ((((tt, tt), (((tt, tt), ((tt, (tt, (tt, tt))), tt)), tt)), tt))),
)

abbrev pub files : Files
files path = stringify naturals root true

pub files-root : read_package_json naturals files (codes "/home") ≡ some root
unfolding read_package_json
files-root =
    read_json-of_parse naturals (stringify naturals root true) root
      (parse-stringify naturals true root root-IsPrintable)
