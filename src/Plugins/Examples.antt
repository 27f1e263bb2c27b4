-- ===== src/Plugins/Examples.antt =====
-- The theorems on linux/src/plugins_manager.cpp at concrete inputs.
use harness_desktop.Base.{
  ◌≤◌, ◌≡◌, refl, true, false, List, [], ◌∷◌, Bytes, codes, bytes_eq, if◌then◌else◌,
}
use harness_desktop.Json.Naturals.{naturals}
use harness_desktop.Json.Members.{AreDistinct}
use harness_desktop.Plugins.Profile.{
  package_json_path, enabled_in, change_root, enabled_bundles, set_enabled,
}
use harness_desktop.Plugins.Bundles.{changed, enabled_in-change_root}
use harness_desktop.Plugins.Saved.{save, enabled_bundles-set_enabled}
use harness_desktop.Plugins.Tree.{build_node}
use harness_desktop.Plugins.Cycles.{expanded, levels, expanded-build_node}
use harness_desktop.Plugins.Sample.{root, root-IsPrintable, files, files-root}

enabled_in-change_root_example :
    enabled_in (change_root (codes "c") true root) ≡ changed (codes "c") true (enabled_in root)
enabled_in-change_root_example = enabled_in-change_root (codes "c") true root

enabled_bundles-set_enabled_example :
    enabled_bundles naturals
      (save files
        (package_json_path (codes "/home"))
        (set_enabled naturals files (codes "/home") true (codes "a") false).written)
      (codes "/home")
    ≡ changed (codes "a") false (enabled_bundles naturals files (codes "/home"))
enabled_bundles-set_enabled_example =
    enabled_bundles-set_enabled naturals files (codes "/home") (codes "a") false root files-root
      root-IsPrintable

-- Each of two packages depends on the other one.
abbrev dependencies : Bytes → List Bytes
dependencies name = if bytes_eq name (codes "a") then codes "b" ∷ [] else codes "a" ∷ []

expanded-build_node_example :
    AreDistinct (expanded (build_node dependencies 4 (codes "a") []).0)
    × (levels (build_node dependencies 4 (codes "a") []).0 ≤ 5)
expanded-build_node_example = expanded-build_node dependencies (codes "a")

expanded_run : expanded (build_node dependencies 4 (codes "a") []).0 ≡ codes "a" ∷ codes "b" ∷ []
unfolding build_node bytes_eq
expanded_run = refl
