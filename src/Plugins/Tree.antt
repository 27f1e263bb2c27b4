-- ===== src/Plugins/Tree.antt =====
-- BuildNode and DependencyTree of linux/src/plugins_manager.cpp.
use harness_desktop.Base.{
  ℕ, zero, suc, Bool, true, false, ◌||◌, List, [], ◌∷◌, ◌++◌, none, some, Bytes, codes, bytes_eq,
  if◌then◌else◌,
}
use harness_desktop.Json.Floats.{Floats}
use harness_desktop.Plugins.Profile.{
  Files, profile_dir, read_json, installed_in, installed_packages, enabled_bundles,
}

mutual
  -- PluginNode
  pub data Node : Type 0 where
    node : Bytes → Bool → Nodes → Node

  pub data Nodes : Type 0 where
    no_nodes : Nodes
    node_then : Node → Nodes → Nodes

abbrev pub is_in : Bytes → List Bytes → Bool
is_in name [] = false
is_in name (n ∷ ns) = bytes_eq n name || is_in name ns

abbrev pub leaf : Bytes → Node
leaf name = node name false no_nodes

-- One visit for each name, the set of seen names being passed on.
unfoldable pub visit_all :
    (Bytes → List Bytes → Node × List Bytes) → List Bytes → List Bytes → Nodes × List Bytes
visit_all visit [] seen = (no_nodes, seen)
visit_all visit (name ∷ names) seen =
    let (first, seen₁) = visit name seen in
    let (others, seen₂) = visit_all visit names seen₁ in (node_then first others, seen₂)

-- BuildNode, for the dependencies that a package's manifest names. The first argument is 4 - depth.
unfoldable pub build_node : (Bytes → List Bytes) → ℕ → Bytes → List Bytes → Node × List Bytes
unfolding visit_all
build_node dependencies zero name seen = (leaf name, seen)
build_node dependencies (suc left) name seen =
    let (children, seen₁) =
      visit_all (build_node dependencies left) (dependencies name) (name ∷ seen) in
    if is_in name seen then (leaf name, seen) else (node name false children, seen₁)

abbrev pub append_nodes : Nodes → Nodes → Nodes
append_nodes no_nodes ns = ns
append_nodes (node_then n ms) ns = node_then n (append_nodes ms ns)

unfoldable pub installed_roots : (Bytes → List Bytes) → List Bytes → Nodes
unfolding build_node
installed_roots dependencies [] = no_nodes
installed_roots dependencies (name ∷ names) =
    node_then (build_node dependencies 4 name []).0 (installed_roots dependencies names)

unfoldable pub builtin_roots : List Bytes → List Bytes → Nodes
builtin_roots direct [] = no_nodes
builtin_roots direct (bundle ∷ bundles) =
    let others = builtin_roots direct bundles in
    if is_in bundle direct then others else node_then (node bundle true no_nodes) others

module _ (fl : Floats) (files : Files) (home : Bytes) where
  -- ReadNodeModulesPackage and the keys of its "dependencies"
  unfoldable pub manifest_dependencies : Bytes → List Bytes
  unfolding profile_dir read_json installed_in
  manifest_dependencies name =
      let path = profile_dir home ++ (codes "/node_modules/" ++ (name ++ codes "/package.json")) in
      elim (read_json fl (files path)) [ none ↦ [] | some manifest ↦ installed_in manifest ]

  -- DependencyTree
  unfoldable pub dependency_tree : Nodes
  unfolding manifest_dependencies installed_roots builtin_roots installed_packages enabled_bundles
  dependency_tree =
      let direct = installed_packages fl files home in
      append_nodes (installed_roots manifest_dependencies direct)
        (builtin_roots direct (enabled_bundles fl files home))
