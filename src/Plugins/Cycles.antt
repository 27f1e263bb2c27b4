-- ===== src/Plugins/Cycles.antt =====
-- The guards of BuildNode (linux/src/plugins_manager.cpp): no package is expanded twice in a tree, and
-- a tree has at most five levels.
use harness_desktop.Base.{
  ℕ, zero, suc, ◌≤◌, ◌≡◌, refl, ◌∙◌, sym, ap, true, false, List, [], ◌∷◌, ◌++◌, Bytes, bytes_eq,
  bytes_eq_iff, bytes_eq_self, if◌then◌else◌, ltb, All, All-append, Bool-cases, inl, inr, arith,
}
use harness_desktop.Json.Members.{IsFresh, AreDistinct}
use harness_desktop.Plugins.Tree.{
  Node, Nodes, node, no_nodes, node_then, is_in, visit_all, build_node,
}

-- The names of the nodes that have children, and the levels of a tree.
abbrev mutual
  pub expanded : Node → List Bytes
  expanded (node name builtin no_nodes) = []
  expanded (node name builtin (node_then n ns)) = name ∷ (expanded n ++ expanded_all ns)

  pub expanded_all : Nodes → List Bytes
  expanded_all no_nodes = []
  expanded_all (node_then n ns) = expanded n ++ expanded_all ns

abbrev max : ℕ → ℕ → ℕ
max a b = if ltb a b then b else a

abbrev mutual
  pub levels : Node → ℕ
  levels (node name builtin children) = suc (levels_all children)

  pub levels_all : Nodes → ℕ
  levels_all no_nodes = 0
  levels_all (node_then n ns) = max (levels n) (levels_all ns)

-- From `seen` on, a visit expanded the names of `es`, once each and none of `seen`, and left `after`.
record Visits (seen after es : List Bytes) : Type 0 where
  fresh : All (λ e. is_in e seen ≡ false) es
  distinct : AreDistinct es
  kept : (x : Bytes) → is_in x seen ≡ true → is_in x after ≡ true
  noted : All (λ e. is_in e after ≡ true) es

All-map : (P Q : Bytes → Type 0) (es : List Bytes) → ((e : Bytes) → P e → Q e) → All P es → All Q es
All-map P Q [] f h = tt
All-map P Q (e ∷ es) f (he, h) = (f e he, All-map P Q es f h)

is_in-false :
    (seen after : List Bytes) (x : Bytes)
    → (is_in x seen ≡ true → is_in x after ≡ true)
    → is_in x after ≡ false
    → is_in x seen ≡ false
is_in-false seen after x k h = elim (Bool-cases (is_in x seen)) [
  | inl e ↦ let t = k e in cc
  | inr e ↦ e
]

is_in-behind : (n x : Bytes) (seen : List Bytes) → is_in x seen ≡ true → is_in x (n ∷ seen) ≡ true
is_in-behind n x seen h = ground arith

-- A name of the list is none that is not of the list.
IsFresh-is_in :
    (e : Bytes) (s fs : List Bytes)
    → is_in e s ≡ true
    → All (λ f. is_in f s ≡ false) fs
    → IsFresh e fs
IsFresh-is_in e s [] h k = tt
IsFresh-is_in e s (f ∷ fs) h (hf, k) = (
  (elim (Bool-cases (bytes_eq e f)) [
    | inl q ↦
        let same : e ≡ f = (bytes_eq_iff e f).0 q in
        let t = sym (ap (λ x. is_in x s) same) ∙ h in cc
    | inr q ↦ q
  ]),
  IsFresh-is_in e s fs h k,
)

AreDistinct-append :
    (es fs s : List Bytes)
    → AreDistinct es
    → AreDistinct fs
    → All (λ e. is_in e s ≡ true) es
    → All (λ f. is_in f s ≡ false) fs
    → AreDistinct (es ++ fs)
AreDistinct-append [] fs s he hf i n = hf
AreDistinct-append (e ∷ es) fs s (fresh, he) hf (ie, i) n =
    (All-append _ es fs fresh (IsFresh-is_in e s fs ie n), AreDistinct-append es fs s he hf i n)

Visits-nil : (seen : List Bytes) → Visits seen seen []
Visits-nil seen = record { fresh = tt; distinct = tt; kept = λ x h. h; noted = tt }

Visits-append :
    {seen between after es fs : List Bytes}
    → Visits seen between es
    → Visits between after fs
    → Visits seen after (es ++ fs)
Visits-append {seen} {between} {after} {es} {fs} v w = record {
  fresh =
      All-append _ es fs (v.fresh)
        (All-map _ _ fs (λ f h. is_in-false seen between f (v.kept f) h) (w.fresh));
  distinct = AreDistinct-append es fs between (v.distinct) (w.distinct) (v.noted) (w.fresh);
  kept = λ x h. w.kept x (v.kept x h);
  noted = All-append _ es fs (All-map _ _ es (λ e h. w.kept e h) (v.noted)) (w.noted);
}

-- The visit of a package that was not seen, around the visits of its dependencies.
Visits-cons :
    {name : Bytes} {seen after es : List Bytes}
    → is_in name seen ≡ false
    → Visits (name ∷ seen) after es
    → Visits seen after (name ∷ es)
Visits-cons {name} {seen} {after} {es} h v = record {
  fresh = (
    h,
    All-map _ _ es (λ e k. is_in-false seen (name ∷ seen) e (is_in-behind name e seen) k) (v.fresh),
  );
  distinct =
      (IsFresh-is_in name (name ∷ seen) es (rw (bytes_eq_self name) refl) (v.fresh), v.distinct);
  kept = λ x k. v.kept x (is_in-behind name x seen k);
  noted = (v.kept name (rw (bytes_eq_self name) refl), v.noted);
}

Visits-visit_all :
    (visit : Bytes → List Bytes → Node × List Bytes)
    → ((name : Bytes) (seen : List Bytes)
        → Visits seen (visit name seen).1 (expanded (visit name seen).0))
    → (names seen : List Bytes)
    → Visits seen (visit_all visit names seen).1 (expanded_all (visit_all visit names seen).0)
unfolding visit_all
Visits-visit_all visit h [] seen = Visits-nil seen
Visits-visit_all visit h (name ∷ names) seen =
    Visits-append (h name seen) (Visits-visit_all visit h names (visit name seen).1)

Visits-node :
    (name : Bytes) (seen after : List Bytes) (children : Nodes)
    → is_in name seen ≡ false
    → Visits (name ∷ seen) after (expanded_all children)
    → Visits seen after (expanded (node name false children))
Visits-node name seen after no_nodes h v = record {
  fresh = tt;
  distinct = tt;
  kept = λ x k. v.kept x (is_in-behind name x seen k);
  noted = tt;
}
Visits-node name seen after (node_then n ns) h v = Visits-cons h v

module _ (dependencies : Bytes → List Bytes) where
  Visits-build_node :
      (left : ℕ) (name : Bytes) (seen : List Bytes)
      → Visits seen
          (build_node dependencies left name seen).1
          (expanded (build_node dependencies left name seen).0)
  unfolding build_node
  Visits-build_node zero name seen = Visits-nil seen
  Visits-build_node (suc left) name seen = elim (Bool-cases (is_in name seen)) [
    | inl e ↦ rw e (Visits-nil seen)
    | inr e ↦ rw e (
        Visits-node name seen _ _ e (
          Visits-visit_all (build_node dependencies left) (Visits-build_node left)
            (dependencies name) (name ∷ seen)))
  ]

  levels-visit_all :
      (left : ℕ)
      → ((name : Bytes) (seen : List Bytes)
          → levels (build_node dependencies left name seen).0 ≤ suc left)
      → (names seen : List Bytes)
      → levels_all (visit_all (build_node dependencies left) names seen).0 ≤ suc left
  unfolding visit_all
  levels-visit_all left h [] seen = omega arith
  levels-visit_all left h (name ∷ names) seen =
      let first = h name seen in
      let others = levels-visit_all left h names (build_node dependencies left name seen).1 in
      ground arith

  levels-build_node :
      (left : ℕ) (name : Bytes) (seen : List Bytes)
      → levels (build_node dependencies left name seen).0 ≤ suc left
  unfolding build_node
  levels-build_node zero name seen = omega arith
  levels-build_node (suc left) name seen =
      let below =
        levels-visit_all left (levels-build_node left) (dependencies name) (name ∷ seen) in
      elim (Bool-cases (is_in name seen)) [
        | inl e ↦ rw e (omega arith)
        | inr e ↦ rw e (omega arith)
      ]

  -- In the tree of an installed package no name is expanded twice, and there are at most five levels,
  -- whatever the packages depend on.
  pub expanded-build_node :
      (name : Bytes)
      → AreDistinct (expanded (build_node dependencies 4 name []).0)
        × (levels (build_node dependencies 4 name []).0 ≤ 5)
  expanded-build_node name = ((Visits-build_node 4 name []).distinct, levels-build_node 4 name [])
