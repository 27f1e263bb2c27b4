-- ===== src/Plugins/Listing.antt =====
-- What FetchMarket, NpmPackage and GitSpec (linux/src/plugins_manager.cpp) return.
use harness_desktop.Base.{
  ◌≡◌, refl, ◌∙◌, ap, Bool, true, false, not, ◌||◌, ◌==◌, List, [], ◌∷◌, ◌++◌, Option, none, some,
  Bytes, codes, is_empty, bytes_eq, starts_with, find?, All, append-nil, Bool-cases, Option-cases,
  inl, inr, ◌⊎◌, arith,
}
use harness_desktop.Base.Outcome.{Outcome, ok}
use harness_desktop.Base.Find.{occurs_first, find?-first, drop-append, take_self}
use harness_desktop.Json.Value.{Value, Items, array, no_items, item, is_object, get}
use harness_desktop.Json.Parser.{parse}
use harness_desktop.Plugins.Market.{
  MarketPlugin, object_text, string_field, or_else, market_plugin, market_plugins, fetch_market,
  npm_package, git_spec, spec_of_rest, spec_of_url, up_to_slash, add_some, plugins_member,
  plugins_of,
}

module _ {D Int : Type 0} (to_int : D → Int) (zh : Bool) where
  abbrev pub IsNamed : MarketPlugin Int → Type 0
  IsNamed p = (is_empty (p.name) ≡ false) × (is_empty (p.display_name) ≡ false)

  is_empty-or_else : (s t : Bytes) → is_empty t ≡ false → is_empty (or_else s t) ≡ false
  is_empty-or_else [] t h = h
  is_empty-or_else (c ∷ s) t h = refl

  abbrev NamedIfSome : Option (MarketPlugin Int) → Type 0
  NamedIfSome none = Unit
  NamedIfSome (some p) = IsNamed p

  NamedIfSome-market_plugin : (v : Value D) → NamedIfSome (market_plugin to_int zh v)
  unfolding market_plugin
  NamedIfSome-market_plugin v =
      let name = string_field (get v (codes "name")) in
      elim (Bool-cases (not (is_object v) || is_empty name)) [
        | inl e ↦ rw e tt
        | inr e ↦
            let named : is_empty name ≡ false = ground arith in
            rw e (named, is_empty-or_else (string_field (get v (codes "display_name"))) name named)
      ]

  All-add_some :
      (o : Option (MarketPlugin Int)) (ps : List (MarketPlugin Int))
      → NamedIfSome o
      → All IsNamed ps
      → All IsNamed (add_some o ps)
  All-add_some none ps h hs = hs
  All-add_some (some p) ps h hs = (h, hs)

  IsNamed-market_plugins : (xs : Items D) → All IsNamed (market_plugins to_int zh xs)
  unfolding market_plugins
  IsNamed-market_plugins no_items = tt
  IsNamed-market_plugins (item v xs) =
      All-add_some (market_plugin to_int zh v) (market_plugins to_int zh xs)
        (NamedIfSome-market_plugin v) (IsNamed-market_plugins xs)

  IsNamed-plugins_member : (o : Option (Value D)) → All IsNamed (plugins_member to_int zh o)
  unfolding plugins_member
  IsNamed-plugins_member (some (array xs)) = IsNamed-market_plugins xs
  IsNamed-plugins_member _ = tt

  IsNamed-plugins_of : (r : Outcome (Value D)) → All IsNamed (plugins_of to_int zh r)
  unfolding plugins_of
  IsNamed-plugins_of (ok root) = IsNamed-plugins_member (get root (codes "plugins"))
  IsNamed-plugins_of _ = tt

  -- Every plugin that FetchMarket returns has a name and a display name, whatever the answer of the
  -- market is.
  pub IsNamed-fetch_market :
      (strtod : Bytes → D) (text : Bytes) → All IsNamed (fetch_market to_int zh strtod text)
  unfolding fetch_market
  IsNamed-fetch_market strtod text = elim (Option-cases (object_text text)) [
    | inl e ↦ rw (e, fetch_market) tt
    | inr (body, e) ↦ rw (e, fetch_market) (IsNamed-plugins_of (parse strtod body))
  ]

-- A plugin is installed from npm or from a repository: one of the two names is empty.
pub npm_package-git_spec :
    {Int : Type 0} (p : MarketPlugin Int) → (npm_package p ≡ []) ⊎ (git_spec p ≡ [])
unfolding npm_package git_spec
npm_package-git_spec p = elim (Bool-cases (bytes_eq (p.type) (codes "package"))) [
  | inl e ↦ inr (rw e refl)
  | inr e ↦ inl (rw e refl)
]

abbrev pub has_slash : Bytes → Bool
has_slash [] = false
has_slash (c ∷ s) = c == b'/' || has_slash s

-- Nothing, or a slash and more.
abbrev pub IsTail : Bytes → Type 0
IsTail [] = Unit
IsTail (c ∷ s) = c ≡ b'/'

occurs_first-slash : (s : Bytes) → has_slash s ≡ false → occurs_first (b'/' ∷ []) s ≡ true
unfolding starts_with
occurs_first-slash [] h = refl
occurs_first-slash (c ∷ s) h =
    let rest : has_slash s ≡ false = ground arith in ground (arith, occurs_first-slash s rest)

find?-no_slash : (s : Bytes) → has_slash s ≡ false → find? (b'/' ∷ []) s ≡ none
unfolding find? starts_with
find?-no_slash [] h = refl
find?-no_slash (c ∷ s) h =
    let rest : has_slash s ≡ false = ground arith in ground (arith, find?-no_slash s rest)

up_to_slash-tail : (s t : Bytes) → has_slash s ≡ false → IsTail t → up_to_slash (s ++ t) ≡ s
unfolding up_to_slash
up_to_slash-tail s [] h k = rw (append-nil s) (rw (find?-no_slash s h, up_to_slash) refl)
up_to_slash-tail s (c ∷ t) h k =
    rw k
      (rw (find?-first b'/' [] s t (occurs_first-slash s h), up_to_slash) (take_self s (b'/' ∷ t)))

spec_of_rest-owner :
    (owner repo tail : Bytes)
    → has_slash owner ≡ false
    → has_slash repo ≡ false
    → IsTail tail
    → spec_of_rest (owner ++ (b'/' ∷ (repo ++ tail))) ≡ codes "github:" ++ (owner ++ (b'/' ∷ repo))
unfolding spec_of_rest
spec_of_rest-owner owner repo tail ho hr ht =
    let rest = b'/' ∷ (repo ++ tail) in
    rw (find?-first b'/' [] owner (repo ++ tail) (occurs_first-slash owner ho), spec_of_rest)
      (rw (take_self owner rest)
        (rw (drop-append owner rest 1) (rw (up_to_slash-tail repo tail hr ht) refl)))

-- GitSpec takes owner and repository off the first address at github.com, and drops what stands
-- behind the repository's name from a slash on.
pub spec_of_url-github :
    (pre owner repo tail : Bytes)
    → occurs_first (codes "github.com/") pre ≡ true
    → has_slash owner ≡ false
    → has_slash repo ≡ false
    → IsTail tail
    → spec_of_url (pre ++ (codes "github.com/" ++ (owner ++ (b'/' ∷ (repo ++ tail)))))
      ≡ codes "github:" ++ (owner ++ (b'/' ∷ repo))
unfolding spec_of_url
spec_of_url-github pre owner repo tail h ho hr ht =
    let rest = owner ++ (b'/' ∷ (repo ++ tail)) in
    rw (find?-first b'g' (codes "ithub.com/") pre rest h, spec_of_url)
      (ap spec_of_rest (drop-append pre (codes "github.com/" ++ rest) 11)
        ∙ spec_of_rest-owner owner repo tail ho hr ht)
