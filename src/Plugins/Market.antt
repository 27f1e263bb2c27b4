-- ===== src/Plugins/Market.antt =====
-- The plugin market of linux/src/plugins_manager.cpp: FetchMarket behind the request, NpmPackage and
-- GitSpec.
use harness_desktop.Base.{
  ℕ, ◌+◌, suc, Bool, not, ◌||◌, ◌==◌, List, [], ◌∷◌, ◌++◌, Option, none, some, Bytes, codes,
  is_empty, bytes_eq, starts_with, find?, take, drop, leb, if◌then◌else◌,
}
use harness_desktop.Base.Outcome.{Outcome, ok}
use harness_desktop.Json.Value.{
  Value, Items, number, array, no_items, item, is_object, is_string, as_string, get,
}
use harness_desktop.Json.Parser.{parse}

-- MarketPlugin, with hasStars and stars as one option; `Int` is the type int.
pub record MarketPlugin (Int : Type 0) : Type 0 where
  pub id : Bytes
  pub name : Bytes
  pub display_name : Bytes
  pub type : Bytes
  pub category : Bytes
  pub summary : Bytes
  pub url : Bytes
  pub version : Bytes
  pub stars : Option Int

-- find and rfind of a byte
abbrev pub first_index : ℕ → Bytes → Option ℕ
first_index b [] = none
first_index b (c ∷ s) =
    let later = elim (first_index b s) as (λ _. Option ℕ) [ none ↦ none | some i ↦ some (suc i) ] in
    if c == b then some 0 else later

abbrev pub last_index : ℕ → Bytes → Option ℕ
last_index b [] = none
last_index b (c ∷ s) = elim (last_index b s) [
  | some i ↦ some (suc i)
  | none ↦ if c == b then some 0 else none
]

-- the text from the first '{' to the last '}'
unfoldable pub object_text : Bytes → Option Bytes
object_text text = elim (first_index b'{' text) [
  | none ↦ none
  | some start ↦ elim (last_index b'}' text) [
    | none ↦ none
    | some end ↦ if leb end start then none else some (drop start (take (end + 1) text))
  ]
]

module _ {D : Type 0} where
  -- `if (const Json::Value* v = p.Get(key); v && v->IsString()) field = v->AsString();`
  unfoldable pub string_field : Option (Value D) → Bytes
  string_field none = []
  string_field (some v) = if is_string v then as_string v else []

abbrev pub or_else : Bytes → Bytes → Bytes
or_else s t = if is_empty s then t else s

module _ {D Int : Type 0} (to_int : D → Int) where
  unfoldable pub stars_field : Option (Value D) → Option Int
  stars_field (some (number n)) = some (to_int n)
  stars_field _ = none

abbrev pub add_some {ℓ} : {A : Type ℓ} → Option A → List A → List A
add_some none xs = xs
add_some (some x) xs = x ∷ xs

module _ {D Int : Type 0} (to_int : D → Int) (zh : Bool) where
  -- The body of the loop of FetchMarket; none is `continue`.
  unfoldable pub market_plugin : Value D → Option (MarketPlugin Int)
  unfolding string_field stars_field get
  market_plugin p =
      let field : Bytes → Bytes = λ key. string_field (get p key) in
      let name = field (codes "name") in
      if not (is_object p) || is_empty name
      then none
      else some (record {
        id = field (codes "id");
        name = name;
        display_name = or_else (field (codes "display_name")) name;
        type = field (codes "type");
        category = field (codes "category");
        summary =
            or_else (field (if zh then codes "description_zh" else codes "description"))
              (field (codes "description"));
        url = field (codes "url");
        version = field (codes "version");
        stars = stars_field to_int (get p (codes "stars"));
      })

  unfoldable pub market_plugins : Items D → List (MarketPlugin Int)
  unfolding market_plugin
  market_plugins no_items = []
  market_plugins (item v xs) = add_some (market_plugin v) (market_plugins xs)

  unfoldable pub plugins_member : Option (Value D) → List (MarketPlugin Int)
  unfolding market_plugins
  plugins_member (some (array xs)) = market_plugins xs
  plugins_member _ = []

  unfoldable pub plugins_of : Outcome (Value D) → List (MarketPlugin Int)
  unfolding plugins_member get
  plugins_of (ok root) = plugins_member (get root (codes "plugins"))
  plugins_of _ = []

  -- FetchMarket on the text of the answer, which is empty if there is none
  unfoldable pub fetch_market : (Bytes → D) → Bytes → List (MarketPlugin Int)
  unfolding object_text parse plugins_of
  fetch_market strtod text = elim (object_text text) [
    | none ↦ []
    | some body ↦ plugins_of (parse strtod body)
  ]

-- the text up to the next slash, or all of it
unfoldable pub up_to_slash : Bytes → Bytes
unfolding find?
up_to_slash s = elim (find? (codes "/") s) [ none ↦ s | some n ↦ take n s ]

-- the part of the fallback behind "github.com/"
unfoldable pub spec_of_rest : Bytes → Bytes
unfolding find? up_to_slash
spec_of_rest rest = elim (find? (codes "/") rest) [
  | none ↦ []
  | some slash ↦
      codes "github:" ++ (take slash rest ++ (b'/' ∷ up_to_slash (drop (slash + 1) rest)))
]

-- the fallback of GitSpec
unfoldable pub spec_of_url : Bytes → Bytes
unfolding find? spec_of_rest
spec_of_url url = elim (find? (codes "github.com/") url) [
  | none ↦ []
  | some pos ↦ spec_of_rest (drop (pos + 11) url)
]

module _ {Int : Type 0} where
  -- MarketPlugin::NpmPackage
  unfoldable pub npm_package : MarketPlugin Int → Bytes
  unfolding bytes_eq starts_with
  npm_package p =
      if bytes_eq (p.type) (codes "package")
      then (if starts_with (codes "npm:") (p.id) then drop 4 (p.id) else p.name)
      else []

  -- MarketPlugin::GitSpec
  unfoldable pub git_spec : MarketPlugin Int → Bytes
  unfolding spec_of_url bytes_eq starts_with
  git_spec p =
      if bytes_eq (p.type) (codes "package")
      then []
      else if starts_with (codes "gh:") (p.id)
      then codes "github:" ++ drop 3 (p.id)
      else spec_of_url (p.url)
