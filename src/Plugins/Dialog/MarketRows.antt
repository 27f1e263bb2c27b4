-- ===== src/Plugins/Dialog/MarketRows.antt =====
-- FillMarket (linux/src/plugins_manager.cpp): the index in a row of the market and the plugin that it
-- stands for.
use harness_desktop.Base.{
  ℕ, suc, ◌≡◌, refl, sym, subst, Bool, not, ◌&&◌, List, [], ◌∷◌, ◌++◌, Option, none, some, Bytes,
  is_empty, length, get_elem?, All, append_assoc, length-append, Bool-cases, inl, inr, arith,
}
use harness_desktop.Plugins.Market.{MarketPlugin}
use harness_desktop.Plugins.Dialog.State.{MarketRow, DialogState}
use harness_desktop.Plugins.Dialog.Rows.{trim, is_hit, market_row, market_rows_from}
use harness_desktop.Plugins.Dialog.Operations.{deselect_market, fill_market}
use harness_desktop.Plugins.Dialog.World.{Among, first, later}

get_elem?-length {ℓ} :
    {A : Type ℓ} (xs : List A) (y : A) (ys : List A)
    → get_elem? (xs ++ (y ∷ ys)) (length xs) ≡ some y
get_elem?-length [] y ys = refl
get_elem?-length (x ∷ xs) y ys = get_elem?-length xs y ys

pub All-Among {ℓ κ} :
    {A : Type ℓ} (P : A → Type κ) {x : A} {xs : List A} → All P xs → Among x xs → P x
All-Among P h first = h.0
All-Among P h (later m) = All-Among P (h.1) m

module _ {Int : Type 0} where
  -- the plugin at the row's index, which the row shows
  abbrev pub ShowsPlugin : List (MarketPlugin Int) → MarketRow → Type 0
  ShowsPlugin market r =
      (p : MarketPlugin Int) × (get_elem? market (r.index) ≡ some p)
      × (r.name ≡ p.display_name)
      × (r.category ≡ p.category)
      × (r.version ≡ p.version)

  abbrev pub SelectsPlugin : List (MarketPlugin Int) → Option MarketRow → Type 0
  SelectsPlugin market none = Unit
  SelectsPlugin market (some r) = ShowsPlugin market r

  -- what the view of the market shows and selects
  pub record ShowsMarket (s : DialogState Int) : Type 0 where
    pub rows : All (ShowsPlugin (s.market)) (s.market_rows)
    pub selection : SelectsPlugin (s.market) (s.selected_market)

  module _ (int_text : Int → Bytes) (zh : Bool) (filter : Bytes) where
    All-market_rows_from :
        (before behind : List (MarketPlugin Int))
        → All
            (ShowsPlugin (before ++ behind))
            (market_rows_from int_text zh filter (length before) behind)
    unfolding market_rows_from market_row
    All-market_rows_from before [] = tt
    All-market_rows_from before (p ∷ ps) =
        let rest : All (ShowsPlugin (before ++ (p ∷ ps)))
            (market_rows_from int_text zh filter (suc (length before)) ps) =
          subst
            (λ (x : List (MarketPlugin Int) × ℕ).
              All (ShowsPlugin (x.0)) (market_rows_from int_text zh filter (x.1) ps))
            (λ i. (append_assoc before (p ∷ []) ps i, longer i))
            (All-market_rows_from (before ++ (p ∷ [])) ps) in
        elim (Bool-cases (not (is_empty filter) && not (is_hit filter p))) [
          | inl e ↦ rw e rest
          | inr e ↦ rw e ((p, get_elem?-length before p ps, refl, refl, refl), rest)
        ]
      where
        longer : length (before ++ (p ∷ [])) ≡ suc (length before)
        longer = omega (arith, length-append before (p ∷ []))

  market-deselect_market :
      (r : Option MarketRow) (s : DialogState Int)
      → s.selected_market ≡ r
      → ((deselect_market r s).market ≡ s.market) × ((deselect_market r s).selected_market ≡ none)
  unfolding deselect_market
  market-deselect_market none s e = (refl, e)
  market-deselect_market (some r) s e = (refl, refl)

  pub ShowsMarket-fill_market :
      (int_text : Int → Bytes) (s : DialogState Int) → ShowsMarket (fill_market int_text s)
  unfolding fill_market
  ShowsMarket-fill_market int_text s =
      let cleared = record s { market_rows = [] } in
      let (m, e) = market-deselect_market (s.selected_market) cleared refl in
      let back = sym m in
      record {
        rows =
            subst
              (λ x.
                All (ShowsPlugin x)
                  (market_rows_from int_text (s.zh) (trim (s.search)) 0 (s.market)))
              back (All-market_rows_from int_text (s.zh) (trim (s.search)) [] (s.market));
        selection = subst (SelectsPlugin _) (sym e) tt;
      }

  pub record SameMarket (s t : DialogState Int) : Type 0 where
    pub same_market : t.market ≡ s.market
    pub same_rows : t.market_rows ≡ s.market_rows
    pub same_selection : t.selected_market ≡ s.selected_market

  pub ShowsMarket-same : {s t : DialogState Int} → SameMarket s t → ShowsMarket s → ShowsMarket t
  ShowsMarket-same {s} {t} e h =
      let m = sym (e.same_market) in
      let r = sym (e.same_rows) in
      let c = sym (e.same_selection) in
      record {
        rows =
            subst (λ (x : List (MarketPlugin Int) × List MarketRow). All (ShowsPlugin (x.0)) (x.1))
              (λ i. (m i, r i)) (h.rows);
        selection =
            subst (λ (x : List (MarketPlugin Int) × Option MarketRow). SelectsPlugin (x.0) (x.1))
              (λ i. (m i, c i)) (h.selection);
      }
