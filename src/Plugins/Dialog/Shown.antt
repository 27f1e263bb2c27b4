-- ===== src/Plugins/Dialog/Shown.antt =====
-- The rows of the market over the lifetime of the dialog (linux/src/plugins_manager.cpp).
use harness_desktop.Base.{
  refl, Bool, true, false, not, ◌||◌, ◌&&◌, List, ◌++◌, Option, none, some, Bytes, codes, is_empty,
  if◌then◌else◌, Bool-cases, inl, inr,
}
use harness_desktop.Json.Floats.{Floats}
use harness_desktop.Plugins.Profile.{Files}
use harness_desktop.Plugins.Market.{MarketPlugin, npm_package, git_spec, or_else}
use harness_desktop.Plugins.Dialog.State.{MarketRow, DialogState, OpCtx, CommandResult}
use harness_desktop.Plugins.Dialog.Operations.{
  end_worker, op_finished, start_op, reload_market, market_fetched, refresh_local_data,
}
use harness_desktop.Plugins.Dialog.Handlers.{
  add_op, remove_op, root_name, chosen_name, enabling_done, install_plugin, selected_plugin,
  on_selection_changed, on_page_changed, on_search_changed, on_install, on_uninstall,
  on_enable_disable, on_refresh, on_restart, on_local_chosen, close_dialog, show_dialog, new_state,
}
use harness_desktop.Plugins.Dialog.World.{
  Action, pick_installed, pick_enabled, pick_market, page_shown, page_signal, typed, install,
  uninstall, visit, restart, refresh, enable_disable, local_chosen, act, World, IsPossible, acted,
  op_done, fetch_done, closed, elsewhere, Reachable, shown, then_step,
}
use harness_desktop.Plugins.Dialog.MarketRows.{
  All-Among, ShowsPlugin, SelectsPlugin, ShowsMarket, ShowsMarket-fill_market, SameMarket,
  ShowsMarket-same,
}

module _ {Int : Type 0} where
  same : (s : DialogState Int) → SameMarket s s
  same s = record { same_market = refl; same_rows = refl; same_selection = refl }

  SameMarket-start_op : (ctx : OpCtx) (s : DialogState Int) → SameMarket s (start_op ctx s).0
  unfolding start_op
  SameMarket-start_op ctx s = elim (Bool-cases (s.busy || s.closed)) [
    | inl e ↦ rw e (same s)
    | inr e ↦ rw e (record { same_market = refl; same_rows = refl; same_selection = refl })
  ]

  SameMarket-reload_market : (s : DialogState Int) → SameMarket s (reload_market s).0
  unfolding reload_market
  SameMarket-reload_market s = elim (Bool-cases (s.busy || s.closed)) [
    | inl e ↦ rw e (same s)
    | inr e ↦ rw e (record { same_market = refl; same_rows = refl; same_selection = refl })
  ]

  SameMarket-install_plugin :
      (p : Option (MarketPlugin Int)) (s : DialogState Int) → SameMarket s (install_plugin p s).0
  unfolding install_plugin
  SameMarket-install_plugin none s = same s
  SameMarket-install_plugin (some p) s =
      let spec = or_else (npm_package p) (git_spec p) in
      elim (Bool-cases (is_empty spec)) [
        | inl e ↦ rw e (same s)
        | inr e ↦ rw e (SameMarket-start_op (add_op (s.zh) spec (p.display_name)) s)
      ]

  SameMarket-on_uninstall : (s : DialogState Int) → SameMarket s (on_uninstall s).0
  unfolding on_uninstall
  SameMarket-on_uninstall s = elim (Bool-cases (is_empty (root_name (s.selected_installed)))) [
    | inl e ↦ rw e (same s)
    | inr e ↦ rw e (SameMarket-start_op (remove_op (s.zh) (root_name (s.selected_installed))) s)
  ]

  SameMarket-on_local_chosen :
      (pick_directory : Bool) (is_regular : Bytes → Bool) (path : Option Bytes)
      (s : DialogState Int)
      → SameMarket s (on_local_chosen pick_directory is_regular path s).0
  unfolding on_local_chosen
  SameMarket-on_local_chosen pick_directory is_regular none s = same s
  SameMarket-on_local_chosen pick_directory is_regular (some p) s =
      elim (Bool-cases (pick_directory && not (is_regular (p ++ codes "/package.json")))) [
        | inl e ↦ rw e (record { same_market = refl; same_rows = refl; same_selection = refl })
        | inr e ↦ rw e (SameMarket-start_op (add_op (s.zh) p p) s)
      ]

  module _ (fl : Floats) (home : Bytes) where
    SameMarket-enabling_done :
        (error : Option Bytes) (name : Bytes) (enable : Bool) (files : Files) (s : DialogState Int)
        → SameMarket s (enabling_done fl home error name enable files s)
    unfolding enabling_done refresh_local_data
    SameMarket-enabling_done none name enable files s = record {
      same_market = refl;
      same_rows = refl;
      same_selection = refl;
    }
    SameMarket-enabling_done (some error) name enable files s = record {
      same_market = refl;
      same_rows = refl;
      same_selection = refl;
    }

    SameMarket-on_enable_disable :
        (writes enable : Bool) (files : Files) (s : DialogState Int)
        → SameMarket s (on_enable_disable fl home writes enable files s).state
    unfolding on_enable_disable
    SameMarket-on_enable_disable writes enable files s =
        elim (Bool-cases (is_empty (chosen_name s))) [
          | inl e ↦ rw e (same s)
          | inr e ↦ rw e (SameMarket-enabling_done _ (chosen_name s) enable _ s)
        ]

    ShowsMarket-on_refresh :
        (files : Files) (s : DialogState Int)
        → ShowsMarket s
        → ShowsMarket (on_refresh fl home files s).0
    unfolding on_refresh refresh_local_data
    ShowsMarket-on_refresh files s h =
        ShowsMarket-same (SameMarket-reload_market (refresh_local_data fl home files s))
          (record { rows = h.rows; selection = h.selection })

    -- a row that is picked is one of those that are shown
    SelectsPlugin-picked :
        (r : Option MarketRow) (s : DialogState Int)
        → IsPossible s (pick_market r)
        → ShowsMarket s
        → SelectsPlugin (s.market) r
    SelectsPlugin-picked none s possible h = tt
    SelectsPlugin-picked (some r) s possible h =
        All-Among (ShowsPlugin (s.market)) (h.rows) possible

    ShowsMarket-act :
        (int_text : Int → Bytes) (a : Action) (files : Files) (s : DialogState Int)
        → IsPossible s a
        → ShowsMarket s
        → ShowsMarket (act fl home int_text a files s).state
    unfolding act on_selection_changed on_page_changed on_search_changed on_install on_restart
    ShowsMarket-act int_text (pick_market r) files s possible h = record {
      rows = h.rows;
      selection = SelectsPlugin-picked r s possible h;
    }
    ShowsMarket-act int_text (typed text) files s possible h =
        ShowsMarket-fill_market int_text (record s { search = text })
    ShowsMarket-act int_text install files s possible h =
        ShowsMarket-same (SameMarket-install_plugin (selected_plugin s) s) h
    ShowsMarket-act int_text uninstall files s possible h =
        ShowsMarket-same (SameMarket-on_uninstall s) h
    ShowsMarket-act int_text refresh files s possible h = ShowsMarket-on_refresh files s h
    ShowsMarket-act int_text (enable_disable writes enable) files s possible h =
        ShowsMarket-same (SameMarket-on_enable_disable writes enable files s) h
    ShowsMarket-act int_text (local_chosen pick_directory is_regular path) files s possible h =
        ShowsMarket-same (SameMarket-on_local_chosen pick_directory is_regular path s) h
    ShowsMarket-act int_text (pick_installed r) files s possible h = record {
      rows = h.rows;
      selection = h.selection;
    }
    ShowsMarket-act int_text (pick_enabled r) files s possible h = record {
      rows = h.rows;
      selection = h.selection;
    }
    ShowsMarket-act int_text (page_shown n) files s possible h = record {
      rows = h.rows;
      selection = h.selection;
    }
    ShowsMarket-act int_text page_signal files s possible h = record {
      rows = h.rows;
      selection = h.selection;
    }
    ShowsMarket-act int_text visit files s possible h = h
    ShowsMarket-act int_text restart files s possible h = record {
      rows = h.rows;
      selection = h.selection;
    }

  ShowsMarket-unless :
      (b : Bool) {s t : DialogState Int}
      → ShowsMarket s
      → ShowsMarket t
      → ShowsMarket (end_worker (if b then s else t)).state
  unfolding end_worker
  ShowsMarket-unless true h k = record { rows = h.rows; selection = h.selection }
  ShowsMarket-unless false h k = record { rows = k.rows; selection = k.selection }

  ShowsMarket-op_finished :
      (fl : Floats) (home : Bytes) (files : Files) (ctx : OpCtx) (result : CommandResult)
      (s : DialogState Int)
      → ShowsMarket s
      → ShowsMarket (op_finished fl home files ctx result s).state
  unfolding op_finished refresh_local_data
  ShowsMarket-op_finished fl home files ctx result s h =
      ShowsMarket-unless (s.closed) h (record { rows = h.rows; selection = h.selection })

  ShowsMarket-market_fetched :
      (int_text : Int → Bytes) (plugins : List (MarketPlugin Int)) (s : DialogState Int)
      → ShowsMarket s
      → ShowsMarket (market_fetched int_text plugins s).state
  unfolding market_fetched
  ShowsMarket-market_fetched int_text plugins s h =
      let filled = ShowsMarket-fill_market int_text (record s { market = plugins }) in
      ShowsMarket-unless (s.closed) h (record { rows = filled.rows; selection = filled.selection })

  -- In every state that can be reached, with workers that end at any time, each row of the market has
  -- the index of a plugin of the market, whose name, category and version it shows, and so has the
  -- row that is selected.
  pub ShowsMarket-Reachable :
      (fl : Floats) (home : Bytes) (int_text : Int → Bytes) {zh : Bool} {files : Files}
      {w : World Int}
      → Reachable fl home int_text zh files w
      → ShowsMarket (w.state)
  unfolding show_dialog new_state close_dialog
  ShowsMarket-Reachable fl home int_text {zh} {files} shown =
      ShowsMarket-on_refresh fl home files (new_state zh) (record { rows = tt; selection = tt })
  ShowsMarket-Reachable fl home int_text (then_step r (acted a w there possible)) =
      ShowsMarket-act fl home int_text a (w.files) (w.state) possible
        (ShowsMarket-Reachable fl home int_text r)
  ShowsMarket-Reachable fl home int_text (then_step r (op_done ctx result before behind w e)) =
      ShowsMarket-op_finished fl home (w.files) ctx result (w.state)
        (ShowsMarket-Reachable fl home int_text r)
  ShowsMarket-Reachable fl home int_text (then_step r (fetch_done plugins before behind w e)) =
      ShowsMarket-market_fetched int_text plugins (w.state)
        (ShowsMarket-Reachable fl home int_text r)
  ShowsMarket-Reachable fl home int_text (then_step r (closed w there)) =
      let h = ShowsMarket-Reachable fl home int_text r in
      record { rows = h.rows; selection = h.selection }
  ShowsMarket-Reachable fl home int_text (then_step r (elsewhere files w)) =
      ShowsMarket-Reachable fl home int_text r
