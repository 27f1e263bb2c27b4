-- ===== src/Plugins/Dialog/Began.antt =====
-- What the handlers of the plugins dialog (linux/src/plugins_manager.cpp) do to the flags, the count
-- of workers and the workers.
use harness_desktop.Base.{
  ◌+◌, ◌≡◌, refl, Bool, true, false, not, ◌||◌, ◌&&◌, List, [], ◌∷◌, Option, none, some, Bytes,
  codes, ◌++◌, is_empty, Bool-cases, inl, inr, arith,
}
use harness_desktop.Json.Floats.{Floats}
use harness_desktop.Plugins.Profile.{Files}
use harness_desktop.Plugins.Market.{MarketPlugin, npm_package, git_spec, or_else}
use harness_desktop.Plugins.Dialog.State.{
  MarketRow, DialogState, OpCtx, Worker, plugin_op, market_fetch,
}
use harness_desktop.Plugins.Dialog.Operations.{
  start_op, reload_market, deselect_market, fill_market, refresh_local_data,
}
use harness_desktop.Plugins.Dialog.Handlers.{
  add_op, remove_op, root_name, chosen_name, enabling_done, install_plugin, selected_plugin,
  on_selection_changed, on_page_changed, on_search_changed, on_install, on_uninstall,
  on_enable_disable, on_refresh, on_restart, on_local_chosen,
}
use harness_desktop.Plugins.Dialog.World.{
  Action, pick_installed, pick_enabled, pick_market, page_shown, page_signal, typed, install,
  uninstall, visit, restart, refresh, enable_disable, local_chosen, act,
}

module _ {Int : Type 0} where
  pub record Keeps (s t : DialogState Int) : Type 0 where
    pub same_closed : t.closed ≡ s.closed
    pub same_busy : t.busy ≡ s.busy
    pub same_pending : t.pending_workers ≡ s.pending_workers

  -- Nothing, or one worker more, which is counted; an operation makes the dialog busy.
  pub data Began (s t : DialogState Int) (started : List Worker) : Type 0 where
    kept : Keeps s t → started ≡ [] → Began s t started
    began_op :
        (ctx : OpCtx)
        → s.busy ≡ false
        → s.closed ≡ false
        → t.busy ≡ true
        → t.closed ≡ false
        → t.pending_workers ≡ s.pending_workers + 1
        → started ≡ plugin_op ctx ∷ []
        → Began s t started
    began_fetch :
        s.busy ≡ false
        → s.closed ≡ false
        → t.busy ≡ false
        → t.closed ≡ false
        → t.pending_workers ≡ s.pending_workers + 1
        → started ≡ market_fetch ∷ []
        → Began s t started

  Keeps-self : (s : DialogState Int) → Keeps s s
  Keeps-self s = record { same_closed = refl; same_busy = refl; same_pending = refl }

  Began-self : (s : DialogState Int) → Began s s []
  Began-self s = kept (Keeps-self s) refl

  stays :
      {s t : DialogState Int}
      → t.closed ≡ s.closed
      → t.busy ≡ s.busy
      → t.pending_workers ≡ s.pending_workers
      → Began s t []
  stays c b p = kept (record { same_closed = c; same_busy = b; same_pending = p }) refl

  Began-start_op :
      (ctx : OpCtx) (s : DialogState Int) → Began s (start_op ctx s).0 (start_op ctx s).1
  unfolding start_op
  Began-start_op ctx s = elim (Bool-cases (s.busy || s.closed)) [
    | inl e ↦ rw e (Began-self s)
    | inr e ↦
        let idle : s.busy ≡ false = ground arith in
        let there : s.closed ≡ false = ground arith in
        rw e (began_op ctx idle there refl there refl refl)
  ]

  Began-reload_market : (s : DialogState Int) → Began s (reload_market s).0 (reload_market s).1
  unfolding reload_market
  Began-reload_market s = elim (Bool-cases (s.busy || s.closed)) [
    | inl e ↦ rw e (Began-self s)
    | inr e ↦
        let idle : s.busy ≡ false = ground arith in
        let there : s.closed ≡ false = ground arith in
        rw e (began_fetch idle there idle there refl refl)
  ]

  Began-install_plugin :
      (p : Option (MarketPlugin Int)) (s : DialogState Int)
      → Began s (install_plugin p s).0 (install_plugin p s).1
  unfolding install_plugin
  Began-install_plugin none s = Began-self s
  Began-install_plugin (some p) s =
      let spec = or_else (npm_package p) (git_spec p) in
      elim (Bool-cases (is_empty spec)) [
        | inl e ↦ rw e (Began-self s)
        | inr e ↦ rw e (Began-start_op (add_op (s.zh) spec (p.display_name)) s)
      ]

  Began-on_uninstall : (s : DialogState Int) → Began s (on_uninstall s).0 (on_uninstall s).1
  unfolding on_uninstall
  Began-on_uninstall s = elim (Bool-cases (is_empty (root_name (s.selected_installed)))) [
    | inl e ↦ rw e (Began-self s)
    | inr e ↦ rw e (Began-start_op (remove_op (s.zh) (root_name (s.selected_installed))) s)
  ]

  Began-on_local_chosen :
      (pick_directory : Bool) (is_regular : Bytes → Bool) (path : Option Bytes)
      (s : DialogState Int)
      → Began s
          (on_local_chosen pick_directory is_regular path s).0
          (on_local_chosen pick_directory is_regular path s).1
  unfolding on_local_chosen
  Began-on_local_chosen pick_directory is_regular none s = Began-self s
  Began-on_local_chosen pick_directory is_regular (some p) s =
      elim (Bool-cases (pick_directory && not (is_regular (p ++ codes "/package.json")))) [
        | inl e ↦ rw e (stays refl refl refl)
        | inr e ↦ rw e (Began-start_op (add_op (s.zh) p p) s)
      ]

  Keeps-deselect_market :
      (r : Option MarketRow) (s : DialogState Int) → Keeps s (deselect_market r s)
  unfolding deselect_market
  Keeps-deselect_market none s = Keeps-self s
  Keeps-deselect_market (some r) s = record {
    same_closed = refl;
    same_busy = refl;
    same_pending = refl;
  }

  pub Keeps-fill_market :
      (int_text : Int → Bytes) (s : DialogState Int) → Keeps s (fill_market int_text s)
  unfolding fill_market
  Keeps-fill_market int_text s =
      let k = Keeps-deselect_market (s.selected_market) (record s { market_rows = [] }) in
      record { same_closed = k.same_closed; same_busy = k.same_busy; same_pending = k.same_pending }

  module _ (fl : Floats) (home : Bytes) where
    Keeps-enabling_done :
        (error : Option Bytes) (name : Bytes) (enable : Bool) (files : Files) (s : DialogState Int)
        → Keeps s (enabling_done fl home error name enable files s)
    unfolding enabling_done refresh_local_data
    Keeps-enabling_done none name enable files s = record {
      same_closed = refl;
      same_busy = refl;
      same_pending = refl;
    }
    Keeps-enabling_done (some error) name enable files s = record {
      same_closed = refl;
      same_busy = refl;
      same_pending = refl;
    }

    Began-on_enable_disable :
        (writes enable : Bool) (files : Files) (s : DialogState Int)
        → Began s
            (on_enable_disable fl home writes enable files s).state
            (on_enable_disable fl home writes enable files s).started
    unfolding on_enable_disable
    Began-on_enable_disable writes enable files s = elim (Bool-cases (is_empty (chosen_name s))) [
      | inl e ↦ rw e (Began-self s)
      | inr e ↦ rw e (kept (Keeps-enabling_done _ (chosen_name s) enable _ s) refl)
    ]

    pub Began-on_refresh :
        (files : Files) (s : DialogState Int)
        → Began s (on_refresh fl home files s).0 (on_refresh fl home files s).1
    unfolding on_refresh refresh_local_data
    Began-on_refresh files s = elim (Began-reload_market (refresh_local_data fl home files s)) [
      | kept k e ↦
          kept
            (record {
              same_closed = k.same_closed;
              same_busy = k.same_busy;
              same_pending = k.same_pending;
            })
            e
      | began_op ctx a b c d p e ↦ began_op ctx a b c d p e
      | began_fetch a b c d p e ↦ began_fetch a b c d p e
    ]

    pub Began-act :
        (int_text : Int → Bytes) (a : Action) (files : Files) (s : DialogState Int)
        → Began s (act fl home int_text a files s).state (act fl home int_text a files s).started
    unfolding act on_selection_changed on_page_changed on_search_changed on_install on_restart
    Began-act int_text (pick_installed r) files s = stays refl refl refl
    Began-act int_text (pick_enabled r) files s = stays refl refl refl
    Began-act int_text (pick_market r) files s = stays refl refl refl
    Began-act int_text (page_shown n) files s = stays refl refl refl
    Began-act int_text page_signal files s = stays refl refl refl
    Began-act int_text (typed text) files s =
        let k = Keeps-fill_market int_text (record s { search = text }) in
        stays (k.same_closed) (k.same_busy) (k.same_pending)
    Began-act int_text install files s = Began-install_plugin (selected_plugin s) s
    Began-act int_text uninstall files s = Began-on_uninstall s
    Began-act int_text visit files s = Began-self s
    Began-act int_text restart files s = stays refl refl refl
    Began-act int_text refresh files s = Began-on_refresh files s
    Began-act int_text (enable_disable writes enable) files s =
        Began-on_enable_disable writes enable files s
    Began-act int_text (local_chosen pick_directory is_regular path) files s =
        Began-on_local_chosen pick_directory is_regular path s
