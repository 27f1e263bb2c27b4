-- ===== src/Plugins/Dialog/World.antt =====
-- What may happen while the plugins dialog and its workers are there
-- (linux/src/plugins_manager.cpp): the user's actions, the idle callbacks of the workers, and the end
-- of the dialog.
use harness_desktop.Base.{
  ℕ, ◌+◌, ◌≡◌, Bool, false, List, [], ◌∷◌, ◌++◌, Option, some, Bytes, if◌then◌else◌,
}
use harness_desktop.Json.Floats.{Floats}
use harness_desktop.Plugins.Profile.{Files}
use harness_desktop.Plugins.Market.{MarketPlugin}
use harness_desktop.Plugins.Dialog.State.{
  InstalledRow, EnabledRow, MarketRow, DialogState, CommandResult, OpCtx, Worker, plugin_op,
  market_fetch,
}
use harness_desktop.Plugins.Dialog.Operations.{Released, op_finished, market_fetched}
use harness_desktop.Plugins.Dialog.Handlers.{
  Handled, on_selection_changed, on_page_changed, on_search_changed, on_install, on_uninstall,
  on_enable_disable, on_refresh, on_open, on_restart, on_local_chosen, show_dialog, close_dialog,
}

-- `page_shown` is the notebook's change of its page, and `page_signal` the handler's call, in
-- whatever order.
pub data Action : Type 0 where
  pick_installed : Option InstalledRow → Action
  pick_enabled : Option EnabledRow → Action
  pick_market : Option MarketRow → Action
  page_shown : ℕ → Action
  page_signal : Action
  typed : Bytes → Action
  install uninstall visit restart refresh : Action
  enable_disable : Bool → Bool → Action
  local_chosen : Bool → (Bytes → Bool) → Option Bytes → Action

-- A row that is picked is one of the rows.
pub data Among {ℓ} {A : Type ℓ} (x : A) : List A → Type ℓ where
  first : {xs : List A} → Among x (x ∷ xs)
  later : {y : A} {xs : List A} → Among x xs → Among x (y ∷ xs)

-- The state, the workers whose callbacks have not run, the files, and how often the state was deleted.
pub record World (Int : Type 0) : Type 0 where
  pub state : DialogState Int
  pub workers : List Worker
  pub files : Files
  pub deletions : ℕ

module _ {Int : Type 0} where
  abbrev pub IsPossible : DialogState Int → Action → Type 0
  IsPossible s (pick_market (some r)) = Among r (s.market_rows)
  IsPossible s _ = Unit

  abbrev pub handled : Files → DialogState Int × List Worker → Handled Int
  handled files r = record { state = r.0; started = r.1; files = files }

  abbrev pub opened : World Int → Handled Int → World Int
  opened w h = record w { state = h.state; workers = h.started ++ w.workers; files = h.files }

  abbrev pub released : World Int → List Worker → Released (DialogState Int) → World Int
  released w workers r = record w {
    state = r.state;
    workers = workers;
    deletions = (if r.deleted then 1 else 0) + w.deletions;
  }

module _ {Int : Type 0} (fl : Floats) (home : Bytes) (int_text : Int → Bytes) where
  unfoldable pub act : Action → Files → DialogState Int → Handled Int
  unfolding on_selection_changed on_page_changed on_search_changed on_install on_uninstall
      on_enable_disable on_refresh on_open on_restart on_local_chosen
  act (pick_installed r) files s =
      handled files (on_selection_changed (record s { selected_installed = r }), [])
  act (pick_enabled r) files s =
      handled files (on_selection_changed (record s { selected_enabled = r }), [])
  act (pick_market r) files s =
      handled files (on_selection_changed (record s { selected_market = r }), [])
  act (page_shown n) files s = handled files (record s { page = n }, [])
  act page_signal files s = handled files (on_page_changed s, [])
  act (typed text) files s =
      handled files (on_search_changed int_text (record s { search = text }), [])
  act install files s = handled files (on_install s)
  act uninstall files s = handled files (on_uninstall s)
  act visit files s = handled files (s, [])
  act restart files s = handled files (on_restart s, [])
  act refresh files s = handled files (on_refresh fl home files s)
  act (enable_disable writes enable) files s = on_enable_disable fl home writes enable files s
  act (local_chosen pick_directory is_regular path) files s =
      handled files (on_local_chosen pick_directory is_regular path s)

  -- The handlers run while the dialog is open. A worker that is there may end at any time, with any
  -- result, and other programs may change the files.
  pub data Step : World Int → World Int → Type 0 where
    acted :
        (a : Action) (w : World Int)
        → w.state.closed ≡ false
        → IsPossible (w.state) a
        → Step w (opened w (act a (w.files) (w.state)))
    op_done :
        (ctx : OpCtx) (result : CommandResult) (before behind : List Worker) (w : World Int)
        → w.workers ≡ before ++ (plugin_op ctx ∷ behind)
        → Step w
            (released w (before ++ behind) (op_finished fl home (w.files) ctx result (w.state)))
    fetch_done :
        (plugins : List (MarketPlugin Int)) (before behind : List Worker) (w : World Int)
        → w.workers ≡ before ++ (market_fetch ∷ behind)
        → Step w (released w (before ++ behind) (market_fetched int_text plugins (w.state)))
    closed :
        (w : World Int)
        → w.state.closed ≡ false
        → Step w (released w (w.workers) (close_dialog (w.state)))
    elsewhere : (files : Files) (w : World Int) → Step w (record w { files = files })

  abbrev pub start_world : Bool → Files → World Int
  start_world zh files =
      let shown : DialogState Int × List Worker = show_dialog fl home files zh in
      record { state = shown.0; workers = shown.1; files = files; deletions = 0 }

  pub data Reachable (zh : Bool) (files : Files) : World Int → Type 0 where
    shown : Reachable zh files (start_world zh files)
    then_step : {v w : World Int} → Reachable zh files v → Step v w → Reachable zh files w
