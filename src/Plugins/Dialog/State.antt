-- ===== src/Plugins/Dialog/State.antt =====
-- DialogState of linux/src/plugins_manager.cpp, with the state of its widgets, and the workers.
use harness_desktop.Base.{ℕ, Bool, List, Option, Bytes}
use harness_desktop.Plugins.Market.{MarketPlugin}

-- InstalledFlag
pub data Flag : Type 0 where
  root builtin dep : Flag

-- The rows of the three views. The installed ones are a tree.
pub record InstalledRow : Type 0 where
  pub name : Bytes
  pub status : Bytes
  pub flag : Flag

mutual
  pub data Row : Type 0 where
    row : InstalledRow → Rows → Row

  pub data Rows : Type 0 where
    no_rows : Rows
    row_then : Row → Rows → Rows

pub record EnabledRow : Type 0 where
  pub order : ℕ
  pub name : Bytes

pub record MarketRow : Type 0 where
  pub name : Bytes
  pub type : Bytes
  pub category : Bytes
  pub version : Bytes
  pub stars : Bytes
  pub index : ℕ

-- the sensitivity of each button
pub record Buttons : Type 0 where
  pub install : Bool
  pub uninstall : Bool
  pub enable : Bool
  pub disable : Bool
  pub visit : Bool
  pub restart : Bool
  pub refresh : Bool
  pub local_file : Bool
  pub local_dir : Bool

-- `page` is what gtk_notebook_get_current_page returns, `search` the text of the entry, and the
-- selections are those of the three views.
pub record DialogState (Int : Type 0) : Type 0 where
  pub zh : Bool
  pub closed : Bool
  pub busy : Bool
  pub pending_workers : ℕ
  pub market : List (MarketPlugin Int)
  pub installed : List Bytes
  pub enabled : List Bytes
  pub page : ℕ
  pub search : Bytes
  pub search_sensitive : Bool
  pub installed_rows : Rows
  pub enabled_rows : List EnabledRow
  pub market_rows : List MarketRow
  pub selected_installed : Option InstalledRow
  pub selected_enabled : Option EnabledRow
  pub selected_market : Option MarketRow
  pub status : Bytes
  pub buttons : Buttons

-- CommandResult
pub record CommandResult : Type 0 where
  pub ok : Bool
  pub output : Bytes

-- OpCtx, without the pointer to the state and the result
pub record OpCtx : Type 0 where
  pub args : List Bytes
  pub label : Bytes
  pub spec : Bytes
  pub pnpm_required : Bool

-- A thread that was started and whose idle callback has not run.
pub data Worker : Type 0 where
  plugin_op : OpCtx → Worker
  market_fetch : Worker
