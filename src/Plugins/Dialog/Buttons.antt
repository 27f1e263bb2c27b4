-- ===== src/Plugins/Dialog/Buttons.antt =====
-- UpdateButtons of the plugins dialog (linux/src/plugins_manager.cpp).
use harness_desktop.Base.{
  Bool, true, false, not, ◌||◌, List, Option, none, some, Bytes, is_empty, get_elem?, ◌==◌,
  if◌then◌else◌,
}
use harness_desktop.Plugins.Tree.{is_in}
use harness_desktop.Plugins.Market.{MarketPlugin, npm_package, git_spec}
use harness_desktop.Plugins.Dialog.State.{
  Flag, root, InstalledRow, EnabledRow, MarketRow, Buttons, DialogState,
}

abbrev pub is_root : Flag → Bool
is_root root = true
is_root _ = false

-- the buttons when no row is selected
unfoldable pub plain_buttons : Bool → Buttons
plain_buttons on = record {
  install = false;
  uninstall = false;
  enable = false;
  disable = false;
  visit = false;
  restart = on;
  refresh = on;
  local_file = on;
  local_dir = on;
}

-- page 0
unfoldable pub installed_buttons : List Bytes → Option InstalledRow → Buttons → Buttons
installed_buttons enabled none b = b
installed_buttons enabled (some r) b =
    if is_root (r.flag)
    then record b {
      enable = not (is_in (r.name) enabled);
      disable = is_in (r.name) enabled;
      uninstall = true;
    }
    else b

-- page 1
unfoldable pub enabled_buttons : Option EnabledRow → Buttons → Buttons
enabled_buttons none b = b
enabled_buttons (some r) b = record b { disable = true }

module _ {Int : Type 0} where
  unfoldable pub plugin_buttons : Option (MarketPlugin Int) → Buttons → Buttons
  unfolding npm_package git_spec
  plugin_buttons none b = b
  plugin_buttons (some p) b = record b {
    install = not (is_empty (npm_package p)) || not (is_empty (git_spec p));
    visit = not (is_empty (p.url));
  }

  -- page 2; there is no plugin at an index that is not below the size.
  unfoldable pub market_buttons : List (MarketPlugin Int) → Option MarketRow → Buttons → Buttons
  unfolding plugin_buttons
  market_buttons market none b = b
  market_buttons market (some r) b = plugin_buttons (get_elem? market (r.index)) b

  unfoldable pub buttons_for : DialogState Int → Buttons
  unfolding plain_buttons installed_buttons enabled_buttons market_buttons
  buttons_for s =
      let b = plain_buttons (not (s.busy)) in
      if s.busy
      then b
      else if s.page == 0
      then installed_buttons (s.enabled) (s.selected_installed) b
      else if s.page == 1
      then enabled_buttons (s.selected_enabled) b
      else if s.page == 2
      then market_buttons (s.market) (s.selected_market) b
      else b

  unfoldable pub update_buttons : DialogState Int → DialogState Int
  unfolding buttons_for
  update_buttons s = record s { buttons = buttons_for s }
