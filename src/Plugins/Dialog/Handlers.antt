-- ===== src/Plugins/Dialog/Handlers.antt =====
-- The handlers of the plugins dialog (linux/src/plugins_manager.cpp).
use harness_desktop.Base.{
  Bool, true, false, not, ◌||◌, ◌&&◌, List, [], ◌∷◌, ◌++◌, Option, none, some, Bytes, codes,
  is_empty, get_elem?, ◌==◌, if◌then◌else◌,
}
use harness_desktop.Json.Floats.{Floats}
use harness_desktop.Labels.{utf8_text, choose}
use harness_desktop.Plugins.Profile.{Files, package_json_path, set_enabled}
use harness_desktop.Plugins.Saved.{save}
use harness_desktop.Plugins.Market.{MarketPlugin, npm_package, git_spec, or_else}
use harness_desktop.Plugins.Dialog.State.{
  InstalledRow, EnabledRow, MarketRow, no_rows, DialogState, OpCtx, Worker,
}
use harness_desktop.Plugins.Dialog.Buttons.{is_root, plain_buttons, update_buttons}
use harness_desktop.Plugins.Dialog.Operations.{
  Released, set_status, start_op, reload_market, fill_market, refresh_local_data,
}

-- What a handler leaves: the state, the workers that it started, and the files.
pub record Handled (Int : Type 0) : Type 0 where
  pub state : DialogState Int
  pub started : List Worker
  pub files : Files

abbrev pub add_op : Bool → Bytes → Bytes → OpCtx
add_op zh spec shown = record {
  args = codes "add" ∷ spec ∷ [];
  label = choose zh "安装 " "Install " ++ shown;
  spec = spec;
  pnpm_required = true;
}

abbrev pub remove_op : Bool → Bytes → OpCtx
remove_op zh name = record {
  args = codes "remove" ∷ name ∷ [];
  label = choose zh "卸载 " "Uninstall " ++ name;
  spec = name;
  pnpm_required = false;
}

-- the name of the selected installed row, if it is that of a root; no name is the empty one.
unfoldable pub root_name : Option InstalledRow → Bytes
root_name none = []
root_name (some r) = if is_root (r.flag) then r.name else []

abbrev pub row_name : Option EnabledRow → Bytes
row_name none = []
row_name (some r) = r.name

unfoldable pub enabling_status : Bool → Bool → Bytes → Bytes
unfolding choose utf8_text
enabling_status zh enable name =
    name
    ++ (utf8_text " — "
        ++ ((if enable then choose zh "已启用" "enabled" else choose zh "已停用" "disabled")
            ++ (utf8_text " · " ++ choose zh "需重启 dsh web 生效" "restart dsh web to apply")))

module _ {Int : Type 0} where
  unfoldable pub on_selection_changed : DialogState Int → DialogState Int
  unfolding update_buttons
  on_selection_changed s = update_buttons s

  unfoldable pub on_page_changed : DialogState Int → DialogState Int
  unfolding update_buttons
  on_page_changed s = update_buttons (record s { search_sensitive = s.page == 2 })

  unfoldable pub on_search_changed : (Int → Bytes) → DialogState Int → DialogState Int
  unfolding fill_market
  on_search_changed int_text s = fill_market int_text s

  -- the plugin that the selected row of the market stands for
  abbrev pub plugin_at : List (MarketPlugin Int) → Option MarketRow → Option (MarketPlugin Int)
  plugin_at market none = none
  plugin_at market (some r) = get_elem? market (r.index)

  unfoldable pub selected_plugin : DialogState Int → Option (MarketPlugin Int)
  selected_plugin s = plugin_at (s.market) (s.selected_market)

  unfoldable pub install_plugin :
      Option (MarketPlugin Int) → DialogState Int → DialogState Int × List Worker
  unfolding npm_package git_spec start_op choose
  install_plugin none s = (s, [])
  install_plugin (some p) s =
      let spec = or_else (npm_package p) (git_spec p) in
      if is_empty spec then (s, []) else start_op (add_op (s.zh) spec (p.display_name)) s

  unfoldable pub on_install : DialogState Int → DialogState Int × List Worker
  unfolding selected_plugin install_plugin
  on_install s = install_plugin (selected_plugin s) s

  unfoldable pub on_uninstall : DialogState Int → DialogState Int × List Worker
  unfolding root_name start_op choose
  on_uninstall s =
      let name = root_name (s.selected_installed) in
      if is_empty name then (s, []) else start_op (remove_op (s.zh) name) s

  -- `name` of OnEnableDisable, empty where it returns
  unfoldable pub chosen_name : DialogState Int → Bytes
  unfolding root_name
  chosen_name s =
      if s.page == 0
      then root_name (s.selected_installed)
      else if s.page == 1
      then row_name (s.selected_enabled)
      else []

  abbrev pub enable_restart : DialogState Int → DialogState Int
  enable_restart s = record s { buttons = record (s.buttons) { restart = true } }

  module _ (fl : Floats) (home : Bytes) where
    -- The part of OnEnableDisable behind its SetEnabled. `files` are those behind the write.
    unfoldable pub enabling_done :
        Option Bytes → Bytes → Bool → Files → DialogState Int → DialogState Int
    unfolding refresh_local_data set_status enabling_status
    enabling_done (some error) name enable files s = set_status (name ++ (codes ": " ++ error)) s
    enabling_done none name enable files s =
        enable_restart
          (set_status (enabling_status (s.zh) enable name) (refresh_local_data fl home files s))

    -- OnEnableDisable. A write that fails leaves the file as it was; `writes` says if it succeeds.
    unfoldable pub on_enable_disable : Bool → Bool → Files → DialogState Int → Handled Int
    unfolding chosen_name set_enabled enabling_done package_json_path
    on_enable_disable writes enable files s =
        let name = chosen_name s in
        let change = set_enabled fl files home writes name enable in
        let saved = save files (package_json_path home) (if writes then change.written else none) in
        if is_empty name then record { state = s; started = []; files = files } else record {
          state = enabling_done (change.error) name enable saved s;
          started = [];
          files = saved;
        }

    -- OnRefresh
    unfoldable pub on_refresh : Files → DialogState Int → DialogState Int × List Worker
    unfolding refresh_local_data reload_market
    on_refresh files s = reload_market (refresh_local_data fl home files s)

  -- OnOpen: the address that it shows
  unfoldable pub on_open : DialogState Int → Option Bytes
  unfolding selected_plugin
  on_open s = elim (selected_plugin s) [
    | none ↦ none
    | some p ↦ if is_empty (p.url) then none else some (p.url)
  ]

  -- OnRestart, behind the call of onRestart
  unfoldable pub on_restart : DialogState Int → DialogState Int
  unfolding set_status choose
  on_restart s =
      let told = set_status (choose (s.zh) "已请求重启 dsh web…" "Restarting dsh web…") s in
      record told { buttons = record (told.buttons) { restart = false } }

  -- OnLocalInstall runs a main loop of its own in the file chooser: its test before that, and what it
  -- does then with the path that was chosen. `has_manifest` says whether the directory has a
  -- package.json.
  unfoldable pub opens_chooser : DialogState Int → Bool
  opens_chooser s = not (s.busy || s.closed)

  unfoldable pub on_local_chosen :
      Bool → (Bytes → Bool) → Option Bytes → DialogState Int → DialogState Int × List Worker
  unfolding set_status start_op choose
  on_local_chosen pick_directory is_regular none s = (s, [])
  on_local_chosen pick_directory is_regular (some p) s =
      if pick_directory && not (is_regular (p ++ codes "/package.json"))
      then (
        set_status
            (choose (s.zh) "所选目录中没有 package.json" "The selected directory has no package.json") s,
        [],
      )
      else start_op (add_op (s.zh) p p) s

  -- The state that ShowDialog makes, with its buttons and before its first refresh.
  unfoldable pub new_state : Bool → DialogState Int
  unfolding plain_buttons
  new_state zh = record {
    zh = zh;
    closed = false;
    busy = false;
    pending_workers = 0;
    market = [];
    installed = [];
    enabled = [];
    page = 0;
    search = [];
    search_sensitive = false;
    installed_rows = no_rows;
    enabled_rows = [];
    market_rows = [];
    selected_installed = none;
    selected_enabled = none;
    selected_market = none;
    status = [];
    buttons = record (plain_buttons true) { restart = false };
  }

  -- ShowDialog up to the run of the dialog
  unfoldable pub show_dialog : Floats → Bytes → Files → Bool → DialogState Int × List Worker
  unfolding new_state on_refresh
  show_dialog fl home files zh = on_refresh fl home files (new_state zh)

  -- ShowDialog behind the run
  unfoldable pub close_dialog : DialogState Int → Released (DialogState Int)
  close_dialog s = record { state = record s { closed = true }; deleted = s.pending_workers == 0 }
