-- ===== src/Plugins/Dialog/Operations.antt =====
-- The background operations of the plugins dialog (linux/src/plugins_manager.cpp): what starts a
-- worker, what it computes, and its idle callback on the main thread.
use harness_desktop.Base.{
  ℕ, ◌+◌, ◌-◌, Bool, true, false, not, ◌||◌, ◌&&◌, List, [], ◌∷◌, ◌++◌, Option, none, some, Bytes,
  codes, length, ◌==◌, if◌then◌else◌,
}
use harness_desktop.Base.Decimal.{decimal}
use harness_desktop.Json.Floats.{Floats}
use harness_desktop.Labels.{utf8_text, choose}
use harness_desktop.Plugins.Profile.{Files, installed_packages, enabled_bundles}
use harness_desktop.Plugins.Tree.{is_in, dependency_tree}
use harness_desktop.Plugins.Tail.{output_tail}
use harness_desktop.Plugins.Market.{MarketPlugin}
use harness_desktop.Plugins.Dialog.State.{
  MarketRow, DialogState, CommandResult, OpCtx, Worker, plugin_op, market_fetch,
}
use harness_desktop.Plugins.Dialog.Rows.{trim, child_rows, enabled_rows_from, market_rows_from}
use harness_desktop.Plugins.Dialog.Buttons.{update_buttons}

-- What g_spawn_sync gives back: the message of its error, or what it read and the wait status.
pub data SpawnResult : Type 0 where
  spawn_error : Option Bytes → SpawnResult
  spawned : Bytes → Bytes → Bool → SpawnResult

-- RunDshPlugin: the command line, and the result from what the spawn gives back
unfoldable pub dsh_plugin_command : List Bytes → List Bytes
dsh_plugin_command args =
    codes "npx"
    ∷ codes "--yes"
    ∷ codes "@deepseek-ai/dsh"
    ∷ codes "plugin"
    ∷ codes "--profile"
    ∷ codes "web"
    ∷ args

unfoldable pub command_result : SpawnResult → CommandResult
unfolding output_tail
command_result (spawn_error none) = record { ok = false; output = codes "spawn failed" }
command_result (spawn_error (some message)) = record { ok = false; output = message }
command_result (spawned out err success) = record {
  ok = success;
  output = output_tail (out ++ err);
}

unfoldable pub run_dsh_plugin : (List Bytes → SpawnResult) → List Bytes → CommandResult
unfolding dsh_plugin_command command_result
run_dsh_plugin spawn args = command_result (spawn (dsh_plugin_command args))

-- PnpmAvailable
unfoldable pub pnpm_available : (List Bytes → SpawnResult) → Bool
pnpm_available spawn = elim (spawn (codes "which" ∷ codes "pnpm" ∷ [])) [
  | spawn_error message ↦ false
  | spawned out err success ↦ success
]

-- the thread of OpThread
unfoldable pub op_result : (List Bytes → SpawnResult) → Bool → OpCtx → CommandResult
unfolding pnpm_available run_dsh_plugin choose
op_result spawn zh ctx =
    if ctx.pnpm_required && not (pnpm_available spawn)
    then record {
      ok = false;
      output =
          choose zh "未找到 pnpm（安装插件需要它，请先安装 corepack/pnpm）"
            "pnpm not found (required to install plugins; install corepack/pnpm first)";
    }
    else run_dsh_plugin spawn (ctx.args)

-- the status line of OpThread's callback
unfoldable pub op_status : Bool → List Bytes → OpCtx → CommandResult → Bytes
unfolding choose utf8_text
op_status zh enabled ctx result =
    if result.ok
    then ctx.label
      ++ (utf8_text " — "
          ++ (choose zh "完成" "done"
              ++ (utf8_text " · "
                  ++ (if is_in (ctx.spec) enabled
                      then choose zh "需重启 dsh web 生效" "restart dsh web to apply"
                      else choose zh "无需重启（普通依赖）" "no restart needed (plain dependency)"))))
    else ctx.label ++ (codes ": " ++ result.output)

-- the status line of MarketThread's callback
unfoldable pub market_status : Bool → ℕ → Bytes
unfolding choose decimal
market_status zh size =
    if size == 0
    then choose zh "插件市场加载失败" "Failed to load the plugin market"
    else choose zh "插件市场已加载（" "Plugin market loaded ("
      ++ (decimal size ++ choose zh " 个插件）" " plugins)")

-- A callback, or the end of ShowDialog: the state behind it, and whether it deleted the state.
pub record Released (S : Type 0) : Type 0 where
  pub state : S
  pub deleted : Bool

module _ {Int : Type 0} where
  unfoldable pub set_status : Bytes → DialogState Int → DialogState Int
  set_status text s = record s { status = text }

  -- StartOp, with the worker that it starts
  unfoldable pub start_op : OpCtx → DialogState Int → DialogState Int × List Worker
  unfolding update_buttons set_status utf8_text
  start_op ctx s = if s.busy || s.closed then (s, []) else (
    set_status (ctx.label ++ utf8_text "…")
        (update_buttons (record s { busy = true; pending_workers = s.pending_workers + 1 })),
    plugin_op ctx ∷ [],
  )

  -- ReloadMarket
  unfoldable pub reload_market : DialogState Int → DialogState Int × List Worker
  unfolding set_status choose
  reload_market s = if s.busy || s.closed then (s, []) else (
    set_status (choose (s.zh) "正在加载插件市场…" "Loading the plugin market…")
        (record s { pending_workers = s.pending_workers + 1 }),
    market_fetch ∷ [],
  )

  -- `bool last = --s->pendingWorkers == 0; if (s->closed && last) delete s;`
  unfoldable pub end_worker : DialogState Int → Released (DialogState Int)
  end_worker s = record {
    state = record s { pending_workers = s.pending_workers - 1 };
    deleted = s.closed && s.pending_workers - 1 == 0;
  }

  -- Clearing the store removes the selected row, and the selection's "changed" calls
  -- OnSelectionChanged.
  unfoldable pub deselect_market : Option MarketRow → DialogState Int → DialogState Int
  unfolding update_buttons
  deselect_market none s = s
  deselect_market (some r) s = update_buttons (record s { selected_market = none })

  module _ (int_text : Int → Bytes) where
    -- FillMarket
    unfoldable pub fill_market : DialogState Int → DialogState Int
    unfolding deselect_market trim market_rows_from
    fill_market s =
        let cleared = deselect_market (s.selected_market) (record s { market_rows = [] }) in
        record cleared {
          market_rows = market_rows_from int_text (s.zh) (trim (s.search)) 0 (s.market);
        }

    -- MarketThread's callback, with the plugins that FetchMarket returned
    unfoldable pub market_fetched :
        List (MarketPlugin Int) → DialogState Int → Released (DialogState Int)
    unfolding fill_market update_buttons set_status market_status end_worker
    market_fetched plugins s = end_worker (
        if s.closed
        then s
        else set_status (market_status (s.zh) (length plugins))
            (update_buttons (fill_market (record s { market = plugins }))))

  module _ (fl : Floats) (home : Bytes) (files : Files) where
    -- FillInstalled and FillEnabled; the selections of the cleared stores are gone. UpdateButtons,
    -- which their "changed" calls, is called behind them as well.
    unfoldable pub fill_installed : DialogState Int → DialogState Int
    unfolding dependency_tree child_rows
    fill_installed s = record s {
      installed_rows = child_rows (s.zh) (s.enabled) true (dependency_tree fl files home);
      selected_installed = none;
    }

    unfoldable pub fill_enabled : DialogState Int → DialogState Int
    unfolding enabled_rows_from
    fill_enabled s = record s {
      enabled_rows = enabled_rows_from 1 (s.enabled);
      selected_enabled = none;
    }

    -- RefreshLocalData
    unfoldable pub refresh_local_data : DialogState Int → DialogState Int
    unfolding fill_installed fill_enabled update_buttons installed_packages enabled_bundles
    refresh_local_data s = update_buttons (
        fill_enabled (
          fill_installed (record s {
            installed = installed_packages fl files home;
            enabled = enabled_bundles fl files home;
          })))

    -- OpThread's callback
    unfoldable pub op_finished :
        OpCtx → CommandResult → DialogState Int → Released (DialogState Int)
    unfolding refresh_local_data set_status op_status end_worker
    op_finished ctx result s =
        let refreshed = refresh_local_data (record s { busy = false }) in
        end_worker (
          if s.closed
          then s
          else set_status (op_status (s.zh) (refreshed.enabled) ctx result) refreshed)
