-- ===== src/Plugins/Dialog/Examples.antt =====
-- The theorems on the plugins dialog of linux/src/plugins_manager.cpp at concrete inputs.
use harness_desktop.Base.{
  ℕ, ◌≤◌, ◌≡◌, refl, true, false, ◌&&◌, ◌==◌, [], ◌∷◌, some, codes, is_empty, length, if◌then◌else◌,
}
use harness_desktop.Base.Decimal.{decimal}
use harness_desktop.Json.Naturals.{naturals}
use harness_desktop.Plugins.Profile.{enabled_bundles}
use harness_desktop.Plugins.Bundles.{changed}
use harness_desktop.Plugins.Market.{MarketPlugin}
use harness_desktop.Plugins.Sample.{root as manifest, root-IsPrintable, files, files-root}
use harness_desktop.Plugins.Dialog.State.{root, DialogState, plugin_op}
use harness_desktop.Plugins.Dialog.Buttons.{buttons_for}
use harness_desktop.Plugins.Dialog.Operations.{op_finished, market_fetched}
use harness_desktop.Plugins.Dialog.Handlers.{
  add_op, new_state, chosen_name, on_enable_disable, close_dialog, show_dialog,
}
use harness_desktop.Plugins.Dialog.World.{
  World, local_chosen, act, opened, released, start_world, Reachable, shown, then_step, acted,
  op_done, fetch_done, closed,
}
use harness_desktop.Plugins.Dialog.Workers.{ops, Tracks}
use harness_desktop.Plugins.Dialog.Lifetime.{Tracks-Reachable, deletions-Reachable, ops-Reachable}
use harness_desktop.Plugins.Dialog.MarketRows.{ShowsMarket}
use harness_desktop.Plugins.Dialog.Shown.{ShowsMarket-Reachable}
use harness_desktop.Plugins.Dialog.Enabling.{enabled-on_enable_disable}

abbrev plugin : MarketPlugin ℕ
plugin = record {
  id = codes "gh:o/r";
  name = codes "r";
  display_name = codes "R";
  type = codes "repo";
  category = codes "tools";
  summary = [];
  url = codes "https://github.com/o/r";
  version = codes "1.0";
  stars = some 3;
}

-- A package is chosen while the market is loading, the dialog is closed, and both workers end.
abbrev at_start : World ℕ
at_start = start_world naturals (codes "/h") decimal false (λ _. [])

abbrev choosing : World ℕ
choosing = opened at_start (
    act naturals (codes "/h") decimal (local_chosen false (λ _. false) (some (codes "/p.tgz")))
      (at_start.files) (at_start.state))

abbrev left : World ℕ
left = released choosing (choosing.workers) (close_dialog (choosing.state))

abbrev fetched : World ℕ
fetched =
    released left (plugin_op (add_op false (codes "/p.tgz") (codes "/p.tgz")) ∷ [])
      (market_fetched decimal (plugin ∷ []) (left.state))

abbrev ended : World ℕ
ended = released fetched [] (
    op_finished naturals (codes "/h") (fetched.files)
      (add_op false (codes "/p.tgz") (codes "/p.tgz")) (record { ok = true; output = [] })
      (fetched.state))

abbrev Run : World ℕ → Type 0
Run = Reachable naturals (codes "/h") decimal false (λ _. [])

choosing-Reachable : Run choosing
unfolding act show_dialog
choosing-Reachable =
    then_step shown
      (acted (local_chosen false (λ _. false) (some (codes "/p.tgz"))) at_start refl tt)

left-Reachable : Run left
unfolding act show_dialog
left-Reachable = then_step choosing-Reachable (closed choosing refl)

fetched-Reachable : Run fetched
unfolding act show_dialog
fetched-Reachable = then_step left-Reachable (
    fetch_done (plugin ∷ []) (plugin_op (add_op false (codes "/p.tgz") (codes "/p.tgz")) ∷ []) []
      left refl)

ended-Reachable : Run ended
ended-Reachable = then_step fetched-Reachable (
    op_done (add_op false (codes "/p.tgz") (codes "/p.tgz")) (record { ok = true; output = [] }) []
      [] fetched refl)

Tracks-Reachable_example : Tracks ended
Tracks-Reachable_example = Tracks-Reachable naturals (codes "/h") decimal ended-Reachable

deletions-Reachable_example :
    ended.deletions ≡ (if ended.state.closed && length (ended.workers) == 0 then 1 else 0)
deletions-Reachable_example = deletions-Reachable naturals (codes "/h") decimal ended-Reachable

deleted_once : ended.deletions ≡ 1
unfolding act show_dialog op_finished market_fetched close_dialog
deleted_once = refl

ops-Reachable_example :
    (ops (choosing.workers) ≤ 1)
    × (choosing.state.closed ≡ false
        → ops (choosing.workers) ≡ (if choosing.state.busy then 1 else 0))
ops-Reachable_example = ops-Reachable naturals (codes "/h") decimal choosing-Reachable

-- The market is there while the dialog is open.
abbrev loaded : World ℕ
loaded = released at_start [] (market_fetched decimal (plugin ∷ []) (at_start.state))

loaded-Reachable : Run loaded
unfolding show_dialog
loaded-Reachable = then_step shown (fetch_done (plugin ∷ []) [] [] at_start refl)

ShowsMarket-Reachable_example : ShowsMarket (loaded.state)
ShowsMarket-Reachable_example = ShowsMarket-Reachable naturals (codes "/h") decimal loaded-Reachable

abbrev on_market : DialogState ℕ
on_market = record (new_state false) {
  market = plugin ∷ [];
  page = 2;
  selected_market = some (record {
    name = codes "R";
    type = codes "repo";
    category = codes "tools";
    version = codes "1.0";
    stars = codes "3";
    index = 0;
  });
}

on_market_closed : on_market.closed ≡ false
unfolding new_state
on_market_closed = refl

on_market_sensitive : (buttons_for on_market).install ≡ true
unfolding new_state buttons_for
on_market_sensitive = refl

-- "a" is selected on the first page.
abbrev on_installed : DialogState ℕ
on_installed = record (new_state false) {
  selected_installed = some (record { name = codes "a"; status = codes "enabled"; flag = root });
}

on_installed_chosen : is_empty (chosen_name on_installed) ≡ false
unfolding new_state chosen_name
on_installed_chosen = refl

enabled-on_enable_disable_example :
    ((on_enable_disable naturals (codes "/home") true false files on_installed).state.enabled
      ≡ changed (chosen_name on_installed) false (enabled_bundles naturals files (codes "/home")))
    × ((on_enable_disable naturals
          (codes "/home")
          true
          false
          files
          on_installed).state.buttons.restart
        ≡ true)
enabled-on_enable_disable_example =
    enabled-on_enable_disable naturals (codes "/home") false files on_installed manifest files-root
      root-IsPrintable on_installed_chosen
