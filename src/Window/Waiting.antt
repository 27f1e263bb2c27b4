-- ===== src/Window/Waiting.antt =====
-- The poll timers over the lifetime of the window (linux/src/main_window.cpp).
use harness_desktop.Base.{
  List, [], ℕ, ◌+◌, ◌-◌, ◌<◌, ◌≡◌, refl, sym, ap, ◌∙◌, Bool, true, false, not, Option, none, some,
  Bytes, ltb, if◌then◌else◌, if-elim, ◌==◌, arith,
}
use harness_desktop.Server.{Manager, System, start, stop, on_child_exited}
use harness_desktop.NodeRuntime.{runtime_available}
use harness_desktop.Window.Logs.{Log}
use harness_desktop.Window.Navigation.{navigate_with_auth}
use harness_desktop.Window.Polling.{
  PollState, Tick, add_poller, start_node_auto_install, on_server_failed, start_server_and_poll,
  node_install_answered, restart_server, accept_update, navigated, navigate_to_dsh_with_auth,
  on_server_ready, poll_drained, after_drain, on_poll_server, tick_poller,
}
use harness_desktop.Window.Polls.{
  Polled-kept, Polled-gone, server_ready-on_server_failed, Polled-on_poll_server,
}

-- A timer is there while the window waits for the server, and the update check starts once.
pub record IsPolled (s : PollState) : Type 0 where
  pub polled : s.server_ready ≡ false → 0 < s.pollers
  pub checked_once : s.checks ≡ (if s.update_checked then 1 else 0)

module _ (host : Bytes) where
  -- The first poll timer, or the failure, of StartServerAndPoll, and what happens behind it: the timers
  -- tick, the plugins dialog or the update restarts the server, the installation of a runtime is
  -- answered, and the server's process exits.
  pub data Step : PollState → PollState → Type 0 where
    ticked : (t : Tick) (s : PollState) → 0 < s.pollers → Step s (tick_poller host t s)
    restarted : (sys : System) (now : ℕ) (s : PollState) → Step s (restart_server sys now s)
    updated :
        (home : Option Bytes) (names : List Bytes) (sys : System) (now : ℕ) (s : PollState)
        → Step s (accept_update home names sys now s).0
    answered :
        (installed : Bool) (sys : System) (now : ℕ) (s : PollState)
        → s.node_installing ≡ true
        → Step s (node_install_answered installed sys now s)
    exited : (s : PollState) → Step s (record s { manager = on_child_exited (s.manager) })

  abbrev pub new_window : Manager → PollState
  new_window m = record {
    manager = m;
    logs =
        let log : Log = record { pos = 0; pending = [] } in
        record { auth_url = []; out = log; err = log; label = none };
    server_ready = false;
    update_checked = false;
    node_installing = false;
    poll_started = 0;
    pollers = 0;
    grace_timers = 0;
    checks = 0;
    overlay = false;
    hint = false;
    page = none;
    errors = 0;
  }

  pub data Reachable (sys : System) (now : ℕ) (m : Manager) : PollState → Type 0 where
    opened : Reachable sys now m (start_server_and_poll sys now (new_window m))
    stepped : {s s' : PollState} → Reachable sys now m s → Step s s' → Reachable sys now m s'

  -- `checks` counts what update_checked remembers
  abbrev IsCheckedOnce : PollState → Type 0
  IsCheckedOnce s = s.checks ≡ (if s.update_checked then 1 else 0)

  IsCheckedOnce-on_server_failed :
      (runtime : Bool) (s : PollState)
      → IsCheckedOnce s
      → IsCheckedOnce (on_server_failed runtime s)
  unfolding on_server_failed start_node_auto_install
  IsCheckedOnce-on_server_failed runtime s h =
      if-elim IsCheckedOnce (not runtime)
        (λ _. if-elim IsCheckedOnce (s.node_installing) (λ _. h) (λ _. h)) (λ _. h)

  checks-navigated :
      (o : Option Bytes) (s : PollState)
      → ((navigated host o s).checks ≡ s.checks)
        × ((navigated host o s).update_checked ≡ s.update_checked)
  unfolding navigated
  checks-navigated none s = (refl, refl)
  checks-navigated (some url) s = (refl, refl)

  IsCheckedOnce-on_server_ready :
      (s : PollState) → IsCheckedOnce s → IsCheckedOnce (on_server_ready host s)
  unfolding on_server_ready navigate_to_dsh_with_auth
  IsCheckedOnce-on_server_ready s h =
      let url =
        navigate_with_auth host (s.manager.active_port) (not (s.manager.child_pid == 0))
          (s.logs.auth_url) in
      let (same, seen) = checks-navigated url (record s { server_ready = true }) in
      if-elim IsCheckedOnce (not (s.update_checked)) (λ unchecked. ap (λ n. n + 1) h ∙ ground arith)
        (λ _. same ∙ (h ∙ ap (λ b. if b then 1 else 0) (sym seen)))

  IsCheckedOnce-on_poll_server :
      (t : Tick) (s : PollState) → IsCheckedOnce s → IsCheckedOnce (on_poll_server host t s).1
  unfolding on_poll_server poll_drained after_drain
  IsCheckedOnce-on_poll_server t s h =
      if-elim (λ (r : Bool × PollState). IsCheckedOnce r.1) (s.server_ready) (λ _. h)
        λ _.
          if-elim (λ (r : Bool × PollState). IsCheckedOnce r.1) (not (s.manager.running))
            (λ _. IsCheckedOnce-on_server_failed (t.runtime) s h)
            λ _.
              let d = after_drain host t s in
              if-elim (λ (r : Bool × PollState). IsCheckedOnce r.1)
                (ltb 180000000 (t.later - d.poll_started))
                (λ _. IsCheckedOnce-on_server_failed (t.runtime) d h)
                λ _.
                  if-elim (λ (r : Bool × PollState). IsCheckedOnce r.1) (t.answers)
                    (λ _. IsCheckedOnce-on_server_ready d h) (λ _. h)

  IsPolled-ready : {s : PollState} → s.server_ready ≡ true → IsCheckedOnce s → IsPolled s
  IsPolled-ready ready h = record { polled = λ unready. cc; checked_once = h }

  IsPolled-tick_poller : (t : Tick) (s : PollState) → IsPolled s → IsPolled (tick_poller host t s)
  unfolding tick_poller
  IsPolled-tick_poller t s h =
      let checked = IsCheckedOnce-on_poll_server t s (h.checked_once) in
      let polled = Polled-on_poll_server host t s in
      if-elim IsPolled (on_poll_server host t s).0
        (λ kept.
          let (before, pollers) = Polled-kept polled kept in
          let there = h.polled before in
          record { polled = λ _. omega arith; checked_once = checked })
        (λ gone. IsPolled-ready (Polled-gone polled gone) checked)

  IsPolled-add_poller : (now : ℕ) (s : PollState) → IsCheckedOnce s → IsPolled (add_poller now s)
  unfolding add_poller
  IsPolled-add_poller now s h = record { polled = λ _. omega arith; checked_once = h }

  IsPolled-on_server_failed :
      (runtime : Bool) (s : PollState) → IsCheckedOnce s → IsPolled (on_server_failed runtime s)
  IsPolled-on_server_failed runtime s h =
      IsPolled-ready (server_ready-on_server_failed runtime s)
        (IsCheckedOnce-on_server_failed runtime s h)

  IsPolled-start_server_and_poll :
      (sys : System) (now : ℕ) (s : PollState)
      → IsCheckedOnce s
      → IsPolled (start_server_and_poll sys now s)
  unfolding start_server_and_poll
  IsPolled-start_server_and_poll sys now s h =
      let started = start sys (s.manager) in
      if-elim IsPolled (not (started.returned))
        (λ _.
          IsPolled-on_server_failed (runtime_available (sys.machine) (started.path_set))
            (record s { overlay = true; manager = started.state }) h)
        (λ _. IsPolled-add_poller now (record s { overlay = true; manager = started.state }) h)

  IsPolled-node_install_answered :
      (installed : Bool) (sys : System) (now : ℕ) (s : PollState)
      → IsPolled s
      → IsPolled (node_install_answered installed sys now s)
  unfolding node_install_answered
  IsPolled-node_install_answered true sys now s h =
      IsPolled-add_poller now
        (record s {
          node_installing = false;
          overlay = true;
          manager = (start sys (s.manager)).state;
          server_ready = false;
        })
        (h.checked_once)
  IsPolled-node_install_answered false sys now s h = record {
    polled = h.polled;
    checked_once = h.checked_once;
  }

  IsPolled-restart_server :
      (sys : System) (now : ℕ) (s : PollState) → IsPolled s → IsPolled (restart_server sys now s)
  unfolding restart_server
  IsPolled-restart_server sys now s h =
      IsPolled-add_poller now
        (record s { manager = (start sys (stop (s.manager)).0).state; server_ready = false })
        (h.checked_once)

  -- In every state that the window can reach, a poll timer is pending if the window waits for the server;
  -- and the update check was started once if the window remembers that it was, and not at all if not.
  pub IsPolled-Reachable :
      {sys : System} {now : ℕ} {m : Manager} {s : PollState} → Reachable sys now m s → IsPolled s
  unfolding accept_update
  IsPolled-Reachable {sys} {now} {m} opened =
      IsPolled-start_server_and_poll sys now (new_window m) refl
  IsPolled-Reachable (stepped r (ticked t s there)) =
      IsPolled-tick_poller t s (IsPolled-Reachable r)
  IsPolled-Reachable (stepped r (restarted sys now s)) =
      IsPolled-restart_server sys now s (IsPolled-Reachable r)
  IsPolled-Reachable (stepped r (updated home names sys now s)) =
      IsPolled-restart_server sys now s (IsPolled-Reachable r)
  IsPolled-Reachable (stepped r (answered installed sys now s installing)) =
      IsPolled-node_install_answered installed sys now s (IsPolled-Reachable r)
  IsPolled-Reachable (stepped r (exited s)) =
      let h = IsPolled-Reachable r in record { polled = h.polled; checked_once = h.checked_once }
