-- ===== src/Window/Polling.antt =====
-- The life cycle of the server as the main window drives it (linux/src/main_window.cpp).
use harness_desktop.Base.{
  ℕ, ◌+◌, ◌-◌, Bool, true, false, not, ◌||◌, ◌==◌, List, [], ◌∷◌, ◌++◌, Option, none, some, Bytes,
  codes, ltb, if◌then◌else◌,
}
use harness_desktop.NodeRuntime.{runtime_available}
use harness_desktop.Server.{Manager, System, start, stop}
use harness_desktop.Window.Logs.{LogFile, LogView, drain_server_logs}
use harness_desktop.Window.Navigation.{navigate_with_auth}

-- The members of the window that the life cycle uses, with what is pending in the main loop: the poll
-- timers, the grace timers, the update checks that were started, and the errors that were shown.
pub record PollState : Type 0 where
  pub manager : Manager
  pub logs : LogView
  pub server_ready : Bool
  pub update_checked : Bool
  pub node_installing : Bool
  pub poll_started : ℕ
  pub pollers : ℕ
  pub grace_timers : ℕ
  pub checks : ℕ
  pub overlay : Bool
  pub hint : Bool
  pub page : Option Bytes
  pub errors : ℕ

-- What a poll finds: the log files, the clock before and behind its draining, whether the port
-- answers, and whether a runtime is there.
pub record Tick : Type 0 where
  pub out_file : LogFile
  pub err_file : LogFile
  pub now : ℕ
  pub later : ℕ
  pub answers : Bool
  pub runtime : Bool

-- `pollStartedUs_ = ...; g_timeout_add(250, OnPollServer, this);`
unfoldable pub add_poller : ℕ → PollState → PollState
add_poller now s = record s { poll_started = now; pollers = s.pollers + 1 }

-- StartNodeAutoInstall up to its dialog
unfoldable pub start_node_auto_install : PollState → PollState
start_node_auto_install s = if s.node_installing then s else record s { node_installing = true }

-- OnServerFailed
unfoldable pub on_server_failed : Bool → PollState → PollState
unfolding start_node_auto_install
on_server_failed runtime s =
    let stopped = record s { server_ready = true; overlay = false } in
    if not runtime
    then start_node_auto_install stopped
    else record stopped { errors = s.errors + 1 }

-- StartServerAndPoll; `sys` is the system that Start asks.
unfoldable pub start_server_and_poll : System → ℕ → PollState → PollState
unfolding start runtime_available on_server_failed add_poller
start_server_and_poll sys now s =
    let started = start sys (s.manager) in
    let shown = record s { overlay = true; manager = started.state } in
    if not (started.returned)
    then on_server_failed (runtime_available (sys.machine) (started.path_set)) shown
    else add_poller now shown

-- StartNodeAutoInstall behind its dialog: did it end with GTK_RESPONSE_OK?
unfoldable pub node_install_answered : Bool → System → ℕ → PollState → PollState
unfolding start add_poller
node_install_answered installed sys now s =
    let over = record s { node_installing = false } in
    if installed
    then add_poller now (record over {
      overlay = true;
      manager = (start sys (s.manager)).state;
      server_ready = false;
    })
    else record over { errors = s.errors + 1 }

-- RestartServer, and what CheckForUpdatesThread does when the update is accepted
unfoldable pub restart_server : System → ℕ → PollState → PollState
unfolding stop start add_poller
restart_server sys now s =
    add_poller now
      (record s { manager = (start sys (stop (s.manager)).0).state; server_ready = false })

-- the directories of the npx cache that an accepted update removes, for the names in ~/.npm/_npx
unfoldable pub cached_packages : Bytes → List Bytes → List Bytes
cached_packages home [] = []
cached_packages home (name ∷ names) =
    (home ++ (codes "/.npm/_npx" ++ (b'/' ∷ (name ++ codes "/node_modules/@deepseek-ai/dsh"))))
    ∷ cached_packages home names

-- What CheckForUpdatesThread does when the update is accepted, for $HOME and the names in its npx
-- cache: the directories that it removes, and the restart.
abbrev removed_caches : Option Bytes → List Bytes → List Bytes
removed_caches none names = []
removed_caches (some home) names = cached_packages home names

unfoldable pub accept_update :
    Option Bytes → List Bytes → System → ℕ → PollState → PollState × List Bytes
unfolding restart_server cached_packages
accept_update home names sys now s = (restart_server sys now s, removed_caches home names)

module _ (host : Bytes) where
  unfoldable pub navigated : Option Bytes → PollState → PollState
  navigated none s = record s { grace_timers = s.grace_timers + 1 }
  navigated (some url) s = record s { page = some url }

  -- NavigateToDshWithAuth
  unfoldable pub navigate_to_dsh_with_auth : PollState → PollState
  unfolding navigated navigate_with_auth
  navigate_to_dsh_with_auth s =
      navigated
        (navigate_with_auth host (s.manager.active_port) (not (s.manager.child_pid == 0))
          (s.logs.auth_url))
        s

  -- OnServerReady
  unfoldable pub on_server_ready : PollState → PollState
  unfolding navigate_to_dsh_with_auth
  on_server_ready s =
      let shown = navigate_to_dsh_with_auth (record s { server_ready = true }) in
      if not (s.update_checked)
      then record shown { update_checked = true; checks = s.checks + 1 }
      else shown

  -- the part of OnPollServer behind the draining: is the timer kept, and the state
  unfoldable pub poll_drained : Tick → PollState → Bool × PollState
  unfolding on_server_failed on_server_ready
  poll_drained t s =
      let elapsed = t.later - s.poll_started in
      if ltb 180000000 elapsed
      then (false, on_server_failed (t.runtime) s)
      else if t.answers
      then (false, on_server_ready s)
      else (true, record s { hint = s.hint || ltb 30000000 elapsed })

  unfoldable pub after_drain : Tick → PollState → PollState
  unfolding drain_server_logs
  after_drain t s =
      let (grew, logs) = drain_server_logs (t.out_file) (t.err_file) (s.logs) in
      record s { logs = logs; poll_started = if grew then t.now else s.poll_started }

  -- OnPollServer
  unfoldable pub on_poll_server : Tick → PollState → Bool × PollState
  unfolding poll_drained after_drain on_server_failed
  on_poll_server t s =
      if s.server_ready
      then (false, s)
      else if not (s.manager.running)
      then (false, on_server_failed (t.runtime) s)
      else poll_drained t (after_drain t s)

  -- A timer that returns G_SOURCE_REMOVE is gone.
  unfoldable pub tick_poller : Tick → PollState → PollState
  tick_poller t s =
      let (kept, polled) = on_poll_server t s in
      if kept then polled else record polled { pollers = polled.pollers - 1 }
