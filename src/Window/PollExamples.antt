-- ===== src/Window/PollExamples.antt =====
-- The theorems on the polls of linux/src/main_window.cpp at concrete inputs.
use harness_desktop.Base.{◌<◌, ◌≡◌, refl, true, false, [], none, some, codes, arith}
use harness_desktop.Settings.{default_settings}
use harness_desktop.NodeRuntime.{Machine}
use harness_desktop.Server.{Manager, System}
use harness_desktop.Window.Logs.{LogFile}
use harness_desktop.Window.Polling.{
  PollState, Tick, add_poller, start_server_and_poll, restart_server, on_poll_server, tick_poller,
}
use harness_desktop.Window.Polls.{Polled, Polled-on_poll_server}
use harness_desktop.Window.Waiting.{
  IsPolled, Reachable, new_window, opened, stepped, ticked, restarted, IsPolled-Reachable,
}

abbrev machine : Machine
machine = record {
  localtime = none;
  timezone_file = [];
  uname = none;
  finds_program = λ path name. true;
  file_exists = λ path. false;
}

abbrev system : System
system = record {
  machine = machine;
  env = λ name. none;
  network = record { listens = λ clock host port. false; responds = λ clock url. none };
  fork = some 4711;
  watch_id = 7;
}

abbrev running : Manager
running = record {
  settings = some default_settings;
  active_port = 3080;
  child_pid = 4711;
  child_watch = 7;
  running = true;
}

abbrev no_log : LogFile
no_log = record { size = none; contents = none }

abbrev tick : Tick
tick = record {
  out_file = no_log;
  err_file = no_log;
  now = 250000;
  later = 250001;
  answers = false;
  runtime = true;
}

abbrev waiting : PollState
waiting = add_poller 0 (new_window (codes "127.0.0.1") running)

Polled-on_poll_server_example :
    Polled
      (codes "127.0.0.1")
      tick
      waiting
      (on_poll_server (codes "127.0.0.1") tick waiting).1
      (on_poll_server (codes "127.0.0.1") tick waiting).0
Polled-on_poll_server_example = Polled-on_poll_server (codes "127.0.0.1") tick waiting

waiting_kept : (on_poll_server (codes "127.0.0.1") tick waiting).0 ≡ true
unfolding add_poller on_poll_server
waiting_kept = refl

abbrev again : PollState
again =
    restart_server system 9
      (start_server_and_poll system 0 (new_window (codes "127.0.0.1") running))

again_polls : 0 < again.pollers
unfolding restart_server add_poller
again_polls = omega arith

again-Reachable : Reachable (codes "127.0.0.1") system 0 running again
again-Reachable = stepped opened (restarted system 9 _)

IsPolled-Reachable_example : IsPolled (tick_poller (codes "127.0.0.1") tick again)
IsPolled-Reachable_example =
    IsPolled-Reachable (codes "127.0.0.1") (stepped again-Reachable (ticked tick again again_polls))
