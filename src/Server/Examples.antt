-- ===== src/Server/Examples.antt =====
-- The theorems on linux/src/server_manager.cpp at concrete inputs.
use harness_desktop.Base.{
  ◌≡◌, refl, true, false, ◌==◌, ◌||◌, List, [], ◌∷◌, ◌++◌, Bytes, codes, some, none, arith,
}
use harness_desktop.Base.Decimal.{decimal}
use harness_desktop.Settings.{default_settings}
use harness_desktop.NodeRuntime.{Machine, runtime_available, ensure_on_path}
use harness_desktop.Server.{Manager, start_state, System, initialize, start, command_line}
use harness_desktop.Server.Port.{Network, resolve_port, is_dsh_response}
use harness_desktop.Server.Ports.{Resolved, Resolved-resolve_port}
use harness_desktop.Server.World.{
  World, start_world, after_start, after_stop, IsSystem, initialized, started, Reachable, at_start,
  behind, IsConsistent,
}
use harness_desktop.Server.Lifetime.{IsConsistent-Reachable, children-after_stop}
use harness_desktop.Server.Spawning.{IsCommand, start-refused}

-- Something that is no dsh server listens on ports 3080 and 3081.
abbrev network : Network
network = record {
  listens = λ clock host port. port == 3080 || port == 3081;
  responds = λ clock url. some (record { status = 404; content_type = none });
}

resolve_port_run : resolve_port network default_settings ≡ (3082, 5)
unfolding resolve_port is_dsh_response
resolve_port_run = refl

Resolved-resolve_port_example :
    Resolved network default_settings (resolve_port network default_settings)
Resolved-resolve_port_example = Resolved-resolve_port network default_settings (omega arith)

abbrev machine : Machine
machine = record {
  localtime = none;
  timezone_file = [];
  uname = none;
  finds_program = λ path name. true;
  file_exists = λ path. false;
}

abbrev system : System
system = record {
  machine = machine;
  env = λ name. none;
  network = network;
  fork = some 4711;
  watch_id = 7;
}

system-IsSystem : IsSystem system
system-IsSystem = record { pid_positive = λ p e. ground arith; watch_positive = omega arith }

abbrev launched : World
launched =
    after_start system (record start_world { manager = initialize default_settings start_state })

launched-Reachable : Reachable launched
launched-Reachable =
    behind (behind at_start (initialized default_settings start_world (omega arith)))
      (started system _ system-IsSystem)

launched_child : launched.children ≡ 4711 ∷ []
unfolding initialize start resolve_port runtime_available
launched_child = refl

IsConsistent-Reachable_example : IsConsistent launched
IsConsistent-Reachable_example = IsConsistent-Reachable launched-Reachable

children-after_stop_example :
    ((after_stop launched).children ≡ [])
    × ((after_stop launched).manager
        ≡ record (launched.manager) { child_pid = 0; child_watch = 0; running = false })
children-after_stop_example = children-after_stop launched-Reachable

abbrev ready : Manager
ready = record start_state { settings = some default_settings }

abbrev launch_command : List Bytes
launch_command =
    default_settings.command
    ++ (codes "--host" ∷ codes "127.0.0.1" ∷ codes "--port" ∷ codes "3082" ∷ codes "--no-open" ∷ [])

start-refused_example :
    (ready.running ≡ false)
    × (runtime_available machine (ensure_on_path machine λ name. none) ≡ true)
    × (network.listens
          (resolve_port network default_settings).1
          (default_settings.host)
          ((start system ready).state.active_port)
        ≡ false)
    × IsCommand default_settings ((start system ready).state.active_port) launch_command
start-refused_example =
    start-refused system ready default_settings launch_command refl
      (unfold start resolve_port runtime_available command_line decimal in refl)
