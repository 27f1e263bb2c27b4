-- ===== src/Server.antt =====
-- linux/src/server_manager.cpp: the state of the module and its operations.
pub mod Port
pub mod Ports
pub mod World
pub mod Lifetime
pub mod Spawning
mod Examples
use harness_desktop.Base.{
  ℕ, Bool, true, false, not, ◌&&◌, ◌||◌, ◌==◌, List, [], ◌∷◌, ◌++◌, Option, none, some, Bytes,
  codes, if◌then◌else◌, replicate,
}
use harness_desktop.Base.Decimal.{decimal}
use harness_desktop.Settings.{Settings}
use harness_desktop.Util.Dirs.{log_path, log_err_path}
use harness_desktop.NodeRuntime.{
  Machine, Environment, runtime_available, npm_registry_url, ensure_on_path,
}
use harness_desktop.Server.Port.{Network, resolve_port}

-- The variables of the module. A process id or a watch id of 0 is none.
pub record Manager : Type 0 where
  pub settings : Option Settings
  pub active_port : ℕ
  pub child_pid : ℕ
  pub child_watch : ℕ
  pub running : Bool

abbrev pub start_state : Manager
start_state = record {
  settings = none;
  active_port = 0;
  child_pid = 0;
  child_watch = 0;
  running = false;
}

-- What the operations do outside the module. `spawns` is fork with the child's part: its two
-- variables, its arguments and its log files.
pub data Effect : Type 0 where
  empties : Bytes → Effect
  spawns : List (Bytes × Bytes) → List Bytes → Bytes → Bytes → Effect
  terminates kills : ℕ → Effect
  sleeps : Effect

-- What Start asks the operating system: the machine, the environment, the network, the result of
-- fork in the parent (none is a failure) and the id of the child watch.
pub record System : Type 0 where
  pub machine : Machine
  pub env : Environment
  pub network : Network
  pub fork : Option ℕ
  pub watch_id : ℕ

-- Initialize
unfoldable pub initialize : Settings → Manager → Manager
initialize s m = record m { settings = some s; active_port = 0 }

-- OnChildExited
unfoldable pub on_child_exited : Manager → Manager
on_child_exited m = record m { child_pid = 0; child_watch = 0; running = false }

-- `cmd` of Start
unfoldable pub command_line : Settings → ℕ → List Bytes
command_line s port =
    if s.custom_command
    then s.command
    else s.command
      ++ (codes "--host" ∷ s.host ∷ codes "--port" ∷ decimal port ∷ codes "--no-open" ∷ [])

pub record Started : Type 0 where
  pub returned : Bool
  pub state : Manager
  pub path_set : Environment
  pub effects : List Effect

module _ (sys : System) where
  abbrev child_environment : Environment → List (Bytes × Bytes)
  child_environment env =
      (codes "npm_config_registry", npm_registry_url (sys.machine) env)
      ∷ (codes "npm_config_yes", codes "true")
      ∷ []

  -- Start behind the choice of the port: the logs are emptied, then fork.
  unfoldable pub spawn_child : Settings → Environment → Manager → Started
  unfolding command_line npm_registry_url log_path log_err_path
  spawn_child s env m =
      let emptied = empties (log_path env) ∷ empties (log_err_path env) ∷ [] in
      let child =
        spawns (child_environment env) (command_line s (m.active_port)) (log_path env)
          (log_err_path env) in
      elim (sys.fork) [
        | none ↦ record { returned = false; state = m; path_set = env; effects = emptied }
        | some pid ↦ record {
          returned = true;
          state = record m { child_pid = pid; child_watch = sys.watch_id; running = true };
          path_set = env;
          effects = emptied ++ (child ∷ []);
        }
      ]

  -- Start on settings, when nothing runs and the runtime is there. The probes are counted from 0.
  unfoldable pub start_server : Settings → Environment → Manager → Started
  unfolding spawn_child resolve_port
  start_server s env m =
      let (port, clock) = resolve_port (sys.network) s in
      let resolved = record m { active_port = port } in
      if sys.network.listens clock (s.host) port
      then record {
        returned = true;
        state = record resolved { running = true };
        path_set = env;
        effects = [];
      }
      else spawn_child s env resolved

  -- Start
  unfoldable pub start : Manager → Started
  unfolding start_server ensure_on_path runtime_available
  start m =
      let stays : Bool → Environment → Started =
        λ b env. record { returned = b; state = m; path_set = env; effects = [] } in
      elim (m.settings) [
        | none ↦ stays false (sys.env)
        | some s ↦
            let env = ensure_on_path (sys.machine) (sys.env) in
            if m.running
            then stays true (sys.env)
            else if runtime_available (sys.machine) env
            then start_server s env m
            else stays false env
      ]

-- The loop that waits while the server runs. Nothing in it runs the main loop, so the variable
-- `g_running` stays as it is.
unfoldable pub wait_loop : ℕ → Bool → List Effect
wait_loop rounds running = if running then replicate rounds sleeps else []

-- Stop
unfoldable pub stop : Manager → Manager × List Effect
unfolding wait_loop
stop m =
    let cleared = record m { child_pid = 0; child_watch = 0; running = false } in
    let killed = if m.running then kills (m.child_pid) ∷ [] else [] in
    if not (m.running) || m.child_pid == 0
    then (cleared, [])
    else (cleared, terminates (m.child_pid) ∷ (wait_loop 50 (m.running) ++ killed))
