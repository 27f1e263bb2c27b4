-- ===== src/Server/World.antt =====
-- The steps of the shell on its server manager (linux/src/server_manager.cpp), with the server
-- processes that are there.
use harness_desktop.Base.{
  ℕ, ◌<◌, ◌≡◌, true, ◌||◌, ◌==◌, List, [], ◌∷◌, Option, none, some, if◌then◌else◌,
}
use harness_desktop.Settings.{Settings}
use harness_desktop.Server.{
  Manager, start_state, Effect, empties, spawns, terminates, kills, sleeps, System, initialize,
  on_child_exited, start, stop,
}

-- The module and the server processes that it started and that neither exited nor were killed.
pub record World : Type 0 where
  pub manager : Manager
  pub children : List ℕ

abbrev pub without : ℕ → List ℕ → List ℕ
without p [] = []
without p (q ∷ qs) = if q == p then without p qs else q ∷ without p qs

-- SIGTERM may be ignored, SIGKILL is not.
abbrev pub perform : Option ℕ → List Effect → List ℕ → List ℕ
perform pid [] cs = cs
perform none (spawns e a o r ∷ es) cs = perform none es cs
perform (some p) (spawns e a o r ∷ es) cs = perform (some p) es (p ∷ cs)
perform pid (kills p ∷ es) cs = perform pid es (without p cs)
perform pid (empties f ∷ es) cs = perform pid es cs
perform pid (terminates p ∷ es) cs = perform pid es cs
perform pid (sleeps ∷ es) cs = perform pid es cs

abbrev pub after_start : System → World → World
after_start sys w =
    let started = start sys (w.manager) in
    record { manager = started.state; children = perform (sys.fork) (started.effects) (w.children) }

abbrev pub after_stop : World → World
after_stop w = record {
  manager = (stop (w.manager)).0;
  children = perform none (stop (w.manager)).1 (w.children);
}

-- fork returns a process id, and g_child_watch_add a source id: both are positive.
pub record IsSystem (sys : System) : Type 0 where
  pub pid_positive : (p : ℕ) → sys.fork ≡ some p → 0 < p
  pub watch_positive : 0 < sys.watch_id

-- What may happen: the calls of the shell, and the main loop's call of OnChildExited, which needs a
-- watch.
pub data Step : World → World → Type 0 where
  initialized :
      (s : Settings) (w : World)
      → s.port < 65536
      → Step w (record w { manager = initialize s (w.manager) })
  started : (sys : System) (w : World) → IsSystem sys → Step w (after_start sys w)
  stopped : (w : World) → Step w (after_stop w)
  exited :
      (w : World)
      → 0 < w.manager.child_watch
      → Step w (record {
        manager = on_child_exited (w.manager);
        children = without (w.manager.child_pid) (w.children);
      })

abbrev pub start_world : World
start_world = record { manager = start_state; children = [] }

pub data Reachable : World → Type 0 where
  at_start : Reachable start_world
  behind : {v w : World} → Reachable v → Step v w → Reachable w

abbrev pub ConfiguredPort : Option Settings → Type 0
ConfiguredPort none = Unit
ConfiguredPort (some s) = s.port < 65536

-- The process that the module records is the only server process, and it is recorded only while the
-- server counts as running, with a watch.
pub record IsConsistent (w : World) : Type 0 where
  pub children_recorded :
      w.children ≡ (if w.manager.child_pid == 0 then [] else w.manager.child_pid ∷ [])
  pub runs : (w.manager.child_pid == 0 || w.manager.running) ≡ true
  pub watched : (w.manager.child_pid == 0) ≡ (w.manager.child_watch == 0)
  pub port_fits : w.manager.active_port < 65536
  pub settings_fit : ConfiguredPort (w.manager.settings)
