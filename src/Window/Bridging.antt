-- ===== src/Window/Bridging.antt =====
-- The steps of the main window on its relay bridge (linux/src/main_window.cpp), with the bridge
-- processes that are there.
use harness_desktop.Base.{
  ℕ, ◌<◌, ◌≡◌, Bool, true, false, not, ◌||◌, ◌==◌, List, [], ◌∷◌, Option, none, some, Bytes,
  if◌then◌else◌,
}
use harness_desktop.Window.Bridge.{
  Bridge, Effect, shows_pairing, shows_error, asks_settings, terminates, spawns, on_bridge_output,
  on_bridge_exit, Launch, on_mobile_remote_activate, on_register_timeout,
}

-- The bridge, and its processes that were started and that no child watch reported yet.
pub record World : Type 0 where
  pub bridge : Bridge
  pub processes : List ℕ

abbrev pub without : ℕ → List ℕ → List ℕ
without p [] = []
without p (q ∷ qs) = if q == p then without p qs else q ∷ without p qs

abbrev pub has : ℕ → List ℕ → Bool
has p [] = false
has p (q ∷ qs) = q == p || has p qs

-- SIGTERM may be ignored.
abbrev pub perform : Option ℕ → List Effect → List ℕ → List ℕ
perform pid [] ps = ps
perform none (spawns command ∷ es) ps = perform none es ps
perform (some p) (spawns command ∷ es) ps = perform (some p) es (p ∷ ps)
perform pid (shows_pairing pin id png ∷ es) ps = perform pid es ps
perform pid (shows_error ∷ es) ps = perform pid es ps
perform pid (asks_settings ∷ es) ps = perform pid es ps
perform pid (terminates p ∷ es) ps = perform pid es ps

abbrev pub behind : Option ℕ → World → Bridge × List Effect → World
behind pid w r = record { bridge = r.0; processes = perform pid r.1 (w.processes) }

abbrev pub start_bridge : Bridge
start_bridge = record {
  pid = 0;
  buffer = [];
  registered = false;
  timeout_id = 0;
  device_id = [];
  qr_png = [];
  timers = [];
  token = [];
}

abbrev pub start_world : World
start_world = record { bridge = start_bridge; processes = [] }

-- a process id is positive
abbrev pub IsPid : Option ℕ → Type 0
IsPid pid = (p : ℕ) → pid ≡ some p → 0 < p

abbrev pub after_activate : Launch → (Bytes → Bytes) → Bytes → Bytes → Bytes → ℕ → World → World
after_activate l draw relay id lan timer w =
    behind (l.spawned) w (on_mobile_remote_activate l draw relay id lan timer (w.bridge))

abbrev pub after_output : Bytes → Bytes → World → World
after_output pin chunk w = behind none w (on_bridge_output pin chunk (w.bridge))

abbrev pub after_exit : ℕ → World → World
after_exit p w = record {
  bridge = on_bridge_exit p (w.bridge);
  processes = without p (w.processes);
}

abbrev pub after_timeout : ℕ → World → World
after_timeout id w = behind none w (on_register_timeout id (w.bridge))

-- What may happen: the menu item, a read from the bridge, the end of a process that the child watch
-- reports, and a registration timer that is pending.
pub data Step : World → World → Type 0 where
  activated :
      (l : Launch) (draw : Bytes → Bytes) (relay id lan : Bytes) (timer : ℕ) (w : World)
      → IsPid (l.spawned)
      → Step w (after_activate l draw relay id lan timer w)
  read : (pin chunk : Bytes) (w : World) → Step w (after_output pin chunk w)
  exited : (p : ℕ) (w : World) → has p (w.processes) ≡ true → Step w (after_exit p w)
  fired : (id : ℕ) (w : World) → has id (w.bridge.timers) ≡ true → Step w (after_timeout id w)

pub data Reachable : World → Type 0 where
  at_start : Reachable start_world
  then_step : {v w : World} → Reachable v → Step v w → Reachable w

-- The process that the window records is the only bridge process, and a bridge that registered has no
-- timer of its own left.
pub record IsBridged (w : World) : Type 0 where
  pub recorded : w.processes ≡ (if w.bridge.pid == 0 then [] else w.bridge.pid ∷ [])
  pub settled : (not (w.bridge.registered) || w.bridge.timeout_id == 0) ≡ true
