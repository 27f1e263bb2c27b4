-- ===== src/Server/Lifetime.antt =====
-- The server processes over the lifetime of the shell (linux/src/server_manager.cpp).
use harness_desktop.Base.{
  ℕ, ◌<◌, ◌≡◌, refl, ◌∙◌, subst, length, ◌≤◌, Bool, true, false, not, ◌||◌, ◌==◌, List, [], ◌∷◌,
  Option, none, some, if◌then◌else◌, Bool-cases, Option-cases, inl, inr, arith,
}
use harness_desktop.Settings.{Settings}
use harness_desktop.NodeRuntime.{Environment, runtime_available, ensure_on_path}
use harness_desktop.Server.{
  Manager, System, initialize, on_child_exited, start, start_server, spawn_child, stop, wait_loop,
}
use harness_desktop.Server.Port.{resolve_port}
use harness_desktop.Server.Ports.{Resolved-resolve_port, Resolved-fits}
use harness_desktop.Server.World.{
  World, without, perform, after_start, after_stop, IsSystem, initialized, started, stopped, exited,
  Reachable, at_start, behind, IsConsistent,
}

without_self : (p : ℕ) → without p (p ∷ []) ≡ []
without_self p = ground arith

without-recorded : (p : ℕ) (cs : List ℕ) → cs ≡ (if p == 0 then [] else p ∷ []) → without p cs ≡ []
without-recorded p cs h =
    rw h (elim (Bool-cases (p == 0)) [ inl e ↦ rw e refl | inr e ↦ rw e (without_self p) ])

IsConsistent-exited :
    (w : World)
    → IsConsistent w
    → IsConsistent (record {
      manager = on_child_exited (w.manager);
      children = without (w.manager.child_pid) (w.children);
    })
unfolding on_child_exited
IsConsistent-exited w c = record {
  children_recorded = without-recorded (w.manager.child_pid) (w.children) (c.children_recorded);
  runs = refl;
  watched = refl;
  port_fits = c.port_fits;
  settings_fit = c.settings_fit;
}

-- Stop leaves no process, whatever it found.
perform-stop :
    (m : Manager) (cs : List ℕ)
    → cs ≡ (if m.child_pid == 0 then [] else m.child_pid ∷ [])
    → (m.child_pid == 0 || m.running) ≡ true
    → perform none (stop m).1 cs ≡ []
unfolding stop wait_loop
perform-stop m cs h r = elim (Bool-cases (m.running)) [
  | inl e ↦ elim (Bool-cases (m.child_pid == 0)) [
    | inl z ↦ rw (e, z) (h ∙ rw z refl)
    | inr z ↦ rw (e, z) (without-recorded (m.child_pid) cs h)
  ]
  | inr e ↦ let z : (m.child_pid == 0) ≡ true = ground arith in rw e (h ∙ rw z refl)
]

stop-cleared :
    (m : Manager) → (stop m).0 ≡ record m { child_pid = 0; child_watch = 0; running = false }
unfolding stop
stop-cleared m = elim (Bool-cases (not (m.running) || m.child_pid == 0)) [
  | inl e ↦ rw e refl
  | inr e ↦ rw e refl
]

IsConsistent-after_stop : (w : World) → IsConsistent w → IsConsistent (after_stop w)
IsConsistent-after_stop w c = rw (stop-cleared (w.manager)) (record {
  children_recorded = perform-stop (w.manager) (w.children) (c.children_recorded) (c.runs);
  runs = refl;
  watched = refl;
  port_fits = c.port_fits;
  settings_fit = c.settings_fit;
})

idle-child_pid :
    {w : World} → IsConsistent w → w.manager.running ≡ false → (w.manager.child_pid == 0) ≡ true
idle-child_pid c r = let runs = c.runs in ground arith

module _ (sys : System) (h : IsSystem sys) where
  IsConsistent-spawn_child :
      (s : Settings) (env : Environment) (m : Manager) (cs : List ℕ)
      → IsConsistent (record { manager = m; children = cs })
      → m.running ≡ false
      → IsConsistent (record {
        manager = (spawn_child sys s env m).state;
        children = perform (sys.fork) (spawn_child sys s env m).effects cs;
      })
  unfolding spawn_child
  IsConsistent-spawn_child s env m cs c r = elim (Option-cases (sys.fork)) [
    | inl e ↦ rw e c
    | inr (p, e) ↦
        let positive = h.pid_positive p e in
        let watch = h.watch_positive in
        let idle = idle-child_pid c r in
        rw e (record {
          children_recorded = rw (c.children_recorded) (rw idle (ground arith));
          runs = ground arith;
          watched = ground arith;
          port_fits = c.port_fits;
          settings_fit = c.settings_fit;
        })
  ]

  IsConsistent-start_server :
      (s : Settings) (env : Environment) (w : World)
      → IsConsistent w
      → w.manager.running ≡ false
      → s.port < 65536
      → IsConsistent (record {
        manager = (start_server sys s env (w.manager)).state;
        children = perform (sys.fork) (start_server sys s env (w.manager)).effects (w.children);
      })
  unfolding start_server
  IsConsistent-start_server s env w c r fits =
      let (port, clock) = resolve_port (sys.network) s in
      let port_fits : port < 65536 =
        Resolved-fits (sys.network) s fits (Resolved-resolve_port (sys.network) s fits) in
      elim (Bool-cases (sys.network.listens clock (s.host) port)) [
        | inl e ↦ rw e (record {
          children_recorded = c.children_recorded;
          runs = ground arith;
          watched = c.watched;
          port_fits = port_fits;
          settings_fit = c.settings_fit;
        })
        | inr e ↦ rw e (
            IsConsistent-spawn_child s env (record (w.manager) { active_port = port }) (w.children)
              (record {
                children_recorded = c.children_recorded;
                runs = c.runs;
                watched = c.watched;
                port_fits = port_fits;
                settings_fit = c.settings_fit;
              })
              r)
      ]

  -- the world with its settings and `running` written out
  abbrev written : World → Option Settings × Bool → World
  written w (o, b) = record {
    manager = record (w.manager) { settings = o; running = b };
    children = w.children;
  }

  IsConsistent-written :
      (w : World) {o : Option Settings} {b : Bool}
      → IsConsistent w
      → w.manager.settings ≡ o
      → w.manager.running ≡ b
      → IsConsistent (written w (o, b))
  IsConsistent-written w c e r = subst (λ x. IsConsistent (written w x)) (λ i. (e i, r i)) c

  IsConsistent-after_start : (w : World) → IsConsistent w → IsConsistent (after_start sys w)
  unfolding start start_server
  IsConsistent-after_start w c = elim (Option-cases (w.manager.settings)) [
    | inl e ↦ rw e (IsConsistent-written w c e refl)
    | inr (s, e) ↦ elim (Bool-cases (w.manager.running)) [
      | inl r ↦ rw (e, r) (IsConsistent-written w c e r)
      | inr r ↦
          let env = ensure_on_path (sys.machine) (sys.env) in
          let known = IsConsistent-written w c e r in
          elim (Bool-cases (runtime_available (sys.machine) env)) [
            | inl a ↦
                rw (e, r, a)
                  (IsConsistent-start_server s env (written w (some s, false)) known refl
                    (known.settings_fit))
            | inr a ↦ rw (e, r, a) known
          ]
    ]
  ]

-- However Initialize, Start and Stop are called and children exit, the module records the only
-- server process that it started and that is still there, together with a watch and as running.
pub IsConsistent-Reachable : {w : World} → Reachable w → IsConsistent w
unfolding initialize
IsConsistent-Reachable at_start = record {
  children_recorded = refl;
  runs = refl;
  watched = refl;
  port_fits = omega arith;
  settings_fit = tt;
}
IsConsistent-Reachable (behind r (initialized s w fits)) =
    let c = IsConsistent-Reachable r in
    record {
      children_recorded = c.children_recorded;
      runs = c.runs;
      watched = c.watched;
      port_fits = omega arith;
      settings_fit = fits;
    }
IsConsistent-Reachable (behind r (started sys w h)) =
    IsConsistent-after_start sys h w (IsConsistent-Reachable r)
IsConsistent-Reachable (behind r (stopped w)) = IsConsistent-after_stop w (IsConsistent-Reachable r)
IsConsistent-Reachable (behind r (exited w watch)) =
    IsConsistent-exited w (IsConsistent-Reachable r)

-- Stop leaves no server process, and the module without a process, without a watch and not running, with
-- its settings and its port as they were, in every state that can be reached.
pub children-after_stop :
    {w : World}
    → Reachable w
    → ((after_stop w).children ≡ [])
      × ((after_stop w).manager
          ≡ record (w.manager) { child_pid = 0; child_watch = 0; running = false })
children-after_stop {w} r =
    let c = IsConsistent-Reachable r in
    (perform-stop (w.manager) (w.children) (c.children_recorded) (c.runs), stop-cleared (w.manager))

-- At most one server process is there at any time.
pub length-children : {w : World} → Reachable w → length (w.children) ≤ 1
length-children {w} r =
    let c = IsConsistent-Reachable r in
    rw (c.children_recorded) (elim (Bool-cases (w.manager.child_pid == 0)) [
      | inl e ↦ rw e (omega arith)
      | inr e ↦ rw e (omega arith)
    ])
