-- ===== src/Server/Spawning.antt =====
-- When Start (linux/src/server_manager.cpp) starts a server process.
use harness_desktop.Base.{
  ℕ, ◌≡◌, refl, sym, ◌∙◌, ◌⊎◌, true, false, List, [], ◌∷◌, ◌++◌, Option, none, some, Bytes, codes,
  Bool-cases, Option-cases, inl, inr,
}
use harness_desktop.Base.Decimal.{decimal}
use harness_desktop.Settings.{Settings}
use harness_desktop.NodeRuntime.{Environment, runtime_available, ensure_on_path}
use harness_desktop.Server.{
  Manager, Effect, spawns, System, start, start_server, spawn_child, command_line,
}
use harness_desktop.Server.Port.{resolve_port}

-- the arguments of the process that the effects start, if they start one
abbrev pub spawned_command : List Effect → Option (List Bytes)
spawned_command [] = none
spawned_command (spawns e a o r ∷ es) = some a
spawned_command (_ ∷ es) = spawned_command es

-- A command that the user configured is taken as it is; the default one is told the host and the port.
abbrev pub IsCommand : Settings → ℕ → List Bytes → Type 0
IsCommand s port command =
    ((s.custom_command ≡ true) × (command ≡ s.command))
    ⊎ ((s.custom_command ≡ false)
        × (command
            ≡ s.command
              ++ (codes "--host"
                  ∷ s.host
                  ∷ codes "--port"
                  ∷ decimal port
                  ∷ codes "--no-open"
                  ∷ [])))

IsCommand-command_line :
    (s : Settings) (port : ℕ) (command : List Bytes)
    → command_line s port ≡ command
    → IsCommand s port command
unfolding command_line
IsCommand-command_line s port command h = elim (Bool-cases (s.custom_command)) [
  | inl c ↦ inl (c, sym h ∙ rw c refl)
  | inr c ↦ inr (c, sym h ∙ rw c refl)
]

module _ (sys : System) where
  spawn_child-active_port :
      (s : Settings) (env : Environment) (m : Manager)
      → (spawn_child sys s env m).state.active_port ≡ m.active_port
  unfolding spawn_child
  spawn_child-active_port s env m = elim (Option-cases (sys.fork)) [
    | inl e ↦ rw e refl
    | inr (p, e) ↦ rw e refl
  ]

  spawn_child-IsCommand :
      (s : Settings) (env : Environment) (m : Manager) (command : List Bytes)
      → spawned_command (spawn_child sys s env m).effects ≡ some command
      → IsCommand s (m.active_port) command
  unfolding spawn_child
  spawn_child-IsCommand s env m command = elim (Option-cases (sys.fork)) [
    | inl e ↦ rw e λ h. cc
    | inr (p, e) ↦ rw e λ h. IsCommand-command_line s (m.active_port) command (cc)
  ]

  -- Start starts a process only if the server did not count as running, a runtime is found, and the last
  -- probe of the active port was refused; and a process of the default command is told the host of the
  -- settings and that port, while a command that the user configured is run as it is.
  pub start-refused :
      (m : Manager) (s : Settings) (command : List Bytes)
      → m.settings ≡ some s
      → spawned_command (start sys m).effects ≡ some command
      → (m.running ≡ false)
        × (runtime_available (sys.machine) (ensure_on_path (sys.machine) (sys.env)) ≡ true)
        × (sys.network.listens
              (resolve_port (sys.network) s).1
              (s.host)
              ((start sys m).state.active_port)
            ≡ false)
        × IsCommand s ((start sys m).state.active_port) command
  unfolding start start_server
  start-refused m s command e =
      let env = ensure_on_path (sys.machine) (sys.env) in
      let (port, clock) = resolve_port (sys.network) s in
      elim (Bool-cases (m.running)) [
        | inl r ↦ rw (e, r) λ h. cc
        | inr r ↦ elim (Bool-cases (runtime_available (sys.machine) env)) [
          | inl a ↦ elim (Bool-cases (sys.network.listens clock (s.host) port)) [
            | inl b ↦ rw (e, r, a, b) λ h. cc
            | inr b ↦
                let n = record m { settings = some s; active_port = port; running = false } in
                let same = spawn_child-active_port s env n in
                rw (e, r, a, b)
                  λ h. (refl, refl, rw same b, rw same (spawn_child-IsCommand s env n command h))
          ]
          | inr a ↦ rw (e, r, a) λ h. cc
        ]
      ]
