-- ===== src/Window/Processes.antt =====
-- The bridge processes over the lifetime of the main window (linux/src/main_window.cpp).
use harness_desktop.Base.{
  ℕ, ◌≡◌, refl, sym, ◌∙◌, ap, subst, true, false, not, ◌||◌, ◌==◌, List, [], ◌∷◌, ◌++◌, Option,
  none, some, Bytes, is_empty, bytes_eq, codes, ltb, if◌then◌else◌, Bool-cases, inl, inr, if-elim,
  arith,
}
use harness_desktop.Window.Lines.{complete_lines}
use harness_desktop.Window.Bridge.{
  Bridge, Effect, shows_pairing, shows_error, asks_settings, terminates, spawns, field_of, register,
  keep_token, on_line, on_lines, c_string, on_bridge_output, on_bridge_exit, stop_mobile_bridge,
  Launch, bridge_command, launched, start_mobile_bridge, with_port, on_mobile_remote_activate,
  on_register_timeout,
}
use harness_desktop.Window.Relay.{pairing_qr_content}
use harness_desktop.Window.Bridging.{
  World, without, has, perform, behind, IsPid, after_activate, after_output, after_exit,
  after_timeout, activated, read, exited, fired, Reachable, at_start, then_step, IsBridged,
}

perform-none : (es : List Effect) (ps : List ℕ) → perform none es ps ≡ ps
perform-none [] ps = refl
perform-none (shows_pairing pin id png ∷ es) ps = perform-none es ps
perform-none (shows_error ∷ es) ps = perform-none es ps
perform-none (asks_settings ∷ es) ps = perform-none es ps
perform-none (terminates p ∷ es) ps = perform-none es ps
perform-none (spawns command ∷ es) ps = perform-none es ps

perform-stop_mobile_bridge :
    (pid : Option ℕ) (b : Bridge) (ps : List ℕ) → perform pid (stop_mobile_bridge b) ps ≡ ps
unfolding stop_mobile_bridge
perform-stop_mobile_bridge pid b ps =
    if-elim (λ (es : List Effect). perform pid es ps ≡ ps) (ltb 0 (b.pid)) (λ e. refl) (λ e. refl)

abbrev IsSettled : Bridge → Type 0
IsSettled b = (not (b.registered) || b.timeout_id == 0) ≡ true

-- The same process is recorded, and nothing is left open that was not.
abbrev Keeps : Bridge → Bridge → Type 0
Keeps b c = (c.pid ≡ b.pid) × (IsSettled b → IsSettled c)

Keeps-register : (b : Bridge) → Keeps b (register b)
unfolding register
Keeps-register b =
    if-elim (Keeps b) (ltb 0 (b.timeout_id)) (λ e. (refl, λ h. refl)) λ e. (refl, λ h. ground arith)

Keeps-keep_token : (token : Bytes) (b c : Bridge) → Keeps b c → Keeps b (keep_token token c)
unfolding keep_token
Keeps-keep_token token b c k = if-elim (Keeps b) (not (is_empty token)) (λ e. k) (λ e. k)

Keeps-on_line : (pin line : Bytes) (b : Bridge) → Keeps b (on_line pin line b).0
unfolding on_line
Keeps-on_line pin line b =
    let event = field_of line (codes "event") in
    let keeps = λ (r : Bridge × List Effect). Keeps b r.0 in
    if-elim keeps (is_empty line) (λ e. (refl, λ h. h))
      λ e.
        if-elim keeps (bytes_eq event (codes "registered"))
          (λ r.
            Keeps-keep_token (field_of line (codes "hostToken")) b (register b) (Keeps-register b))
          λ r.
            if-elim keeps (bytes_eq event (codes "online")) (λ o. Keeps-register b)
              λ o. (refl, λ h. h)

Keeps-on_lines : (pin : Bytes) (ls : List Bytes) (b : Bridge) → Keeps b (on_lines pin ls b).0
unfolding on_lines
Keeps-on_lines pin [] b = (refl, λ h. h)
Keeps-on_lines pin (l ∷ ls) b =
    let first = Keeps-on_line pin l b in
    let others = Keeps-on_lines pin ls (on_line pin l b).0 in
    (others.0 ∙ first.0, λ h. others.1 (first.1 h))

Keeps-on_bridge_output : (pin chunk : Bytes) (b : Bridge) → Keeps b (on_bridge_output pin chunk b).0
unfolding on_bridge_output
Keeps-on_bridge_output pin chunk b =
    let r = complete_lines [] (b.buffer ++ c_string chunk) in
    Keeps-on_lines pin r.0 (record b { buffer = r.1 })

Keeps-on_register_timeout : (id : ℕ) (b : Bridge) → Keeps b (on_register_timeout id b).0
unfolding on_register_timeout
Keeps-on_register_timeout id b =
    if-elim (λ (r : Bridge × List Effect). Keeps b r.0) (b.registered) (λ e. (refl, λ s. s))
      λ e. (refl, λ s. s)

-- Effects that spawn nothing, behind which the same process is recorded.
IsBridged-Keeps :
    (pid : Option ℕ) (w : World) (r : Bridge × List Effect)
    → Keeps (w.bridge) r.0
    → perform pid r.1 (w.processes) ≡ w.processes
    → IsBridged w
    → IsBridged (behind pid w r)
IsBridged-Keeps pid w r k same h = record {
  recorded = same ∙ (h.recorded ∙ ap (λ p. if p == 0 then [] else p ∷ []) (sym k.0));
  settled = k.1 (h.settled);
}

-- nothing runs while no process is recorded
none_there : (w : World) → IsBridged w → ltb 0 (w.bridge.pid) ≡ false → w.processes ≡ []
none_there w h e = let z : (w.bridge.pid == 0) ≡ true = ground arith in h.recorded ∙ rw z refl

IsBridged-launched :
    (pid : Option ℕ) (command : List Bytes) (w : World) (b : Bridge)
    → IsPid pid
    → w.processes ≡ []
    → Keeps (w.bridge) b
    → IsBridged w
    → IsBridged (behind pid w (launched command pid b))
IsBridged-launched none command w b positive empty k h =
    IsBridged-Keeps none w (b, shows_error ∷ []) k refl h
IsBridged-launched (some p) command w b positive empty k h =
    let e : (p == 0) ≡ false = (let q = positive p refl in ground arith) in
    record { recorded = rw (e, empty) refl; settled = k.1 (h.settled) }

IsBridged-start_mobile_bridge :
    (l : Launch) (relay id : Bytes) (w : World) (b : Bridge)
    → IsPid (l.spawned)
    → w.processes ≡ []
    → Keeps (w.bridge) b
    → IsBridged w
    → IsBridged (behind (l.spawned) w (start_mobile_bridge l relay id b))
unfolding start_mobile_bridge
IsBridged-start_mobile_bridge l relay id w b positive empty k h =
    let bridged = λ (r : Bridge × List Effect). IsBridged (behind (l.spawned) w r) in
    let refused = IsBridged-Keeps (l.spawned) w (b, shows_error ∷ []) k refl h in
    if-elim bridged (is_empty (l.script)) (λ e. refused)
      λ e.
        if-elim bridged (is_empty (l.node)) (λ n. refused)
          λ n.
            IsBridged-launched (l.spawned) (bridge_command l relay id (b.token)) w b positive empty
              k h

IsBridged-after_activate :
    (l : Launch) (draw : Bytes → Bytes) (relay id lan : Bytes) (timer : ℕ) (w : World)
    → IsPid (l.spawned)
    → IsBridged w
    → IsBridged (after_activate l draw relay id lan timer w)
unfolding on_mobile_remote_activate
IsBridged-after_activate l draw relay id lan timer w positive h =
    let bridged = λ (r : Bridge × List Effect). IsBridged (behind (l.spawned) w r) in
    let b = w.bridge in
    if-elim bridged (ltb 0 (b.pid))
      (λ e.
        IsBridged-Keeps (l.spawned) w (b, stop_mobile_bridge b) (refl, λ s. s)
          (perform-stop_mobile_bridge (l.spawned) b (w.processes)) h)
      λ e.
        if-elim bridged (is_empty relay)
          (λ n. IsBridged-Keeps (l.spawned) w (b, asks_settings ∷ []) (refl, λ s. s) refl h)
          λ n.
            if-elim bridged (is_empty (draw (pairing_qr_content relay id (with_port lan))))
              (λ q. IsBridged-Keeps (l.spawned) w (b, shows_error ∷ []) (refl, λ s. s) refl h)
              λ q.
                IsBridged-start_mobile_bridge l relay id w _ positive (none_there w h e)
                  (refl, λ s. refl) h

has-recorded : (p pid : ℕ) → has p (if pid == 0 then [] else pid ∷ []) ≡ true → (pid == p) ≡ true
has-recorded p pid h = elim (Bool-cases (pid == 0)) [ inl z ↦ ground arith | inr z ↦ ground arith ]

without_exited :
    (p pid : ℕ) → (pid == p) ≡ true → without p (if pid == 0 then [] else pid ∷ []) ≡ []
without_exited p pid e = elim (Bool-cases (pid == 0)) [ inl z ↦ rw z refl | inr z ↦ rw (z, e) refl ]

IsBridged-after_exit :
    (p : ℕ) (w : World) → has p (w.processes) ≡ true → IsBridged w → IsBridged (after_exit p w)
unfolding on_bridge_exit
IsBridged-after_exit p w there h =
    let e = has-recorded p (w.bridge.pid) (subst (λ ps. has p ps ≡ true) (h.recorded) there) in
    if-elim (λ b. IsBridged (record { bridge = b; processes = without p (w.processes) }))
      (w.bridge.pid == p)
      (λ t. record {
        recorded = ap (without p) (h.recorded) ∙ without_exited p (w.bridge.pid) e;
        settled = h.settled;
      })
      λ f. absurd (ground arith)

-- a step that spawns nothing and keeps the recorded process
IsBridged-quiet :
    (w : World) (r : Bridge × List Effect)
    → Keeps (w.bridge) r.0
    → IsBridged w
    → IsBridged (behind none w r)
IsBridged-quiet w r k h = IsBridged-Keeps none w r k (perform-none r.1 (w.processes)) h

IsBridged-after_timeout : (id : ℕ) (w : World) → IsBridged w → IsBridged (after_timeout id w)
IsBridged-after_timeout id w h =
    IsBridged-quiet w (on_register_timeout id (w.bridge)) (Keeps-on_register_timeout id (w.bridge))
      h

IsBridged-after_output :
    (pin chunk : Bytes) (w : World) → IsBridged w → IsBridged (after_output pin chunk w)
IsBridged-after_output pin chunk w h =
    IsBridged-quiet w (on_bridge_output pin chunk (w.bridge))
      (Keeps-on_bridge_output pin chunk (w.bridge)) h

-- The process that the window records is the only bridge process, and while the bridge counts as
-- registered the id of its registration timer is cleared: in every state that the menu item, output of
-- the bridge, the end of a process and the timers lead to.
pub IsBridged-Reachable : {w : World} → Reachable w → IsBridged w
IsBridged-Reachable at_start = record { recorded = refl; settled = refl }
IsBridged-Reachable (then_step before (activated l draw relay id lan timer w positive)) =
    IsBridged-after_activate l draw relay id lan timer w positive (IsBridged-Reachable before)
IsBridged-Reachable (then_step before (read pin chunk w)) =
    IsBridged-after_output pin chunk w (IsBridged-Reachable before)
IsBridged-Reachable (then_step before (exited p w there)) =
    IsBridged-after_exit p w there (IsBridged-Reachable before)
IsBridged-Reachable (then_step before (fired id w pending)) =
    IsBridged-after_timeout id w (IsBridged-Reachable before)
