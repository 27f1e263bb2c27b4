-- ===== src/Window/Polls.antt =====
-- What a poll of the server does (linux/src/main_window.cpp).
use harness_desktop.Base.{
  ℕ, ◌+◌, ◌-◌, ◌≤◌, ◌<◌, ◌≡◌, refl, sym, ap, ◌∙◌, Bool, true, false, not, ◌==◌, ◌||◌, ◌&&◌, Option,
  some, Bytes, is_empty, ltb, if◌then◌else◌, Bool-cases, if-elim, if-ap, inl, inr, arith, subst,
}
use harness_desktop.Window.Logs.{drain_server_logs, LogView}
use harness_desktop.Window.Growth.{has_output, grew-drain_server_logs}
use harness_desktop.Window.Navigation.{dsh_url, navigate_with_auth}
use harness_desktop.Window.Polling.{
  PollState, Tick, start_node_auto_install, on_server_failed, navigated, navigate_to_dsh_with_auth,
  on_server_ready, poll_drained, after_drain, on_poll_server,
}

-- Where the 180 seconds begin behind the draining: now if there is output, else where they began before.
abbrev pub started : Tick → PollState → ℕ
started t s =
    if has_output (t.out_file) (s.logs.out) || has_output (t.err_file) (s.logs.err)
    then t.now
    else s.poll_started

-- The polling is over, and the loading overlay hidden; an error is shown if a runtime is there, and the
-- installation of one is under way if not.
pub record Failed (runtime : Bool) (s s' : PollState) : Type 0 where
  pub over : s'.server_ready ≡ true
  pub hidden : s'.overlay ≡ false
  pub told : s'.errors ≡ (if runtime then s.errors + 1 else s.errors)
  pub installs : s'.node_installing ≡ (if runtime then s.node_installing else true)

-- the window waits for the address with a token
abbrev pub awaits_token : PollState → Bool
awaits_token s = is_empty (s.logs.auth_url) && not (s.manager.child_pid == 0)

-- The server answers: the window is ready, the page is loaded unless its token is awaited, and the update
-- check runs unless it ran before.
pub record Shown (host : Bytes) (s s' : PollState) : Type 0 where
  pub over : s'.server_ready ≡ true
  pub checked : s'.update_checked ≡ true
  pub checks : s'.checks ≡ (if s.update_checked then s.checks else s.checks + 1)
  pub loaded : s'.page ≡ (
      if awaits_token s'
      then s.page
      else some (dsh_url host (s.manager.active_port) (s'.logs.auth_url)))
  pub graced : s'.grace_timers ≡ (if awaits_token s' then s.grace_timers + 1 else s.grace_timers)

-- A poll, by what it finds; `kept` says whether its timer goes on.
pub data Polled (host : Bytes) (t : Tick) (s s' : PollState) (kept : Bool) : Type 0 where
  already : s.server_ready ≡ true → kept ≡ false → s' ≡ s → Polled host t s s' kept
  stopped :
      s.server_ready ≡ false
      → s.manager.running ≡ false
      → kept ≡ false
      → Failed (t.runtime) s s'
      → Polled host t s s' kept
  timed_out :
      s.server_ready ≡ false
      → s.manager.running ≡ true
      → started t s + 180000000 < t.later
      → kept ≡ false
      → Failed (t.runtime) s s'
      → Polled host t s s' kept
  answered :
      s.server_ready ≡ false
      → s.manager.running ≡ true
      → t.later ≤ started t s + 180000000
      → t.answers ≡ true
      → kept ≡ false
      → Shown host s s'
      → Polled host t s s' kept
  waits :
      s.server_ready ≡ false
      → s.manager.running ≡ true
      → t.later ≤ started t s + 180000000
      → t.answers ≡ false
      → kept ≡ true
      → s'.server_ready ≡ false
      → s'.pollers ≡ s.pollers
      → s'.poll_started ≡ started t s
      → s'.hint ≡ (s.hint || ltb (started t s + 30000000) (t.later))
      → Polled host t s s' kept

module _ {host : Bytes} {t : Tick} {s s' : PollState} {kept : Bool} where
  pub Polled-gone : Polled host t s s' kept → kept ≡ false → s'.server_ready ≡ true
  Polled-gone (already ready gone same) g = ap (λ (x : PollState). x.server_ready) same ∙ ready
  Polled-gone (stopped unready still gone f) g = f.over
  Polled-gone (timed_out unready running late gone f) g = f.over
  Polled-gone (answered unready running soon a gone f) g = f.over
  Polled-gone (waits unready running soon a there u p b h) g = absurd (ground arith)

  pub Polled-kept :
      Polled host t s s' kept → kept ≡ true → (s.server_ready ≡ false) × (s'.pollers ≡ s.pollers)
  Polled-kept (already ready gone same) k = absurd (ground arith)
  Polled-kept (stopped unready still gone f) k = absurd (ground arith)
  Polled-kept (timed_out unready running late gone f) k = absurd (ground arith)
  Polled-kept (answered unready running soon a gone f) k = absurd (ground arith)
  Polled-kept (waits unready running soon a there u p b h) k = (unready, p)

pub server_ready-on_server_failed :
    (runtime : Bool) (s : PollState) → (on_server_failed runtime s).server_ready ≡ true
unfolding on_server_failed start_node_auto_install
server_ready-on_server_failed true s = refl
server_ready-on_server_failed false s = elim (Bool-cases (s.node_installing)) [
  | inl e ↦ rw e refl
  | inr e ↦ rw e refl
]

Failed-on_server_failed :
    (runtime : Bool) (s : PollState) → Failed runtime s (on_server_failed runtime s)
unfolding on_server_failed start_node_auto_install
Failed-on_server_failed true s = record { over = refl; hidden = refl; told = refl; installs = refl }
Failed-on_server_failed false s =
    if-elim (Failed false s) (s.node_installing)
      (λ e. record { over = refl; hidden = refl; told = refl; installs = e })
      (λ e. record { over = refl; hidden = refl; told = refl; installs = refl })

not-true : {b : Bool} → not b ≡ false → b ≡ true
not-true h = ground arith

not-false : {b : Bool} → not b ≡ true → b ≡ false
not-false h = ground arith

module _ (host : Bytes) where
  -- the state behind a draining that leaves `logs`
  abbrev drained_at : ℕ → LogView → PollState → PollState
  drained_at n logs s = record s { logs = logs; poll_started = n }

  poll_started-after_drain :
      (t : Tick) (s : PollState)
      → after_drain host t s
        ≡ drained_at (started t s) (drain_server_logs (t.out_file) (t.err_file) (s.logs)).1 s
  unfolding after_drain
  poll_started-after_drain t s =
      ap
        (λ (b : Bool).
          drained_at (if b then t.now else s.poll_started)
            (drain_server_logs (t.out_file) (t.err_file) (s.logs)).1 s)
        (grew-drain_server_logs t s)

  abbrev url_of : PollState → Bytes
  url_of s = dsh_url host (s.manager.active_port) (s.logs.auth_url)

  navigate_cases :
      (s : PollState)
      → (if awaits_token s
          then record s { grace_timers = s.grace_timers + 1 }
          else record s { page = some (url_of s) })
        ≡ navigate_to_dsh_with_auth host s
  unfolding navigate_to_dsh_with_auth navigate_with_auth navigated
  navigate_cases s = if-ap (λ (o : Option Bytes). navigated host o s) (awaits_token s) refl refl

  -- the state of OnServerReady behind the navigation, with the update check
  abbrev with_check : PollState → PollState → PollState
  with_check s shown =
      if not (s.update_checked)
      then record shown { update_checked = true; checks = s.checks + 1 }
      else shown

  Shown-with_check :
      (s shown : PollState)
      → shown.server_ready ≡ true
      → shown.update_checked ≡ s.update_checked
      → shown.checks ≡ s.checks
      → shown.page ≡ (
          if awaits_token shown
          then s.page
          else some (dsh_url host (s.manager.active_port) (shown.logs.auth_url)))
      → shown.grace_timers ≡ (if awaits_token shown then s.grace_timers + 1 else s.grace_timers)
      → Shown host s (with_check s shown)
  Shown-with_check s shown ready u c p g =
      if-elim (Shown host s) (not (s.update_checked))
        (λ e. record {
          over = ready;
          checked = refl;
          checks = rw (not-false e) refl;
          loaded = p;
          graced = g;
        })
        λ e. record {
          over = ready;
          checked = u ∙ not-true e;
          checks = rw (not-true e) c;
          loaded = p;
          graced = g;
        }

  Shown-on_server_ready : (s : PollState) → Shown host s (on_server_ready host s)
  unfolding on_server_ready
  Shown-on_server_ready s =
      let r = record s { server_ready = true } in
      subst (λ x. Shown host s (with_check s x)) (navigate_cases r)
        (if-elim (λ x. Shown host s (with_check s x)) (awaits_token s)
          (λ e.
            Shown-with_check s (record r { grace_timers = s.grace_timers + 1 }) refl refl refl
              (rw e refl) (rw e refl))
          λ e.
            Shown-with_check s (record r { page = some (url_of s) }) refl refl refl (rw e refl)
              (rw e refl))

  Polled-drained :
      (t : Tick) (s : PollState) (logs : LogView)
      → s.server_ready ≡ false
      → s.manager.running ≡ true
      → Polled host t s
          (poll_drained host t (drained_at (started t s) logs s)).1
          (poll_drained host t (drained_at (started t s) logs s)).0
  unfolding poll_drained
  Polled-drained t s logs unready running =
      let d = drained_at (started t s) logs s in
      let polled = λ (r : Bool × PollState). Polled host t s r.1 r.0 in
      let f = Failed-on_server_failed (t.runtime) d in
      let shown = Shown-on_server_ready d in
      if-elim polled (ltb 180000000 (t.later - started t s))
        (λ late.
          timed_out unready running (ground arith) refl
            (record { over = f.over; hidden = f.hidden; told = f.told; installs = f.installs }))
        λ soon.
          if-elim polled (t.answers)
            (λ a. answered unready running (ground arith) a refl (record {
              over = shown.over;
              checked = shown.checked;
              checks = shown.checks;
              loaded = shown.loaded;
              graced = shown.graced;
            }))
            λ a. waits unready running (ground arith) a refl unready refl refl (ground arith)

  Polled-poll_drained :
      (t : Tick) (s : PollState)
      → s.server_ready ≡ false
      → s.manager.running ≡ true
      → Polled host t s
          (poll_drained host t (after_drain host t s)).1
          (poll_drained host t (after_drain host t s)).0
  Polled-poll_drained t s unready running =
      subst (λ d. Polled host t s (poll_drained host t d).1 (poll_drained host t d).0)
        (sym (poll_started-after_drain t s))
        (Polled-drained t s (drain_server_logs (t.out_file) (t.err_file) (s.logs)).1 unready
          running)

  -- A poll of a window that is ready changes nothing and ends. Else it fails and ends if the server does
  -- not run, or if more than 180 seconds have passed since this poll read the clock, if it found that a
  -- log file has grown, or, if it did not, since the time that was kept before. Else it shows the page
  -- and ends if the port answers. Else it goes on, with that time kept, the number of timers as it was,
  -- and the hint shown if it was or more than 30 seconds have passed. A failure ends the waiting, hides
  -- the overlay, shows an error if a runtime is found, and leaves the installation of one under way if
  -- not. A page that is shown ends the waiting too: it is loaded at once unless the address with the token
  -- is still missing and the server is a child of the window, which starts a grace timer; and the update
  -- check is started unless it was before.
  pub Polled-on_poll_server :
      (t : Tick) (s : PollState)
      → Polled host t s (on_poll_server host t s).1 (on_poll_server host t s).0
  unfolding on_poll_server
  Polled-on_poll_server t s =
      let polled = λ (r : Bool × PollState). Polled host t s r.1 r.0 in
      if-elim polled (s.server_ready) (λ e. already e refl refl)
        λ unready.
          if-elim polled (not (s.manager.running))
            (λ still.
              stopped unready (not-false still) refl (Failed-on_server_failed (t.runtime) s))
            λ running. Polled-poll_drained t s unready (not-true running)
