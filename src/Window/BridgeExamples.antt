-- ===== src/Window/BridgeExamples.antt =====
-- The bridge of linux/src/main_window.cpp at concrete inputs.
use harness_desktop.Base.{
  ℕ, ◌<◌, ◌≡◌, refl, subst, true, [], ◌∷◌, some, Bytes, codes, bytes_eq, find?, arith,
}
use harness_desktop.Window.Bridge.{
  Launch, terminates, shows_error, field_of, register, keep_token, on_line, on_lines, c_string,
  on_bridge_output, on_bridge_exit, stop_mobile_bridge, start_mobile_bridge,
  on_mobile_remote_activate, on_register_timeout,
}
use harness_desktop.Window.Lines.{complete_lines}
use harness_desktop.Window.Bridging.{
  World, start_world, after_activate, after_exit, after_output, activated, read, Reachable,
  at_start, then_step, IsBridged, IsPid,
}
use harness_desktop.Window.Processes.{IsBridged-Reachable}

abbrev launch : ℕ → Launch
launch pid = record {
  script = codes "bridge.mjs";
  node = codes "node";
  port = 3080;
  pin = codes "123456";
  auth_url = [];
  spawned = some pid;
}

some_id : (n p : ℕ) → some n ≡ some p → n ≡ p
some_id n p e = cc

launch-IsPid : (n : ℕ) → 0 < n → IsPid ((launch n).spawned)
launch-IsPid n positive p e = subst (λ q. 0 < q) (some_id n p e) positive

abbrev draw : Bytes → Bytes
draw text = codes "png"

-- the menu item, with the timer id
abbrev toggled : ℕ → ℕ → World → World
toggled pid timer = after_activate (launch pid) draw (codes "https://r") (codes "7") [] timer

abbrev connected : World
connected = toggled 77 5 start_world

abbrev paired : World
paired = after_output (codes "123456") (codes "{\"event\":\"online\"}\n") connected

paired-Reachable : Reachable paired
paired-Reachable =
    then_step
      (then_step at_start (
        activated (launch 77) draw (codes "https://r") (codes "7") [] 5 start_world
          (launch-IsPid 77 (omega arith))))
      (read (codes "123456") (codes "{\"event\":\"online\"}\n") connected)

IsBridged-Reachable_example : IsBridged paired
IsBridged-Reachable_example = IsBridged-Reachable paired-Reachable

paired_run :
    (paired.processes ≡ 77 ∷ []) × (paired.bridge.registered ≡ true) × (paired.bridge.timers ≡ [])
unfolding complete_lines on_mobile_remote_activate start_mobile_bridge on_bridge_output on_lines
    on_line field_of register keep_token c_string find? bytes_eq
paired_run = (refl, refl, refl)

-- The item is used three times, and the bridge ends in between: the timer of the first use is still
-- there, and stops the second bridge.
abbrev again : World
again = toggled 78 6 (after_exit 77 (toggled 0 0 connected))

stale_timer_run :
    (again.bridge.timers ≡ 6 ∷ 5 ∷ [])
    × ((on_register_timeout 5 (again.bridge)).1 ≡ terminates 78 ∷ shows_error ∷ [])
unfolding on_mobile_remote_activate start_mobile_bridge on_bridge_exit on_register_timeout
    stop_mobile_bridge
stale_timer_run = (refl, refl)
