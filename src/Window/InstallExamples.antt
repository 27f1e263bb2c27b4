-- ===== src/Window/InstallExamples.antt =====
-- The Node.js install of linux/src/main_window.cpp at a concrete run.
use harness_desktop.Base.{◌≡◌, refl, true, false, [], some}
use harness_desktop.Window.Installing.{
  Install, ok, closed, progress, done, start_install, use_ctx, report_progress, end_worker, respond,
  on_done_idle, run_idle, destroy_dialog, reports, ends, runs, closes, returns, Reachable, at_start,
  then_step, IsOwned,
}
use harness_desktop.Window.Ownership.{IsOwned-Reachable}

-- The user closes the dialog while the worker runs.
abbrev closed_early : Install
closed_early = destroy_dialog (record (report_progress start_install) { response = some closed })

abbrev reported : Install
reported = run_idle progress (record closed_early { idles = [] })

abbrev finished : Install
finished = run_idle done (record (end_worker true reported) { idles = [] })

finished-Reachable : Reachable finished
unfolding report_progress destroy_dialog use_ctx end_worker run_idle
finished-Reachable =
    let told = then_step at_start (reports start_install refl) in
    let gone = then_step (then_step told (closes (report_progress start_install) refl)) (
      returns closed (record (report_progress start_install) { response = some closed }) refl
        refl) in
    then_step
      (then_step (then_step gone (runs progress [] closed_early refl)) (ends true reported refl))
      (runs done [] (end_worker true reported) refl)

IsOwned-Reachable_example : IsOwned finished
IsOwned-Reachable_example = IsOwned-Reachable finished-Reachable

finished_run : (finished.freed ≡ 1) × (finished.response ≡ some closed) × (finished.shown ≡ false)
unfolding report_progress destroy_dialog use_ctx end_worker run_idle on_done_idle respond
finished_run = (refl, refl, refl)

-- The dialog is answered by the last callback, and is destroyed behind it.
abbrev answered : Install
answered = destroy_dialog (run_idle done (record (end_worker true start_install) { idles = [] }))

answered_run : (answered.response ≡ some ok) × (answered.freed ≡ 1) × (answered.misuses ≡ 0)
unfolding destroy_dialog use_ctx end_worker run_idle on_done_idle respond
answered_run = (refl, refl, refl)
