-- ===== src/Plugins/Dialog/Lifetime.antt =====
-- The lifetime of the dialog's state (linux/src/plugins_manager.cpp): the count of workers implements
-- the ledger.
use harness_desktop.Base.{
  ◌≤◌, ◌≡◌, refl, ap, ◌∙◌, Bool, false, ◌&&◌, ◌==◌, List, [], Bytes, length, if◌then◌else◌,
}
use harness_desktop.Json.Floats.{Floats}
use harness_desktop.Plugins.Profile.{Files}
use harness_desktop.Plugins.Dialog.State.{DialogState, Worker}
use harness_desktop.Plugins.Dialog.Handlers.{show_dialog, new_state}
use harness_desktop.Plugins.Dialog.World.{
  World, acted, op_done, fetch_done, closed, elsewhere, start_world, Reachable, shown, then_step,
}
use harness_desktop.Plugins.Dialog.Ledger.{at_first, Moves-IsBalanced}
use harness_desktop.Plugins.Dialog.Began.{Began-act, Began-on_refresh}
use harness_desktop.Plugins.Dialog.Workers.{ops, ops-add-fetches, Tracks, Tracks-Began}
use harness_desktop.Plugins.Dialog.Settled.{Tracks-op_done, Tracks-fetch_done, Tracks-close}

module _ {Int : Type 0} where
  module _ (fl : Floats) (home : Bytes) (int_text : Int → Bytes) where
    Tracks-start_world :
        (zh : Bool) (files : Files) → Tracks (start_world fl home int_text zh files)
    unfolding show_dialog new_state
    Tracks-start_world zh files =
        let empty : World Int = record {
          state = new_state zh;
          workers = [];
          files = files;
          deletions = 0;
        } in
        let initial : DialogState Int × List Worker = show_dialog fl home files zh in
        Tracks-Began empty (record { state = initial.0; started = initial.1; files = files })
          (Began-on_refresh fl home files (new_state zh))
          (record { moved = at_first; counted = refl })

    -- However the user acts, workers end and the files change, the reference count of the dialog's
    -- state implements the ledger: the count is the number of workers whose callbacks have not run,
    -- and the flags, the workers and the deletions of the state go through moves of the ledger.
    pub Tracks-Reachable :
        {zh : Bool} {files : Files} {w : World Int}
        → Reachable fl home int_text zh files w
        → Tracks w
    Tracks-Reachable {zh} {files} shown = Tracks-start_world zh files
    Tracks-Reachable (then_step r (acted a w there possible)) =
        Tracks-Began w _ (Began-act fl home int_text a (w.files) (w.state)) (Tracks-Reachable r)
    Tracks-Reachable (then_step r (op_done ctx result before behind w e)) =
        Tracks-op_done fl home ctx result before behind w e (Tracks-Reachable r)
    Tracks-Reachable (then_step r (fetch_done plugins before behind w e)) =
        Tracks-fetch_done int_text plugins before behind w e (Tracks-Reachable r)
    Tracks-Reachable (then_step r (closed w there)) = Tracks-close w there (Tracks-Reachable r)
    Tracks-Reachable (then_step r (elsewhere files w)) =
        let t = Tracks-Reachable r in record { moved = t.moved; counted = t.counted }

    -- The state is deleted exactly once when the dialog is closed and no worker is out, and not
    -- before: no callback of a worker finds it deleted.
    pub deletions-Reachable :
        {zh : Bool} {files : Files} {w : World Int}
        → Reachable fl home int_text zh files w
        → w.deletions ≡ (if w.state.closed && length (w.workers) == 0 then 1 else 0)
    deletions-Reachable {w} r =
        let balanced = Moves-IsBalanced ((Tracks-Reachable r).moved) in
        balanced.released_at_end
        ∙ ap (λ n. if w.state.closed && n == 0 then 1 else 0) (ops-add-fetches (w.workers))

    -- At most one plugin operation is out at any time, and while the dialog is open it is busy
    -- exactly when one is.
    pub ops-Reachable :
        {zh : Bool} {files : Files} {w : World Int}
        → Reachable fl home int_text zh files w
        → (ops (w.workers) ≤ 1)
          × (w.state.closed ≡ false → ops (w.workers) ≡ (if w.state.busy then 1 else 0))
    ops-Reachable r =
        let balanced = Moves-IsBalanced ((Tracks-Reachable r).moved) in
        (balanced.one_op, balanced.busy_with_op)
