-- ===== src/Plugins/Dialog/Settled.antt =====
-- The callbacks of the workers and the end of ShowDialog (linux/src/plugins_manager.cpp) as moves of
-- the ledger.
use harness_desktop.Base.{
  ℕ, ◌+◌, ◌-◌, ◌≡◌, refl, sym, ap, ◌∙◌, Bool, true, false, ◌&&◌, ◌==◌, List, ◌∷◌, Bytes, ◌++◌,
  if◌then◌else◌, arith,
}
use harness_desktop.Json.Floats.{Floats}
use harness_desktop.Plugins.Profile.{Files}
use harness_desktop.Plugins.Market.{MarketPlugin}
use harness_desktop.Plugins.Dialog.State.{
  DialogState, CommandResult, OpCtx, Worker, plugin_op, market_fetch,
}
use harness_desktop.Plugins.Dialog.Operations.{
  Released, end_worker, op_finished, refresh_local_data, market_fetched,
}
use harness_desktop.Plugins.Dialog.Handlers.{close_dialog}
use harness_desktop.Plugins.Dialog.World.{World, released}
use harness_desktop.Plugins.Dialog.Ledger.{end_op, end_fetch, close}
use harness_desktop.Plugins.Dialog.Began.{Keeps-fill_market}
use harness_desktop.Plugins.Dialog.Workers.{
  ops, fetches, ops-append, fetches-append, ops-add-fetches, ledger_of, Tracks, Tracks-moved,
}

module _ {Int : Type 0} where
  -- what a callback does to the flags and the count
  record Settles (s : DialogState Int) (busy : Bool) (r : Released (DialogState Int)) : Type 0 where
    still_closed : r.state.closed ≡ s.closed
    new_busy : r.state.busy ≡ busy
    one_less : r.state.pending_workers ≡ s.pending_workers - 1
    deletes : r.deleted ≡ (s.closed && s.pending_workers - 1 == 0)

  Settles-end_worker :
      {b : Bool} (s t : DialogState Int)
      → t.closed ≡ s.closed
      → t.busy ≡ b
      → t.pending_workers ≡ s.pending_workers
      → Settles s b (end_worker t)
  unfolding end_worker
  Settles-end_worker s t c busy p = record {
    still_closed = c;
    new_busy = busy;
    one_less = ap (λ n. n - 1) p;
    deletes = λ i. c i && p i - 1 == 0;
  }

  Settles-unless :
      {b : Bool} (closed : Bool) (s t : DialogState Int)
      → t.closed ≡ s.closed
      → t.busy ≡ b
      → t.pending_workers ≡ s.pending_workers
      → Settles s (if closed then s.busy else b) (end_worker (if closed then s else t))
  Settles-unless true s t c busy p = Settles-end_worker s s refl refl refl
  Settles-unless false s t c busy p = Settles-end_worker s t c busy p

  Settles-market_fetched :
      (int_text : Int → Bytes) (plugins : List (MarketPlugin Int)) (s : DialogState Int)
      → Settles s (if s.closed then s.busy else s.busy) (market_fetched int_text plugins s)
  unfolding market_fetched
  Settles-market_fetched int_text plugins s =
      let k = Keeps-fill_market int_text (record s { market = plugins }) in
      Settles-unless (s.closed) s _ (k.same_closed) (k.same_busy) (k.same_pending)

  deletions-released :
      (w : World Int) {d : Bool} {m n : ℕ}
      → d ≡ (w.state.closed && m == 0)
      → m ≡ n
      → (if d then 1 else 0) + w.deletions
        ≡ (if w.state.closed && n == 0 then 1 else 0) + w.deletions
  deletions-released w d e =
      ap (λ b. (if b then 1 else 0) + w.deletions) (d ∙ ap (λ n. w.state.closed && n == 0) e)

  module _ (fl : Floats) (home : Bytes) where
    Settles-op_finished :
        (files : Files) (ctx : OpCtx) (result : CommandResult) (s : DialogState Int)
        → Settles s (if s.closed then s.busy else false) (op_finished fl home files ctx result s)
    unfolding op_finished refresh_local_data
    Settles-op_finished files ctx result s = Settles-unless (s.closed) s _ refl refl refl

    pub Tracks-op_done :
        (ctx : OpCtx) (result : CommandResult) (before behind : List Worker) (w : World Int)
        → w.workers ≡ before ++ (plugin_op ctx ∷ behind)
        → Tracks w
        → Tracks
            (released w (before ++ behind) (op_finished fl home (w.files) ctx result (w.state)))
    Tracks-op_done ctx result before behind w e t =
        let r = op_finished fl home (w.files) ctx result (w.state) in
        let s = Settles-op_finished (w.files) ctx result (w.state) in
        let counted = t.counted in
        let all_ops = ap ops e ∙ ops-append before (plugin_op ctx ∷ behind) in
        let all_fetches = ap fetches e ∙ fetches-append before (plugin_op ctx ∷ behind) in
        let left_ops = ops-append before behind in
        let left_fetches = fetches-append before behind in
        let known = ops-add-fetches (w.workers) in
        let left = ops-add-fetches (before ++ behind) in
        let out : w.state.pending_workers - 1 ≡ ops (w.workers) - 1 + fetches (w.workers) =
          omega arith in
        Tracks-moved w (released w (before ++ behind) r) t (end_op (ledger_of w) (omega arith))
          (record {
            closed_eq = s.still_closed;
            busy_eq = s.new_busy ∙ ground arith;
            ops_eq = omega arith;
            fetches_eq = omega arith;
            deletions_eq = deletions-released w (s.deletes) out;
          })
          (s.one_less ∙ omega arith)

  pub Tracks-fetch_done :
      (int_text : Int → Bytes) (plugins : List (MarketPlugin Int)) (before behind : List Worker)
      (w : World Int)
      → w.workers ≡ before ++ (market_fetch ∷ behind)
      → Tracks w
      → Tracks (released w (before ++ behind) (market_fetched int_text plugins (w.state)))
  Tracks-fetch_done int_text plugins before behind w e t =
      let r = market_fetched int_text plugins (w.state) in
      let s = Settles-market_fetched int_text plugins (w.state) in
      let counted = t.counted in
      let all_ops = ap ops e ∙ ops-append before (market_fetch ∷ behind) in
      let all_fetches = ap fetches e ∙ fetches-append before (market_fetch ∷ behind) in
      let left_ops = ops-append before behind in
      let left_fetches = fetches-append before behind in
      let known = ops-add-fetches (w.workers) in
      let left = ops-add-fetches (before ++ behind) in
      let out : w.state.pending_workers - 1 ≡ ops (w.workers) + (fetches (w.workers) - 1) =
        omega arith in
      Tracks-moved w (released w (before ++ behind) r) t (end_fetch (ledger_of w) (omega arith))
        (record {
          closed_eq = s.still_closed;
          busy_eq = s.new_busy ∙ ground arith;
          ops_eq = omega arith;
          fetches_eq = omega arith;
          deletions_eq = deletions-released w (s.deletes) out;
        })
        (s.one_less ∙ omega arith)

  pub Tracks-close :
      (w : World Int)
      → w.state.closed ≡ false
      → Tracks w
      → Tracks (released w (w.workers) (close_dialog (w.state)))
  unfolding close_dialog
  Tracks-close w there t =
      let known = ops-add-fetches (w.workers) in
      let out : w.state.pending_workers ≡ ops (w.workers) + fetches (w.workers) =
        t.counted ∙ sym known in
      Tracks-moved w (released w (w.workers) (close_dialog (w.state))) t (close (ledger_of w) there)
        (record {
          closed_eq = refl;
          busy_eq = refl;
          ops_eq = refl;
          fetches_eq = refl;
          deletions_eq = ap (λ n. (if n == 0 then 1 else 0) + w.deletions) out;
        })
        (t.counted)
