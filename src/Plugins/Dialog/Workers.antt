-- ===== src/Plugins/Dialog/Workers.antt =====
-- The workers of the plugins dialog (linux/src/plugins_manager.cpp), counted, and the ledger of a
-- world.
use harness_desktop.Base.{
  ℕ, suc, ◌+◌, ◌≡◌, refl, sym, ◌∙◌, subst, List, [], ◌∷◌, ◌++◌, length, arith,
}
use harness_desktop.Plugins.Dialog.State.{Worker, plugin_op, market_fetch}
use harness_desktop.Plugins.Dialog.Handlers.{Handled}
use harness_desktop.Plugins.Dialog.World.{World, opened}
use harness_desktop.Plugins.Dialog.Ledger.{
  Ledger, Move, stay, begin_op, begin_fetch, Moves, and_then,
}
use harness_desktop.Plugins.Dialog.Began.{Began, kept, began_op, began_fetch}

abbrev pub ops : List Worker → ℕ
ops [] = 0
ops (plugin_op ctx ∷ ws) = suc (ops ws)
ops (market_fetch ∷ ws) = ops ws

abbrev pub fetches : List Worker → ℕ
fetches [] = 0
fetches (plugin_op ctx ∷ ws) = fetches ws
fetches (market_fetch ∷ ws) = suc (fetches ws)

pub ops-append : (xs ys : List Worker) → ops (xs ++ ys) ≡ ops xs + ops ys
ops-append [] ys = omega arith
ops-append (plugin_op ctx ∷ xs) ys = omega (arith, ops-append xs ys)
ops-append (market_fetch ∷ xs) ys = ops-append xs ys

pub fetches-append : (xs ys : List Worker) → fetches (xs ++ ys) ≡ fetches xs + fetches ys
fetches-append [] ys = omega arith
fetches-append (plugin_op ctx ∷ xs) ys = fetches-append xs ys
fetches-append (market_fetch ∷ xs) ys = omega (arith, fetches-append xs ys)

pub ops-add-fetches : (ws : List Worker) → ops ws + fetches ws ≡ length ws
ops-add-fetches [] = refl
ops-add-fetches (plugin_op ctx ∷ ws) = omega (arith, ops-add-fetches ws)
ops-add-fetches (market_fetch ∷ ws) = omega (arith, ops-add-fetches ws)

module _ {Int : Type 0} where
  abbrev pub ledger_of : World Int → Ledger
  ledger_of w = record {
    closed = w.state.closed;
    busy = w.state.busy;
    ops = ops (w.workers);
    fetches = fetches (w.workers);
    deletions = w.deletions;
  }

  -- the ledger has come about by its moves, and the state counts the workers
  pub record Tracks (w : World Int) : Type 0 where
    pub moved : Moves (ledger_of w)
    pub counted : w.state.pending_workers ≡ length (w.workers)

  pub record IsLedger (w : World Int) (l : Ledger) : Type 0 where
    pub closed_eq : w.state.closed ≡ l.closed
    pub busy_eq : w.state.busy ≡ l.busy
    pub ops_eq : ops (w.workers) ≡ l.ops
    pub fetches_eq : fetches (w.workers) ≡ l.fetches
    pub deletions_eq : w.deletions ≡ l.deletions

  pub Tracks-moved :
      (v w : World Int) {l : Ledger}
      → Tracks v
      → Move (ledger_of v) l
      → IsLedger w l
      → w.state.pending_workers ≡ length (w.workers)
      → Tracks w
  Tracks-moved v w {l} t m e counted =
      let c = sym (e.closed_eq) in
      let b = sym (e.busy_eq) in
      let o = sym (e.ops_eq) in
      let f = sym (e.fetches_eq) in
      let d = sym (e.deletions_eq) in
      let same : l ≡ ledger_of w =
        λ i. record { closed = c i; busy = b i; ops = o i; fetches = f i; deletions = d i } in
      record { moved = subst Moves same (and_then (t.moved) m); counted = counted }

  pub Tracks-Began :
      (w : World Int) (h : Handled Int)
      → Began (w.state) (h.state) (h.started)
      → Tracks w
      → Tracks (opened w h)
  Tracks-Began w h b t =
      let counted = t.counted in
      elim b [
        | kept k e ↦
            Tracks-moved w (opened w h) t (stay (ledger_of w))
              (record {
                closed_eq = k.same_closed;
                busy_eq = k.same_busy;
                ops_eq = rw e refl;
                fetches_eq = rw e refl;
                deletions_eq = refl;
              })
              (k.same_pending ∙ rw e counted)
        | began_op ctx idle there busy still p e ↦
            Tracks-moved w (opened w h) t (begin_op (ledger_of w) there idle)
              (record {
                closed_eq = still ∙ sym there;
                busy_eq = busy;
                ops_eq = rw e (omega arith);
                fetches_eq = rw e refl;
                deletions_eq = refl;
              })
              (p ∙ rw e (omega arith))
        | began_fetch idle there busy still p e ↦
            Tracks-moved w (opened w h) t (begin_fetch (ledger_of w) there idle)
              (record {
                closed_eq = still ∙ sym there;
                busy_eq = busy ∙ sym idle;
                ops_eq = rw e refl;
                fetches_eq = rw e (omega arith);
                deletions_eq = refl;
              })
              (p ∙ rw e (omega arith))
      ]
