-- ===== src/Plugins/Dialog/Ledger.antt =====
-- What the comment on DialogState (linux/src/plugins_manager.cpp) promises, without the reference
-- count: a dialog, the workers that it has out, and the release of its state.
use harness_desktop.Base.{
  ℕ, ◌+◌, ◌-◌, ◌<◌, ◌≤◌, ◌≡◌, refl, Bool, true, false, ◌&&◌, ◌==◌, if◌then◌else◌, arith,
}

pub record Ledger : Type 0 where
  pub closed : Bool
  pub busy : Bool
  pub ops : ℕ
  pub fetches : ℕ
  pub deletions : ℕ

-- the state is released as soon as the dialog is closed and no worker is out
abbrev pub settle : Ledger → Ledger
settle l = record l {
  deletions = (if l.closed && l.ops + l.fetches == 0 then 1 else 0) + l.deletions;
}

pub data Move : Ledger → Ledger → Type 0 where
  stay : (l : Ledger) → Move l l
  begin_op :
      (l : Ledger)
      → l.closed ≡ false
      → l.busy ≡ false
      → Move l (record l { busy = true; ops = l.ops + 1 })
  begin_fetch :
      (l : Ledger)
      → l.closed ≡ false
      → l.busy ≡ false
      → Move l (record l { fetches = l.fetches + 1 })
  end_op :
      (l : Ledger)
      → 0 < l.ops
      → Move l (settle (record l { busy = l.closed && l.busy; ops = l.ops - 1 }))
  end_fetch : (l : Ledger) → 0 < l.fetches → Move l (settle (record l { fetches = l.fetches - 1 }))
  close : (l : Ledger) → l.closed ≡ false → Move l (settle (record l { closed = true }))

abbrev pub new_ledger : Ledger
new_ledger = record { closed = false; busy = false; ops = 0; fetches = 0; deletions = 0 }

pub data Moves : Ledger → Type 0 where
  at_first : Moves new_ledger
  and_then : {l m : Ledger} → Moves l → Move l m → Moves m

pub record IsBalanced (l : Ledger) : Type 0 where
  pub released_at_end : l.deletions ≡ (if l.closed && l.ops + l.fetches == 0 then 1 else 0)
  pub one_op : l.ops ≤ 1
  pub busy_with_op : l.closed ≡ false → l.ops ≡ (if l.busy then 1 else 0)

Move-IsBalanced : {l m : Ledger} → Move l m → IsBalanced l → IsBalanced m
Move-IsBalanced (stay l) b = b
Move-IsBalanced (begin_op l c f) b = ground (arith, b.busy_with_op c)
Move-IsBalanced (begin_fetch l c f) b = ground (arith, b.busy_with_op c)
Move-IsBalanced (end_op l h) b = ground (arith, b.busy_with_op)
Move-IsBalanced (end_fetch l h) b = ground (arith, b.busy_with_op)
Move-IsBalanced (close l c) b = ground (arith, b.busy_with_op c)

pub Moves-IsBalanced : {l : Ledger} → Moves l → IsBalanced l
Moves-IsBalanced at_first = record {
  released_at_end = refl;
  one_op = omega arith;
  busy_with_op = λ _. refl;
}
Moves-IsBalanced (and_then r m) = Move-IsBalanced m (Moves-IsBalanced r)
