-- ===== src/Window/Ownership.antt =====
-- The owner of the context of the Node.js install (linux/src/main_window.cpp).
use harness_desktop.Base.{
  ℕ, ◌+◌, ◌≡◌, refl, sym, ◌∙◌, subst, Bool, true, false, List, [], ◌∷◌, ◌++◌, ltb, Bool-cases, inl,
  inr, if-elim, arith,
}
use harness_desktop.Window.Installing.{
  Idle, progress, done, Worker, running, ended, Install, use_ctx, report_progress, end_worker,
  respond, on_done_idle, run_idle, destroy_dialog, reports, ends, runs, closes, returns, Reachable,
  at_start, then_step, only_progress, done_last, HasOwner, IsOwned,
}

only_progress-append :
    (is : List Idle) → only_progress is ≡ true → only_progress (is ++ (progress ∷ [])) ≡ true
only_progress-append [] h = refl
only_progress-append (progress ∷ is) h = only_progress-append is h
only_progress-append (done ∷ is) h = absurd (ground arith)

done_last-append : (is : List Idle) → only_progress is ≡ true → done_last (is ++ (done ∷ [])) ≡ true
done_last-append [] h = refl
done_last-append (progress ∷ is) h = done_last-append is h
done_last-append (done ∷ is) h = absurd (ground arith)

-- the callback that frees, behind the reports
HasOwner-done :
    (is : List Idle) (freed : ℕ)
    → HasOwner running is freed
    → HasOwner ended (is ++ (done ∷ [])) freed
HasOwner-done [] freed h = (refl, h.1)
HasOwner-done (i ∷ is) freed h = (done_last-append (i ∷ is) h.0, h.1)

abbrev frees : Idle → ℕ
frees progress = 0
frees done = 1

HasOwner-first :
    (w : Worker) (i : Idle) (is : List Idle) (freed : ℕ)
    → HasOwner w (i ∷ is) freed
    → (freed ≡ 0) × HasOwner w is (freed + frees i)
HasOwner-first running progress is freed h = (h.1, (h.0, omega arith))
HasOwner-first running done is freed h = absurd (ground arith)
HasOwner-first ended progress [] freed h = absurd (ground arith)
HasOwner-first ended progress (j ∷ is) freed h = (h.1, (h.0, omega arith))
HasOwner-first ended done [] freed h = (h.1, omega arith)
HasOwner-first ended done (j ∷ is) freed h = absurd (ground arith)

-- a context that was not freed may be used
use_ctx-alive : (s : Install) → s.freed ≡ 0 → use_ctx s ≡ s
unfolding use_ctx
use_ctx-alive s h = rw h refl

abbrev running_owner :
    (s : Install) → s.worker ≡ running → IsOwned s → HasOwner running (s.idles) (s.freed)
running_owner s r h = subst (λ w. HasOwner w (s.idles) (s.freed)) r (h.owned)

IsOwned-report_progress :
    (s : Install) → s.worker ≡ running → IsOwned s → IsOwned (report_progress s)
unfolding report_progress
IsOwned-report_progress s r h =
    let o = running_owner s r h in
    record {
      owned =
          subst (λ w. HasOwner w (s.idles ++ (progress ∷ [])) (s.freed)) (sym r)
            (only_progress-append (s.idles) o.0, o.1);
      unharmed = h.unharmed;
      detached = h.detached;
      ctx_follows = h.ctx_follows;
      weak_follows = h.weak_follows;
    }

IsOwned-end_worker :
    (installed : Bool) (s : Install)
    → s.worker ≡ running
    → IsOwned s
    → IsOwned (end_worker installed s)
unfolding end_worker
IsOwned-end_worker installed s r h =
    let o = running_owner s r h in
    let e = use_ctx-alive s o.1 in
    subst
      (λ (t : Install).
        IsOwned (record t { result = installed; worker = ended; idles = s.idles ++ (done ∷ []) }))
      (sym e)
      (record {
        owned = HasOwner-done (s.idles) (s.freed) o;
        unharmed = h.unharmed;
        detached = h.detached;
        ctx_follows = h.ctx_follows;
        weak_follows = h.weak_follows;
      })

not_freed : (s : Install) → s.weak ≡ true → IsOwned s → s.freed ≡ 0
not_freed s w h = elim (Bool-cases (ltb 0 (s.freed))) [
  | inl p ↦ let f : s.weak ≡ false = h.detached (ground arith) in absurd (ground arith)
  | inr p ↦ ground arith
]

IsOwned-destroy_dialog : (s : Install) → IsOwned s → IsOwned (destroy_dialog s)
unfolding destroy_dialog
IsOwned-destroy_dialog s h =
    if-elim IsOwned (s.weak)
      (λ w.
        let e = use_ctx-alive s (not_freed s w h) in
        subst
          (λ (t : Install). IsOwned (record t { ctx_dialog = false; weak = false; shown = false }))
          (sym e)
          (record {
            owned = h.owned;
            unharmed = h.unharmed;
            detached = λ p. refl;
            ctx_follows = λ z. refl;
            weak_follows = λ z. refl;
          }))
      λ w. record {
        owned = h.owned;
        unharmed = h.unharmed;
        detached = h.detached;
        ctx_follows = λ z. h.ctx_follows z ∙ (sym (h.weak_follows z) ∙ w);
        weak_follows = λ z. w;
      }

-- the callback that frees, behind its use of the context
IsOwned-freed :
    (s : Install)
    → HasOwner (s.worker) (s.idles) (s.freed + 1)
    → s.freed ≡ 0
    → s.misuses ≡ 0
    → s.weak ≡ s.ctx_dialog
    → IsOwned (record (respond s) { freed = (respond s).freed + 1 })
unfolding respond
IsOwned-freed s o z m w =
    if-elim (λ (t : Install). IsOwned (record t { freed = t.freed + 1 })) (s.ctx_dialog)
      (λ e. record {
        owned = o;
        unharmed = m;
        detached = λ p. refl;
        ctx_follows = λ f. absurd (omega arith);
        weak_follows = λ f. absurd (omega arith);
      })
      λ e. record {
        owned = o;
        unharmed = m;
        detached = λ p. w ∙ e;
        ctx_follows = λ f. absurd (omega arith);
        weak_follows = λ f. absurd (omega arith);
      }

IsOwned-run_idle :
    (i : Idle) (is : List Idle) (s : Install)
    → s.idles ≡ i ∷ is
    → IsOwned s
    → IsOwned (run_idle i (record s { idles = is }))
unfolding run_idle on_done_idle
IsOwned-run_idle progress is s e h =
    let o =
      HasOwner-first (s.worker) progress is (s.freed)
        (subst (λ q. HasOwner (s.worker) q (s.freed)) e (h.owned)) in
    subst IsOwned (sym (use_ctx-alive (record s { idles = is }) o.0)) (record {
      owned = subst (HasOwner (s.worker) is) (omega arith) o.1;
      unharmed = h.unharmed;
      detached = h.detached;
      ctx_follows = h.ctx_follows;
      weak_follows = h.weak_follows;
    })
IsOwned-run_idle done is s e h =
    let o =
      HasOwner-first (s.worker) done is (s.freed)
        (subst (λ q. HasOwner (s.worker) q (s.freed)) e (h.owned)) in
    subst (λ (t : Install). IsOwned (record (respond t) { freed = (respond t).freed + 1 }))
      (sym (use_ctx-alive (record s { idles = is }) o.0))
      (IsOwned-freed (record s { idles = is }) o.1 o.0 (h.unharmed)
        (h.weak_follows o.0 ∙ sym (h.ctx_follows o.0)))

-- The context of the Node.js install is freed at most once, by the last of its callbacks, and is not
-- used behind that; until then its pointer to the dialog is set exactly while the dialog is there: in
-- whatever order the worker reports and ends, the callbacks run, and the dialog is closed and destroyed.
pub IsOwned-Reachable : {s : Install} → Reachable s → IsOwned s
IsOwned-Reachable at_start = record {
  owned = (refl, refl);
  unharmed = refl;
  detached = λ p. absurd (omega arith);
  ctx_follows = λ e. refl;
  weak_follows = λ e. refl;
}
IsOwned-Reachable (then_step before (reports s r)) =
    IsOwned-report_progress s r (IsOwned-Reachable before)
IsOwned-Reachable (then_step before (ends installed s r)) =
    IsOwned-end_worker installed s r (IsOwned-Reachable before)
IsOwned-Reachable (then_step before (runs i is s e)) =
    IsOwned-run_idle i is s e (IsOwned-Reachable before)
IsOwned-Reachable (then_step before (closes s shown)) =
    let h = IsOwned-Reachable before in
    record {
      owned = h.owned;
      unharmed = h.unharmed;
      detached = h.detached;
      ctx_follows = h.ctx_follows;
      weak_follows = h.weak_follows;
    }
IsOwned-Reachable (then_step before (returns r s shown answered)) =
    IsOwned-destroy_dialog s (IsOwned-Reachable before)
