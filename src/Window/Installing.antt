-- ===== src/Window/Installing.antt =====
-- The context of the automatic Node.js install (NodeInstallCtx of linux/src/main_window.cpp), which the
-- dialog of StartNodeAutoInstall, its worker and the idle callbacks share.
use harness_desktop.Base.{
  ℕ, ◌+◌, ◌<◌, ◌≡◌, Bool, true, false, List, [], ◌∷◌, ◌++◌, Option, none, some, ltb, if◌then◌else◌,
}

pub data Response : Type 0 where
  ok reject closed : Response

-- OnNodeInstallProgressIdle and OnNodeInstallDoneIdle, as g_idle_add queues them
pub data Idle : Type 0 where
  progress done : Idle

pub data Worker : Type 0 where
  running ended : Worker

-- The dialog (is it there, the last response to it), the context (its pointer to the dialog, the weak
-- pointer that clears it, the result, how often it was freed, how often it was used behind that), the
-- worker and the idle callbacks in their order.
pub record Install : Type 0 where
  pub shown : Bool
  pub response : Option Response
  pub ctx_dialog : Bool
  pub weak : Bool
  pub result : Bool
  pub freed : ℕ
  pub misuses : ℕ
  pub worker : Worker
  pub idles : List Idle

-- StartNodeAutoInstall up to gtk_dialog_run
abbrev pub start_install : Install
start_install = record {
  shown = true;
  response = none;
  ctx_dialog = true;
  weak = true;
  result = false;
  freed = 0;
  misuses = 0;
  worker = running;
  idles = [];
}

-- a read or a write of the context
unfoldable pub use_ctx : Install → Install
use_ctx s = if ltb 0 (s.freed) then record s { misuses = s.misuses + 1 } else s

-- the worker's calls of g_idle_add in NodeInstallThread
unfoldable pub report_progress : Install → Install
report_progress s = record s { idles = s.idles ++ (progress ∷ []) }

unfoldable pub end_worker : Bool → Install → Install
unfolding use_ctx
end_worker installed s = record (use_ctx s) {
  result = installed;
  worker = ended;
  idles = s.idles ++ (done ∷ []);
}

-- gtk_dialog_response of OnNodeInstallDoneIdle, with the weak pointer removed before it
unfoldable pub respond : Install → Install
respond s =
    if s.ctx_dialog
    then record s { weak = false; response = some (if s.result then ok else reject) }
    else s

-- OnNodeInstallDoneIdle
unfoldable pub on_done_idle : Install → Install
unfolding use_ctx respond
on_done_idle s = let told = respond (use_ctx s) in record told { freed = told.freed + 1 }

unfoldable pub run_idle : Idle → Install → Install
unfolding use_ctx on_done_idle
run_idle progress s = use_ctx s
run_idle done s = on_done_idle s

-- gtk_widget_destroy of StartNodeAutoInstall: a weak pointer that is still there is cleared.
unfoldable pub destroy_dialog : Install → Install
unfolding use_ctx
destroy_dialog s =
    let cleared = record (use_ctx s) { ctx_dialog = false; weak = false; shown = false } in
    if s.weak then cleared else record s { shown = false }

-- What may happen: the worker reports or ends, the main loop runs the first idle callback, the user
-- closes the dialog, and gtk_dialog_run returns behind a response.
pub data Step : Install → Install → Type 0 where
  reports : (s : Install) → s.worker ≡ running → Step s (report_progress s)
  ends : (installed : Bool) (s : Install) → s.worker ≡ running → Step s (end_worker installed s)
  runs :
      (i : Idle) (is : List Idle) (s : Install)
      → s.idles ≡ i ∷ is
      → Step s (run_idle i (record s { idles = is }))
  closes : (s : Install) → s.shown ≡ true → Step s (record s { response = some closed })
  returns :
      (r : Response) (s : Install)
      → s.shown ≡ true
      → s.response ≡ some r
      → Step s (destroy_dialog s)

pub data Reachable : Install → Type 0 where
  at_start : Reachable start_install
  then_step : {s t : Install} → Reachable s → Step s t → Reachable t

abbrev pub only_progress : List Idle → Bool
only_progress [] = true
only_progress (progress ∷ is) = only_progress is
only_progress (done ∷ is) = false

abbrev pub done_last : List Idle → Bool
done_last [] = false
done_last (progress ∷ is) = done_last is
done_last (done ∷ []) = true
done_last (done ∷ i ∷ is) = false

-- Who frees the context: the worker will queue the callback that does, or it is the last in the queue,
-- or it was run and nothing is behind it.
abbrev pub HasOwner : Worker → List Idle → ℕ → Type 0
HasOwner running is freed = (only_progress is ≡ true) × (freed ≡ 0)
HasOwner ended [] freed = freed ≡ 1
HasOwner ended (i ∷ is) freed = (done_last (i ∷ is) ≡ true) × (freed ≡ 0)

-- The context has one owner, it was not used behind its end, and its pointers follow the dialog while
-- it is there.
pub record IsOwned (s : Install) : Type 0 where
  pub owned : HasOwner (s.worker) (s.idles) (s.freed)
  pub unharmed : s.misuses ≡ 0
  pub detached : 0 < s.freed → s.weak ≡ false
  pub ctx_follows : s.freed ≡ 0 → s.ctx_dialog ≡ s.shown
  pub weak_follows : s.freed ≡ 0 → s.weak ≡ s.shown
