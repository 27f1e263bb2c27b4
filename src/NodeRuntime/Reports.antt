-- ===== src/NodeRuntime/Reports.antt =====
-- What Provide (linux/src/node_runtime_manager.cpp) reports at its end, and what it leaves.
use harness_desktop.Base.{
  ◌≡◌, refl, Bool, true, false, ◌||◌, List, [], ◌∷◌, ◌++◌, Option, some, none, Bytes, codes, arith,
  if◌then◌else◌, Bool-cases, inl, inr,
}
use harness_desktop.Base.Outcome.{Ends, holds, Ends-bind}
use harness_desktop.NodeRuntime.{runtime_available, dist_base}
use harness_desktop.NodeRuntime.Rounds.{resolve_latest_lts-Ends}
use harness_desktop.NodeRuntime.Install.{
  Report, tarball_name, archive_path, done, fails, downloads, Host, Provided, install,
  after_download, download, provide,
}

abbrev pub last_report : List Report → Option Report
last_report [] = none
last_report (r ∷ []) = some r
last_report (r ∷ q ∷ rs) = last_report (q ∷ rs)

-- The last report says what was returned, and success means that the runtime was there before or is
-- there afterwards.
pub record IsReported (h : Host) (p : Provided) : Type 0 where
  pub last : last_report (p.reports) ≡ some (if p.returned then done else fails)
  pub usable :
      p.returned ≡ true
      → (runtime_available (h.before) (h.env) || runtime_available (h.after) (h.env)) ≡ true

last_report-append :
    (rs : List Report) (q : Report) (qs : List Report)
    → last_report (rs ++ (q ∷ qs)) ≡ last_report (q ∷ qs)
last_report-append [] q qs = refl
last_report-append (r ∷ []) q qs = refl
last_report-append (r ∷ s ∷ rs) q qs = last_report-append (s ∷ rs) q qs

module _ (h : Host) where
  usable-install :
      (tarball archive : Bytes)
      → (install h tarball archive).returned ≡ true
      → (runtime_available (h.before) (h.env) || runtime_available (h.after) (h.env)) ≡ true
  unfolding install
  usable-install tarball archive e = ground arith

  last_report-behind :
      (rs : List Report) (q : Report) (qs : List Report)
      → last_report (downloads ∷ (rs ++ (q ∷ qs))) ≡ last_report (q ∷ qs)
  last_report-behind rs q qs = last_report-append (downloads ∷ rs) q qs

  IsReported-after_download :
      (b : Bool) (tarball archive : Bytes)
      → IsReported h (after_download h b (install h tarball archive))
  unfolding after_download install
  IsReported-after_download true tarball archive = record {
    last = last_report-behind (h.progress) _ _;
    usable = usable-install tarball archive;
  }
  IsReported-after_download false tarball archive = record {
    last = last_report-behind (h.progress) fails [];
    usable = λ e. cc;
  }

  IsReported-download : (version : Bytes) → IsReported h (download h version)
  unfolding download
  IsReported-download version =
      IsReported-after_download _ (tarball_name h version) (archive_path h version)

  -- Provide returns; its last report is that it is done if it returns true and that it failed if not,
  -- and it returns true only if a runtime is found before it or behind the installation.
  pub provide-Ends : Ends (IsReported h) (provide h)
  unfolding provide
  provide-Ends = elim (Bool-cases (runtime_available (h.before) (h.env))) [
    | inl e ↦ rw (e, provide) (holds (record { last = refl; usable = λ q. rw e refl }))
    | inr e ↦
        rw (e, provide)
          (Ends-bind _
            (resolve_latest_lts-Ends
              (h.http_text (dist_base (h.before) (h.env) ++ codes "/index.json")))
            λ version q. holds (IsReported-download version))
  ]
