-- ===== src/NodeRuntime/Install.antt =====
-- Provide of linux/src/node_runtime_manager.cpp: what it reports and does to the files.
use harness_desktop.Base.{
  ℕ, ◌-◌, Bool, true, false, ◌&&◌, List, [], ◌∷◌, ◌++◌, Bytes, codes, length, take, if◌then◌else◌,
}
use harness_desktop.Base.Outcome.{Outcome, ok, ◌>>=◌}
use harness_desktop.Util.Dirs.{cache_dir, get_data_dir}
use harness_desktop.NodeRuntime.{
  Machine, Environment, dist_base, arch_name, install_dir, runtime_available,
}
use harness_desktop.NodeRuntime.Release.{resolve_latest_lts}

-- The reports to onState; a progress is the bytes got and their total, and none of them is -1.
pub data Report : Type 0 where
  downloads installs done fails : Report
  downloading : ℕ → ℕ → Report

-- What Provide does to the files.
pub data Action : Type 0 where
  removes_tree makes_dir removes_file : Bytes → Action
  extracts renames : Bytes → Bytes → Action

-- What Provide asks: the machine before and behind the installation, the text of a URL, whether a
-- download into a file succeeds (HttpGetToFile, with the file that it writes) and its progress, whether tar succeeds, which directories are there
-- behind it, and whether rename succeeds.
pub record Host : Type 0 where
  pub before : Machine
  pub after : Machine
  pub env : Environment
  pub http_text : Bytes → Bytes
  pub http_file : Bytes → Bytes → Bool
  pub progress : List Report
  pub tar_works : Bool
  pub dir_exists : Bytes → Bool
  pub rename_works : Bool

pub record Provided : Type 0 where
  pub returned : Bool
  pub reports : List Report
  pub actions : List Action

-- the name without ".tar.xz"
abbrev pub without_suffix : Bytes → Bytes
without_suffix tarball = take (length tarball - 7) tarball

module _ (h : Host) where
  -- `if (ok)` behind tar: is the runtime moved into place, and with which actions?
  unfoldable pub place : Bytes → Bool × List Action
  unfolding install_dir get_data_dir
  place extracted =
      let target = install_dir (h.before) (h.env) in
      if h.tar_works
      then (if h.dir_exists extracted
          then (
            h.rename_works,
            removes_tree target
                ∷ makes_dir (get_data_dir (h.env) ++ codes "/deepseek-harness")
                ∷ renames extracted target
                ∷ [],
          )
          else (false, []))
      else (false, [])

  -- Provide behind a download
  unfoldable pub install : Bytes → Bytes → Provided
  unfolding place cache_dir runtime_available
  install tarball archive =
      let dir = cache_dir (h.env) ++ codes "/node-extract" in
      let (placed, moves) = place (dir ++ (codes "/" ++ without_suffix tarball)) in
      let ready = placed && runtime_available (h.after) (h.env) in
      record {
        returned = ready;
        reports = installs ∷ (if ready then done else fails) ∷ [];
        actions =
            (removes_tree dir ∷ makes_dir dir ∷ extracts archive dir ∷ [])
            ++ (moves ++ (removes_tree dir ∷ removes_file archive ∷ []));
      }

  -- Provide from `if (!ok)` on
  unfoldable pub after_download : Bool → Provided → Provided
  after_download true installed = record installed {
    reports = downloads ∷ (h.progress ++ installed.reports);
  }
  after_download false installed = record {
    returned = false;
    reports = downloads ∷ (h.progress ++ (fails ∷ []));
    actions = [];
  }

  unfoldable pub tarball_name : Bytes → Bytes
  unfolding arch_name
  tarball_name version =
      codes "node-"
      ++ (version ++ (codes "-linux-" ++ (arch_name (h.before) (h.env) ++ codes ".tar.xz")))

  unfoldable pub archive_path : Bytes → Bytes
  unfolding tarball_name cache_dir
  archive_path version = cache_dir (h.env) ++ (codes "/" ++ tarball_name version)

  unfoldable pub download : Bytes → Provided
  unfolding after_download install archive_path dist_base
  download version =
      let url =
        dist_base (h.before) (h.env)
        ++ (codes "/" ++ (version ++ (codes "/" ++ tarball_name version))) in
      after_download (h.http_file url (archive_path version))
        (install (tarball_name version) (archive_path version))

  -- Provide
  unfoldable pub provide : Outcome Provided
  unfolding download runtime_available resolve_latest_lts dist_base
  provide =
      let index = h.http_text (dist_base (h.before) (h.env) ++ codes "/index.json") in
      if runtime_available (h.before) (h.env)
      then ok (record { returned = true; reports = done ∷ []; actions = [] })
      else resolve_latest_lts index >>= λ version. ok (download version)
