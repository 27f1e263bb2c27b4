-- ===== src/NodeRuntime/Examples.antt =====
-- The theorems on linux/src/node_runtime_manager.cpp at concrete inputs.
use harness_desktop.Base.{◌≡◌, refl, false, [], some, none, codes, bytes_eq, if◌then◌else◌}
use harness_desktop.Base.{Bytes, find?, starts_with, true}
use harness_desktop.Base.Outcome.{ok, Ends}
use harness_desktop.Update.Extract.{has_quote}
use harness_desktop.NodeRuntime.Release.{resolve_latest_lts}
use harness_desktop.NodeRuntime.Install.{Host, provide}
use harness_desktop.NodeRuntime.Reports.{IsReported, provide-Ends}
use harness_desktop.NodeRuntime.Rounds.{resolve_latest_lts-Ends}
use harness_desktop.Util.Dirs.{get_env}
use harness_desktop.NodeRuntime.{Machine, Environment, bin_dir}
use harness_desktop.NodeRuntime.SearchPath.{has_colon}

abbrev machine : Machine
machine = record {
  localtime = some (codes "/usr/share/zoneinfo/Asia/Shanghai");
  timezone_file = [];
  uname = some (codes "aarch64");
  finds_program = λ path name. false;
  file_exists = λ path. false;
}

abbrev environment : Environment
environment name = if bytes_eq name (codes "PATH") then some (codes "/bin:/usr/bin") else none

no_colon : has_colon (bin_dir machine environment) ≡ false
unfolding bin_dir get_env bytes_eq
no_colon = refl

abbrev index : Bytes
index = codes "[{\"version\":\"v23\",\"lts\":false},{\"version\":\"v22\",\"lts\": \"Jod\"}]"

resolve_run : resolve_latest_lts index ≡ ok (codes "v22")
unfolding resolve_latest_lts find? starts_with
resolve_run = refl

resolve_latest_lts-Ends_example : Ends (λ v. has_quote v ≡ false) (resolve_latest_lts index)
resolve_latest_lts-Ends_example = resolve_latest_lts-Ends index

-- The runtime is found behind the installation.
abbrev host : Host
host = record {
  before = machine;
  after = record machine { finds_program = λ path name. true };
  env = environment;
  http_text = λ url. index;
  http_file = λ url path. true;
  progress = [];
  tar_works = true;
  dir_exists = λ path. true;
  rename_works = true;
}

provide-Ends_example : Ends (IsReported host) (provide host)
provide-Ends_example = provide-Ends host
