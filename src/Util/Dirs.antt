-- ===== src/Util/Dirs.antt =====
-- The directories that the shell uses: GetEnv, ConfigDir and GetDataDir of linux/src/util.cpp,
-- LogPath of linux/src/server_manager.cpp, CacheDir of linux/src/node_runtime_manager.cpp. `env` is
-- getenv; to create a directory (EnsureDir) is left to the operating system.
use harness_desktop.Base.{[], ◌++◌, Option, none, some, Bytes, codes, is_empty, if◌then◌else◌}

module _ (env : Bytes → Option Bytes) where
  -- GetEnv: an unset variable is empty.
  unfoldable pub get_env : Bytes → Bytes
  get_env name = elim (env name) [ none ↦ [] | some v ↦ v ]

  abbrev home_with : Bytes → Bytes → Bytes
  home_with home suffix = if is_empty home then home else home ++ suffix

  abbrev or_tmp : Bytes → Bytes
  or_tmp base = if is_empty base then codes "/tmp" else base

  -- `base` in each of these: the variable, else HOME with a suffix, else /tmp.
  unfoldable pub base_dir : Bytes → Bytes → Bytes
  unfolding get_env
  base_dir variable suffix = or_tmp (
      if is_empty (get_env variable)
      then home_with (get_env (codes "HOME")) suffix
      else get_env variable)

  unfoldable pub config_dir : Bytes
  unfolding base_dir
  config_dir = base_dir (codes "XDG_CONFIG_HOME") (codes "/.config") ++ codes "/deepseek-harness"

  unfoldable pub get_data_dir : Bytes
  unfolding base_dir
  get_data_dir = base_dir (codes "XDG_DATA_HOME") (codes "/.local/share")

  unfoldable pub cache_dir : Bytes
  unfolding base_dir
  cache_dir = base_dir (codes "XDG_CACHE_HOME") (codes "/.cache") ++ codes "/deepseek-harness"

  unfoldable pub log_path : Bytes
  unfolding base_dir
  log_path =
      base_dir (codes "XDG_CACHE_HOME") (codes "/.cache")
      ++ codes "/deepseek-harness/dsh-server.log"

  unfoldable pub log_err_path : Bytes
  unfolding log_path
  log_err_path = log_path ++ codes ".err"
