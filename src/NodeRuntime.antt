-- ===== src/NodeRuntime.antt =====
-- linux/src/node_runtime_manager.cpp: the region, the directories, and the search for a runtime.
pub mod SearchPath
pub mod Release
pub mod Rounds
pub mod Install
pub mod Reports
mod Examples
use harness_desktop.Base.{
  ℕ, Bool, true, false, ◌&&◌, ◌||◌, [], ◌∷◌, ◌++◌, Option, none, some, Bytes, codes, is_empty,
  bytes_eq, contains, if◌then◌else◌, ◌==◌,
}
use harness_desktop.Util.Dirs.{get_env, get_data_dir}

-- What the functions ask the operating system, apart from the environment: the link
-- /etc/localtime, the text of /etc/timezone, the machine that uname names, whether a program is
-- found in a PATH, and whether a path is a regular file.
pub record Machine : Type 0 where
  pub localtime : Option Bytes
  pub timezone_file : Bytes
  pub uname : Option Bytes
  pub finds_program : Bytes → Bytes → Bool
  pub file_exists : Bytes → Bool

abbrev pub Environment : Type 0
Environment = Bytes → Option Bytes

-- setenv(name, value, 1)
abbrev pub set_env : Bytes → Bytes → Environment → Environment
set_env name value env other = if bytes_eq other name then some value else env other

-- isChina of IsMainlandChina
unfoldable pub is_china : Bytes → Bool
unfolding contains
is_china s =
    contains (codes "Asia/Shanghai") s
    || contains (codes "Asia/Chongqing") s
    || contains (codes "Asia/Urumqi") s

-- The loop that drops line ends from the end of the text.
unfoldable pub drop_line_ends : Bytes → Bytes
drop_line_ends [] = []
drop_line_ends (c ∷ s) =
    let rest = drop_line_ends s in
    if is_empty rest && (c == b'\n' || c == b'\r') then [] else c ∷ rest

module _ (m : Machine) (env : Environment) where
  -- IsMainlandChina
  unfoldable pub is_mainland_china : Bool
  unfolding is_china drop_line_ends get_env
  is_mainland_china =
      let tzfile = drop_line_ends (m.timezone_file) in
      if is_empty (get_env env (codes "TZ"))
      then (elim (m.localtime) [
        | some link ↦ is_china link
        | none ↦ if is_empty tzfile then false else is_china tzfile
      ])
      else is_china (get_env env (codes "TZ"))

  -- DistBase
  unfoldable pub dist_base : Bytes
  unfolding is_mainland_china
  dist_base =
      if is_mainland_china
      then codes "https://registry.npmmirror.com/-/binary/node"
      else codes "https://nodejs.org/dist"

  -- NpmRegistryUrl
  unfoldable pub npm_registry_url : Bytes
  unfolding is_mainland_china
  npm_registry_url =
      if is_mainland_china
      then codes "https://registry.npmmirror.com"
      else codes "https://registry.npmjs.org"

  -- ArchName
  unfoldable pub arch_name : Bytes
  unfolding bytes_eq
  arch_name = elim (m.uname) [
    | none ↦ codes "x64"
    | some u ↦
        if bytes_eq u (codes "x86_64") || bytes_eq u (codes "amd64")
        then codes "x64"
        else if bytes_eq u (codes "aarch64") || bytes_eq u (codes "arm64")
        then codes "arm64"
        else codes "x64"
  ]

  -- InstallDir
  unfoldable pub install_dir : Bytes
  unfolding get_data_dir
  install_dir = get_data_dir env ++ codes "/deepseek-harness/nodejs"

  -- BinDir
  unfoldable pub bin_dir : Bytes
  unfolding install_dir
  bin_dir = install_dir ++ codes "/bin"

  -- RuntimeAvailable
  unfoldable pub runtime_available : Bool
  unfolding bin_dir get_env
  runtime_available =
      if m.finds_program (get_env env (codes "PATH")) (codes "npx")
      then true
      else if m.finds_program (get_env env (codes "PATH")) (codes "node")
      then true
      else m.file_exists (bin_dir ++ codes "/npx") && m.file_exists (bin_dir ++ codes "/node")

-- The loop of EnsureOnPath: is `bin` among the entries that colons separate? `entry` is what was
-- read of the current one.
unfoldable pub has_entry : Bytes → Bytes → Bytes → Bool
has_entry bin entry [] = bytes_eq entry bin
has_entry bin entry (c ∷ s) =
    let next = has_entry bin [] s in
    let same = has_entry bin (entry ++ (c ∷ [])) s in
    if c == b':' then bytes_eq entry bin || next else same

-- EnsureOnPath. BinDir is never empty, so the early return for that does not occur.
unfoldable pub ensure_on_path : Machine → Environment → Environment
unfolding has_entry bin_dir get_env
ensure_on_path m env =
    let path = get_env env (codes "PATH") in
    if has_entry (bin_dir m env) [] path
    then env
    else set_env (codes "PATH") (bin_dir m env ++ (b':' ∷ path)) env
