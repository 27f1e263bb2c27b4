-- ===== src/Settings.antt =====
-- linux/src/settings.h and settings.cpp. `env` is getenv.
pub mod Words
pub mod Arguments
mod Examples
use harness_desktop.Base.{
  ℕ, zero, suc, ◌+◌, ◌-◌, ◌*◌, ◌/◌, ◌%◌, Bool, true, false, not, ◌&&◌, ◌||◌, List, [], ◌∷◌, ◌++◌,
  Option, none, some, Bytes, codes, is_empty, bytes_eq, leb, ◌==◌, if◌then◌else◌,
}
use harness_desktop.Util.Dirs.{get_env}
use harness_desktop.Base.Decimal.{decimal}

pub record Settings : Type 0 where
  pub host : Bytes
  pub port : ℕ
  pub command : List Bytes
  pub custom_command : Bool

-- the member initialisers
abbrev pub default_settings : Settings
default_settings = record {
  host = codes "127.0.0.1";
  port = 3080;
  command =
      codes "npx" ∷ codes "--yes" ∷ codes "--verbose" ∷ codes "@deepseek-ai/dsh" ∷ codes "web" ∷ [];
  custom_command = false;
}

-- Settings::Url
unfoldable pub url : Settings → Bytes
unfolding decimal
url s = codes "http://" ++ (s.host ++ (codes ":" ++ (decimal s.port ++ codes "/")))

abbrev pub is_blank : ℕ → Bool
is_blank c = c == b' ' || c == b'\t' || c == b'\n'

-- `if (!cur.empty()) out.push_back(cur)`
abbrev pub flush : Bytes → List Bytes → List Bytes
flush [] out = out
flush (c ∷ cur) out = out ++ ((c ∷ cur) ∷ [])

-- The loop of SplitWhitespace, with its variables `cur` and `out`.
unfoldable pub split_from : Bytes → List Bytes → Bytes → List Bytes
split_from cur out [] = flush cur out
split_from cur out (c ∷ s) =
    let ended = split_from [] (flush cur out) s in
    let grown = split_from (cur ++ (c ∷ [])) out s in if is_blank c then ended else grown

-- SplitWhitespace
unfoldable pub split_whitespace : Bytes → List Bytes
unfolding split_from
split_whitespace s = split_from [] [] s

-- isspace in the C locale
abbrev is_space : ℕ → Bool
is_space c = c == b' ' || (leb 9 c && leb c 13)

-- the digits at the front
unfoldable pub leading_number : ℕ → Bytes → ℕ
leading_number n [] = n
leading_number n (c ∷ s) =
    let more = leading_number (n * 10 + (c - b'0')) s in
    if leb b'0' c && leb c b'9' then more else n

-- `static_cast<unsigned short>` of a number and of its negative
abbrev pub u16 : ℕ → ℕ
u16 n = n % 65536

abbrev pub u16_neg : ℕ → ℕ
u16_neg n = (65536 - n % 65536) % 65536

-- static_cast<unsigned short>(std::atoi(text)): the low 16 bits of the number at the front. For a
-- number outside int, atoi is undefined, and this stands for a result with the right low bits.
unfoldable pub atoi_u16 : Bytes → ℕ
unfolding leading_number
atoi_u16 [] = 0
atoi_u16 (c ∷ s) =
    let later = atoi_u16 s in
    if is_space c
    then later
    else if c == b'-'
    then u16_neg (leading_number 0 s)
    else if c == b'+'
    then u16 (leading_number 0 s)
    else u16 (leading_number 0 (c ∷ s))

-- What Parse does: it returns, or `--help` ends the process.
pub data Parsed : Type 0 where
  configured : Settings → Parsed
  shows_usage : Parsed

abbrev pub with_host : Settings → Bytes → Settings
with_host s v = record s { host = v }

abbrev pub with_port : Settings → Bytes → Settings
with_port s v = record s { port = atoi_u16 v }

abbrev pub with_command : Settings → Bytes → Settings
with_command s v = record s { command = split_whitespace v }

abbrev pub is_help : Bytes → Bool
is_help a = bytes_eq a (codes "--help") || bytes_eq a (codes "-h")

abbrev pub takes_value : Bytes → Bool
takes_value a =
    bytes_eq a (codes "--host") || bytes_eq a (codes "--port") || bytes_eq a (codes "--command")

-- The branches of the loop that read `args[++i]`.
unfoldable pub apply_option : Settings → Bytes → Bytes → Settings
apply_option s a v =
    if bytes_eq a (codes "--host")
    then with_host s v
    else if bytes_eq a (codes "--port")
    then with_port s v
    else record (with_command s v) { custom_command = true }

-- The loop over the arguments. An option at the end, with no value behind it, is skipped.
unfoldable pub parse_args : Settings → List Bytes → Parsed
unfolding apply_option
parse_args s [] = configured s
parse_args s (a ∷ []) =
    if takes_value a then configured s else if is_help a then shows_usage else configured s
parse_args s (a ∷ v ∷ rest) =
    let taken = parse_args (apply_option s a v) rest in
    let skipped = parse_args s (v ∷ rest) in
    if takes_value a then taken else if is_help a then shows_usage else skipped

module _ (env : Bytes → Option Bytes) where
  abbrev from_env : Bytes → (Settings → Bytes → Settings) → Settings → Settings
  from_env name update s = if is_empty (get_env env name) then s else update s (get_env env name)

  -- the three variables, in the order of Parse
  unfoldable pub environment_settings : Settings
  unfolding get_env
  environment_settings = from_env (codes "DSH_WEBVIEW_COMMAND") with_command (
      from_env (codes "DSH_WEBVIEW_PORT") with_port
        (from_env (codes "DSH_WEBVIEW_HOST") with_host default_settings))

  -- Settings::Parse
  unfoldable pub parse : List Bytes → Parsed
  unfolding parse_args environment_settings
  parse args = parse_args environment_settings args
