-- ===== src/Windows/Arguments.antt =====
-- Settings::Parse of windows/src/settings.cpp, and SplitWhitespace of windows/src/util.cpp. A wide string
-- is the list of its code units.
use harness_desktop.Base.{
  ℕ, ◌+◌, ◌-◌, ◌*◌, ◌%◌, ◌^◌, Bool, true, false, not, ◌&&◌, ◌||◌, ◌==◌, List, [], ◌∷◌, ◌++◌, Option,
  none, some, Bytes, codes, bytes_eq, is_empty, leb, ltb, if◌then◌else◌,
}
use harness_desktop.Base.Decimal.{decimal}

pub record Settings : Type 0 where
  pub host : Bytes
  pub port : ℕ
  pub command : List Bytes
  pub custom_command : Bool

abbrev pub default_command : List Bytes
default_command =
    codes "npx" ∷ codes "--yes" ∷ codes "--verbose" ∷ codes "@deepseek-ai/dsh" ∷ codes "web" ∷ []

abbrev pub default_settings : Settings
default_settings = record {
  host = codes "127.0.0.1";
  port = 3080;
  command = default_command;
  custom_command = false;
}

abbrev pub pushed : Bytes → List Bytes → List Bytes
pushed current tokens = if not (is_empty current) then current ∷ tokens else tokens

-- the loop of SplitWhitespace, with `current`
unfoldable pub tokens_from : Bytes → Bytes → List Bytes
tokens_from current [] = pushed current []
tokens_from current (c ∷ s) =
    let ended = pushed current (tokens_from [] s) in
    let grown = tokens_from (current ++ (c ∷ [])) s in
    if c == b' ' || c == b'\t' then ended else grown

-- SplitWhitespace
unfoldable pub split_whitespace : Bytes → List Bytes
unfolding tokens_from
split_whitespace s = tokens_from [] s

abbrev is_digit : ℕ → Bool
is_digit c = leb b'0' c && leb c b'9'

-- the number at the front, if there is one
unfoldable pub digits_value : ℕ → Bytes → ℕ
digits_value n [] = n
digits_value n (c ∷ s) =
    let more = digits_value (n * 10 + (c - b'0')) s in if is_digit c then more else n

abbrev pub digits : Bytes → Option ℕ
digits [] = none
digits (c ∷ s) = if is_digit c then some (digits_value 0 (c ∷ s)) else none

-- An unsigned long has 32 bits; a greater number throws, and a minus sign is taken modulo 2 ^ 32.
abbrev pub in_range : (ℕ → ℕ) → Option ℕ → Option ℕ
in_range f none = none
in_range f (some n) = if ltb n (2 ^ 32) then some (f n) else none

-- std::stoul; none is an exception.
unfoldable pub stoul : Bytes → Option ℕ
unfolding digits_value
stoul [] = none
stoul (c ∷ s) =
    let later = stoul s in
    if c == b' ' || (leb 9 c && leb c 13)
    then later
    else if c == b'-'
    then in_range (λ n. (2 ^ 32 - n) % 2 ^ 32) (digits s)
    else if c == b'+'
    then in_range (λ n. n) (digits s)
    else in_range (λ n. n) (digits (c ∷ s))

abbrev pub with_port : ℕ → Settings → Settings
with_port v s = if leb v 65535 then record s { port = v } else s

-- the port of the environment: what stoul refuses changes nothing.
abbrev pub env_port : Option ℕ → Settings → Settings
env_port none s = s
env_port (some v) s = with_port v s

unfoldable pub environment_settings : (Bytes → Bytes) → Settings
unfolding stoul split_whitespace
environment_settings get_env =
    let env_host = get_env (codes "DSH_WEBVIEW_HOST") in
    let env_port_text = get_env (codes "DSH_WEBVIEW_PORT") in
    let env_command = get_env (codes "DSH_WEBVIEW_COMMAND") in
    let hosted =
      if not (is_empty env_host)
      then record default_settings { host = env_host }
      else default_settings in
    let ported =
      if not (is_empty env_port_text) then env_port (stoul env_port_text) hosted else hosted in
    if not (is_empty env_command)
    then record ported { command = split_whitespace env_command; custom_command = true }
    else ported

-- How Parse ends: with settings, with the usage text and exit(0), or with an exception.
pub data Parse : Type 0 where
  parsed : Settings → Parse
  shows_usage throws : Parse

abbrev pub port_option : Option ℕ → Settings → Parse
port_option none s = throws
port_option (some v) s = parsed (with_port v s)

-- an argument with the one behind it, if it takes that one
unfoldable pub take_option : Bytes → Bytes → Settings → Option Parse
unfolding stoul split_whitespace bytes_eq
take_option arg value s =
    if bytes_eq arg (codes "--host")
    then some (parsed (record s { host = value }))
    else if bytes_eq arg (codes "--port")
    then some (port_option (stoul value) s)
    else if bytes_eq arg (codes "--command")
    then some (parsed (record s { command = split_whitespace value; custom_command = true }))
    else none

-- an argument that stands alone
unfoldable pub lone_argument : Bytes → Parse
unfolding bytes_eq
lone_argument arg =
    if bytes_eq arg (codes "--help") || bytes_eq arg (codes "-h") then shows_usage else throws

-- the loop on the arguments
unfoldable pub parse_args : List Bytes → Settings → Parse
unfolding take_option lone_argument
parse_args [] s = parsed s
parse_args (arg ∷ []) s = lone_argument arg
parse_args (arg ∷ value ∷ args) s = elim (take_option arg value s) [
  | none ↦ lone_argument arg
  | some p ↦ elim p [ parsed t ↦ parse_args args t | shows_usage ↦ shows_usage | throws ↦ throws ]
]

unfoldable pub same_texts : List Bytes → List Bytes → Bool
unfolding bytes_eq
same_texts [] [] = true
same_texts (s ∷ ss) (t ∷ ts) = bytes_eq s t && same_texts ss ts
same_texts _ _ = false

-- the end of Parse: the default command gets the host and the port.
unfoldable pub completed : Settings → Settings
unfolding same_texts decimal
completed s =
    if not (s.custom_command) && same_texts (s.command) default_command
    then record s {
      command =
          s.command
          ++ (codes "--host" ∷ s.host ∷ codes "--port" ∷ decimal (s.port) ∷ codes "--no-open" ∷ []);
    }
    else s

-- Settings::Parse
unfoldable pub parse : (Bytes → Bytes) → List Bytes → Parse
unfolding environment_settings parse_args completed
parse get_env args = elim (parse_args args (environment_settings get_env)) [
  | parsed s ↦ parsed (completed s)
  | shows_usage ↦ shows_usage
  | throws ↦ throws
]

-- Settings::Url
unfoldable pub url : Settings → Bytes
unfolding decimal
url s = codes "http://" ++ (s.host ++ (b':' ∷ (decimal (s.port) ++ (b'/' ∷ []))))
