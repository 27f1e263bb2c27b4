-- ===== src/Window/Bridge.antt =====
-- The relay bridge of linux/src/main_window.cpp: the process that OnMobileRemoteActivate starts, its
-- events and its registration timer.
use harness_desktop.Base.{
  ℕ, ◌+◌, Bool, true, false, not, ◌==◌, List, [], ◌∷◌, ◌++◌, Option, none, some, Bytes, codes,
  is_empty, bytes_eq, find?, take, drop, length, ltb, if◌then◌else◌,
}
use harness_desktop.Base.Decimal.{decimal}
use harness_desktop.Window.Lines.{complete_lines}
use harness_desktop.Window.Relay.{pairing_qr_content}

-- The members that the bridge uses. An id or a process of 0 is none; `timers` are the registration
-- timers that are pending in the main loop, and `token` is the text of the hosttoken file.
pub record Bridge : Type 0 where
  pub pid : ℕ
  pub buffer : Bytes
  pub registered : Bool
  pub timeout_id : ℕ
  pub device_id : Bytes
  pub qr_png : Bytes
  pub timers : List ℕ
  pub token : Bytes

-- What the handlers show and do outside the window.
pub data Effect : Type 0 where
  shows_pairing : Bytes → Bytes → Bytes → Effect
  shows_error asks_settings : Effect
  terminates : ℕ → Effect
  spawns : List Bytes → Effect

-- the text before a quote, if there is one
unfoldable pub before_quote : Bytes → Option Bytes
unfolding find?
before_quote s = elim (find? (codes "\"") s) [ none ↦ none | some n ↦ some (take n s) ]

abbrev pub text_of : Option Bytes → Bytes
text_of none = []
text_of (some s) = s

-- the function `fieldOf`
unfoldable pub field_of : Bytes → Bytes → Bytes
unfolding find? before_quote
field_of line key =
    let needle = codes "\"" ++ (key ++ codes "\":\"") in
    elim (find? needle line) [
      | none ↦ []
      | some pos ↦ text_of (before_quote (drop (pos + length needle) line))
    ]

abbrev pub without_timer : ℕ → List ℕ → List ℕ
without_timer id [] = []
without_timer id (t ∷ ts) = if t == id then without_timer id ts else t ∷ without_timer id ts

-- `registered_ = true`, and g_source_remove of the registration timer
unfoldable pub register : Bridge → Bridge
register b =
    if ltb 0 (b.timeout_id)
    then record b {
      registered = true;
      timers = without_timer (b.timeout_id) (b.timers);
      timeout_id = 0;
    }
    else record b { registered = true }

unfoldable pub keep_token : Bytes → Bridge → Bridge
keep_token token b = if not (is_empty token) then record b { token = token } else b

-- A line of the bridge's output, with what StablePairingPin returns.
unfoldable pub on_line : Bytes → Bytes → Bridge → Bridge × List Effect
on_line stable_pin line b =
    let event = field_of line (codes "event") in
    let ready = register b in
    if is_empty line
    then (b, [])
    else if bytes_eq event (codes "registered")
    then (
      keep_token (field_of line (codes "hostToken")) ready,
      shows_pairing (field_of line (codes "pin")) (b.device_id) (b.qr_png) ∷ [],
    )
    else if bytes_eq event (codes "online")
    then (ready, shows_pairing stable_pin (b.device_id) (b.qr_png) ∷ [])
    else (b, [])

-- one part behind another
abbrev pub and_then : Bridge × List Effect → (Bridge → Bridge × List Effect) → Bridge × List Effect
and_then r f = ((f r.0).0, r.1 ++ (f r.0).1)

unfoldable pub on_lines : Bytes → List Bytes → Bridge → Bridge × List Effect
unfolding on_line
on_lines stable_pin [] b = (b, [])
on_lines stable_pin (l ∷ ls) b =
    let first = on_line stable_pin l b in
    let others = on_lines stable_pin ls first.0 in (others.0, first.1 ++ others.1)

-- what `bridgeBuffer_ += buf` appends: the C string ends at a null byte.
unfoldable pub c_string : Bytes → Bytes
c_string [] = []
c_string (c ∷ s) = let rest = c_string s in if c == 0 then [] else c ∷ rest

-- OnBridgeOutput behind a read that got bytes
unfoldable pub on_bridge_output : Bytes → Bytes → Bridge → Bridge × List Effect
on_bridge_output stable_pin chunk b =
    let r = complete_lines [] (b.buffer ++ c_string chunk) in
    on_lines stable_pin r.0 (record b { buffer = r.1 })

-- OnBridgeExit
unfoldable pub on_bridge_exit : ℕ → Bridge → Bridge
on_bridge_exit pid b = if b.pid == pid then record b { pid = 0 } else b

-- StopMobileBridge
unfoldable pub stop_mobile_bridge : Bridge → List Effect
stop_mobile_bridge b = if ltb 0 (b.pid) then terminates (b.pid) ∷ [] else []

abbrev pub token_arguments : Bytes → List Bytes
token_arguments token = if not (is_empty token) then codes "--host-token" ∷ token ∷ [] else []

-- What StartMobileBridge finds: the script, the program node, the configured port, the PIN and the
-- address with a token, and the process that is spawned, if it is.
pub record Launch : Type 0 where
  pub script : Bytes
  pub node : Bytes
  pub port : ℕ
  pub pin : Bytes
  pub auth_url : Bytes
  pub spawned : Option ℕ

unfoldable pub bridge_command : Launch → Bytes → Bytes → Bytes → List Bytes
unfolding decimal
bridge_command l relay id token =
    (l.node)
    ∷ (l.script)
    ∷ codes "--relay"
    ∷ relay
    ∷ codes "--dsh-port"
    ∷ decimal (l.port)
    ∷ codes "--device-id"
    ∷ id
    ∷ codes "--pin"
    ∷ (l.pin)
    ∷ codes "--dsh-url"
    ∷ (l.auth_url)
    ∷ token_arguments token

abbrev pub launched : List Bytes → Option ℕ → Bridge → Bridge × List Effect
launched command none b = (b, shows_error ∷ [])
launched command (some pid) b = (record b { pid = pid; buffer = [] }, spawns command ∷ [])

-- StartMobileBridge
unfoldable pub start_mobile_bridge : Launch → Bytes → Bytes → Bridge → Bridge × List Effect
unfolding bridge_command
start_mobile_bridge l relay id b =
    if is_empty (l.script)
    then (b, shows_error ∷ [])
    else if is_empty (l.node)
    then (b, shows_error ∷ [])
    else launched (bridge_command l relay id (b.token)) (l.spawned) b

abbrev pub with_port : Bytes → Bytes
with_port lan = if not (is_empty lan) then lan ++ codes ":13080" else lan

-- OnMobileRemoteActivate, for the device ID and the LAN address, the drawing of the QR code, and the id
-- of the new timer
unfoldable pub on_mobile_remote_activate :
    Launch → (Bytes → Bytes) → Bytes → Bytes → Bytes → ℕ → Bridge → Bridge × List Effect
unfolding stop_mobile_bridge pairing_qr_content start_mobile_bridge
on_mobile_remote_activate l draw relay id lan timer b =
    let png = draw (pairing_qr_content relay id (with_port lan)) in
    if ltb 0 (b.pid)
    then (b, stop_mobile_bridge b)
    else if is_empty relay
    then (b, asks_settings ∷ [])
    else if is_empty png
    then (b, shows_error ∷ [])
    else start_mobile_bridge l relay id (record b {
      device_id = id;
      qr_png = png;
      registered = false;
      timeout_id = timer;
      timers = timer ∷ b.timers;
    })

-- A registration timer fires, and is removed.
unfoldable pub on_register_timeout : ℕ → Bridge → Bridge × List Effect
unfolding stop_mobile_bridge
on_register_timeout id b =
    let fired = record b { timers = without_timer id (b.timers) } in
    if b.registered then (fired, []) else (fired, stop_mobile_bridge b ++ (shows_error ∷ []))
