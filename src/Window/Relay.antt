-- ===== src/Window/Relay.antt =====
-- The relay address and the pairing data of linux/src/main_window.cpp.
use harness_desktop.Base.{
  ℕ, zero, suc, ◌+◌, ◌-◌, ◌*◌, ◌%◌, ◌^◌, Bool, true, false, not, ◌||◌, ◌&&◌, ◌==◌, List, [], ◌∷◌,
  ◌++◌, Option, none, some, Bytes, codes, is_empty, bytes_eq, starts_with, find?, take, drop,
  length, leb, replicate, if◌then◌else◌,
}
use harness_desktop.Base.Decimal.{decimal}
use harness_desktop.Settings.{split_whitespace}
use harness_desktop.Plugins.Dialog.Rows.{trim, drop_trailing}
use harness_desktop.Window.Lines.{complete_lines}

-- tolower
abbrev pub to_lower : ℕ → ℕ
to_lower c = if leb b'A' c && leb c b'Z' then c + 32 else c

abbrev pub lower_case : Bytes → Bytes
lower_case [] = []
lower_case (c ∷ s) = to_lower c ∷ lower_case s

unfoldable pub is_loopback_host : Bytes → Bool
unfolding bytes_eq starts_with
is_loopback_host host =
    let h = lower_case host in
    bytes_eq h (codes "localhost") || (bytes_eq h (codes "::1") || starts_with (codes "127.") h)

-- what OnSettingsActivate makes of the text of its entry, without the blanks around it
unfoldable pub with_scheme : Bytes → Bytes
unfolding is_loopback_host starts_with
with_scheme raw =
    if not (is_empty raw)
      && (not (starts_with (codes "http://") raw) && not (starts_with (codes "https://") raw))
    then (if is_loopback_host raw then codes "http://" ++ raw else codes "https://" ++ raw)
    else raw

unfoldable pub normalize_relay : Bytes → Bytes
normalize_relay text = with_scheme (trim text)

-- the value of the first bytes of the digest, a byte at a time in 64 bits
unfoldable pub digest_value : ℕ → ℕ → Bytes → ℕ
digest_value zero value digest = value
digest_value (suc n) value [] = value
digest_value (suc n) value (c ∷ digest) = digest_value n ((value * 256 + c) % 2 ^ 64) digest

-- "%013llu"
unfoldable pub padded : ℕ → Bytes
unfolding decimal
padded n = let digits = decimal n in replicate (13 - length digits) b'0' ++ digits

abbrev pub device_seed : Bytes → Option Bytes → Bytes
device_seed host_name none = host_name
device_seed host_name (some machine_id) = host_name ++ (b'|' ∷ machine_id)

-- DeviceID, for the host name, the contents of /etc/machine-id and the SHA-256 in hexadecimal
unfoldable pub device_id : (Bytes → Bytes) → Bytes → Option Bytes → Bytes
unfolding digest_value padded
device_id sha256 host_name machine_id =
    padded (digest_value 8 0 (sha256 (device_seed host_name machine_id)) % 10000000000000)

-- the lines that getline gives
unfoldable pub file_lines : Bytes → List Bytes
unfolding complete_lines
file_lines text = let r = complete_lines [] text in if is_empty r.1 then r.0 else r.0 ++ (r.1 ∷ [])

-- `ss >> iface >> dest >> gw` on the words of a line; what is not there stays empty.
abbrev pub interface_and_destination : List Bytes → Bytes × Bytes
interface_and_destination [] = ([], [])
interface_and_destination (iface ∷ []) = (iface, [])
interface_and_destination (iface ∷ dest ∷ ws) = (iface, dest)

unfoldable pub default_row : List Bytes → Bytes
unfolding bytes_eq split_whitespace
default_row [] = []
default_row (line ∷ ls) =
    let (iface, dest) = interface_and_destination (split_whitespace line) in
    let later = default_row ls in if bytes_eq dest (codes "00000000") then iface else later

abbrev pub behind_header : List Bytes → List Bytes
behind_header [] = []
behind_header (l ∷ ls) = ls

-- DefaultRouteInterface, for the contents of /proc/net/route
unfoldable pub default_route_interface : Option Bytes → Bytes
unfolding file_lines default_row
default_route_interface none = []
default_route_interface (some text) = default_row (behind_header (file_lines text))

-- An entry of getifaddrs: its flags, whether it has an IPv4 address, the address that getnameinfo
-- prints, and its name.
pub record Interface : Type 0 where
  pub is_inet : Bool
  pub is_up : Bool
  pub is_loopback : Bool
  pub is_point_to_point : Bool
  pub address : Option Bytes
  pub name : Bytes

unfoldable pub is_private : Bytes → Bool
unfolding starts_with
is_private s =
    starts_with (codes "192.168.") s
    || (starts_with (codes "10.") s || starts_with (codes "172.") s)

unfoldable pub address_if_private : Option Bytes → Option Bytes
unfolding is_private
address_if_private none = none
address_if_private (some s) = if is_private s then some s else none

-- the address of an entry that the loop does not skip
unfoldable pub candidate : Interface → Option Bytes
unfolding address_if_private
candidate i =
    if not (i.is_inet) || (not (i.is_up) || (i.is_loopback || i.is_point_to_point))
    then none
    else address_if_private (i.address)

abbrev pub first_of : Bytes → Option Bytes → Bytes
first_of fallback none = fallback
first_of fallback (some s) = if is_empty fallback then s else fallback

abbrev pub is_primary : Bytes → Interface → Option Bytes → Bool
is_primary primary i none = false
is_primary primary i (some s) = not (is_empty primary) && bytes_eq (i.name) primary

abbrev pub or_nothing : Option Bytes → Bytes
or_nothing none = []
or_nothing (some s) = s

-- the loop of LocalLANAddress
unfoldable pub lan_address_from : Bytes → Bytes → List Interface → Bytes
unfolding candidate
lan_address_from primary fallback [] = fallback
lan_address_from primary fallback (i ∷ is) =
    let c = candidate i in
    let later = lan_address_from primary (first_of fallback c) is in
    if is_primary primary i c then or_nothing c else later

-- LocalLANAddress, for the interfaces, if they could be read, and the routes
unfoldable pub local_lan_address : Option (List Interface) → Option Bytes → Bytes
unfolding lan_address_from default_route_interface
local_lan_address none routes = []
local_lan_address (some interfaces) routes =
    lan_address_from (default_route_interface routes) [] interfaces

abbrev pub is_digit : ℕ → Bool
is_digit c = leb b'0' c && leb c b'9'

abbrev pub all_digits : Bytes → Bool
all_digits [] = true
all_digits (c ∷ s) = is_digit c && all_digits s

-- the six digits of a new PIN, for the numbers that g_rand_int_range returns
unfoldable pub new_pin : ℕ → ℕ → (ℕ → ℕ) → Bytes
new_pin zero i random = []
new_pin (suc n) i random = (b'0' + random i) ∷ new_pin n (suc i) random

-- StablePairingPin, for the text of the file: the PIN, and what it writes to the file, if it does
unfoldable pub stable_pairing_pin : (ℕ → ℕ) → Bytes → Bytes × Option Bytes
unfolding drop_trailing new_pin
stable_pairing_pin random text =
    let existing = drop_trailing text in
    let pin = new_pin 6 0 random in
    if length existing == 6 && all_digits existing then (existing, none) else (pin, some pin)

-- the text before the first slash
unfoldable pub before_slash : Bytes → Bytes
before_slash [] = []
before_slash (c ∷ s) = let rest = before_slash s in if c == b'/' then [] else c ∷ rest

abbrev pub scheme_and_host : Bytes → Option ℕ → Bytes × Bytes
scheme_and_host url none = (codes "https", url)
scheme_and_host url (some sep) = (take sep url, drop (sep + 3) url)

abbrev pub lan_part : Bytes → Bytes
lan_part lan = if is_empty lan then [] else codes "&lan=" ++ lan

abbrev pub qr_text : Bytes → Bytes → Bytes → Bytes → Bytes
qr_text scheme host id lan =
    codes "relay://"
    ++ (host ++ (codes "/pair?device=" ++ (id ++ (codes "&scheme=" ++ (scheme ++ lan_part lan)))))

-- PairingQRContent
unfoldable pub pairing_qr_content : Bytes → Bytes → Bytes → Bytes
unfolding find? before_slash
pairing_qr_content relay_url id lan =
    let (scheme, host) = scheme_and_host relay_url (find? (codes "://") relay_url) in
    qr_text scheme (before_slash host) id lan

-- FindBridgeScript, for $DSH_BRIDGE_DIR, the directory of the executable and the regular files
unfoldable pub beside_executable : (Bytes → Bool) → Option Bytes → Bytes
beside_executable is_regular none = []
beside_executable is_regular (some dir) =
    if is_regular (dir ++ codes "/bridge/bridge.mjs")
    then dir ++ codes "/bridge/bridge.mjs"
    else if is_regular (dir ++ codes "/../../mobile/bridge/bridge.mjs")
    then dir ++ codes "/../../mobile/bridge/bridge.mjs"
    else []

unfoldable pub find_bridge_script : (Bytes → Bool) → Bytes → Option Bytes → Bytes
unfolding beside_executable
find_bridge_script is_regular bridge_dir exe_dir =
    if not (is_empty bridge_dir) && is_regular (bridge_dir ++ codes "/bridge.mjs")
    then bridge_dir ++ codes "/bridge.mjs"
    else beside_executable is_regular exe_dir
