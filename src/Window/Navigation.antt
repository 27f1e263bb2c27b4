-- ===== src/Window/Navigation.antt =====
-- Navigation of the web view in linux/src/main_window.cpp: IsAppUrl, OpenExternal, the policy
-- callbacks, and the first page (NavigateToDshWithAuth and its grace period).
use harness_desktop.Base.{
  ℕ, zero, ◌-◌, suc, Bool, true, false, not, ◌||◌, ◌&&◌, ◌==◌, [], ◌∷◌, ◌++◌, Option, none, some,
  Bytes, codes, is_empty, bytes_eq, starts_with, length, drop, ltb, if◌then◌else◌,
}
use harness_desktop.Base.Decimal.{decimal}

-- the origin of the dsh server
unfoldable pub app_prefix : Bytes → ℕ → Bytes
unfolding decimal
app_prefix host port = codes "http://" ++ (host ++ (b':' ∷ decimal port))

abbrev pub is_delimiter : ℕ → Bool
is_delimiter c = c == b'/' || (c == b'?' || c == b'#')

-- the test of IsAppUrl on what stands behind the prefix
unfoldable pub ends_origin : Bytes → Bool
ends_origin [] = true
ends_origin (c ∷ s) = is_delimiter c

-- IsAppUrl, for settings_->host and ActivePort()
unfoldable pub is_app_url : Bytes → ℕ → Bytes → Bool
unfolding app_prefix ends_origin starts_with
is_app_url host port uri =
    if not (starts_with (app_prefix host port) uri)
    then false
    else ends_origin (drop (length (app_prefix host port)) uri)

-- lastExternalOpened_ and lastExternalOpenedUs_
pub record Opener : Type 0 where
  pub last : Bytes
  pub last_us : ℕ

-- OpenExternal at the time `now`, and the address that it hands to the default browser
unfoldable pub open_external : ℕ → Bytes → Opener → Opener × Option Bytes
unfolding bytes_eq
open_external now uri o =
    if bytes_eq uri (o.last) && ltb (now - o.last_us) 2000000
    then (o, none)
    else (record { last = uri; last_us = now }, some uri)

-- A policy decision with its address, if it has one.
pub data Request : Type 0 where
  navigation new_window : Option Bytes → Request
  response : Request

pub record Decision : Type 0 where
  pub used : Bool
  pub opener : Opener
  pub launched : Option Bytes

-- OnDecidePolicy
module _ (host : Bytes) (port : ℕ) where
  unfoldable pub decide_navigation : ℕ → Option Bytes → Opener → Decision
  unfolding is_app_url open_external
  decide_navigation now none o = record { used = true; opener = o; launched = none }
  decide_navigation now (some uri) o =
      if not (is_empty uri) && not (is_app_url host port uri)
      then record {
        used = false;
        opener = (open_external now uri o).0;
        launched = (open_external now uri o).1;
      }
      else record { used = true; opener = o; launched = none }

  unfoldable pub on_decide_policy : ℕ → Request → Opener → Decision
  unfolding decide_navigation
  on_decide_policy now (navigation uri) o = decide_navigation now uri o
  on_decide_policy now (new_window uri) o = record { used = false; opener = o; launched = none }
  on_decide_policy now response o = record { used = true; opener = o; launched = none }

-- OnCreateWebView; no second view is made.
unfoldable pub on_create_web_view : ℕ → Option Bytes → Opener → Opener × Option Bytes
unfolding open_external
on_create_web_view now none o = (o, none)
on_create_web_view now (some uri) o =
    if not (is_empty uri) then open_external now uri o else (o, none)

-- OnLoadChanged and OnLoadFailed on the loading overlay
pub data LoadEvent : Type 0 where
  started redirected committed finished : LoadEvent

unfoldable pub on_load_changed : LoadEvent → Bool → Bool
on_load_changed started overlay = true
on_load_changed finished overlay = false
on_load_changed _ overlay = overlay

unfoldable pub on_load_failed : Bool → Bool
on_load_failed overlay = false

-- the address that NavigateToDsh loads
unfoldable pub dsh_url : Bytes → ℕ → Bytes → Bytes
unfolding app_prefix
dsh_url host port auth_url =
    if is_empty auth_url then app_prefix host port ++ (b'/' ∷ []) else auth_url

-- NavigateToDshWithAuth: the address that it loads, or none if it waits
unfoldable pub navigate_with_auth : Bytes → ℕ → Bool → Bytes → Option Bytes
unfolding dsh_url
navigate_with_auth host port spawned_child auth_url =
    if is_empty auth_url && spawned_child then none else some (dsh_url host port auth_url)

-- NavigateGraceTick: the address that it loads if it is the last tick, and the tries behind it
unfoldable pub grace_tick : Bytes → ℕ → Bytes → ℕ → Option Bytes × ℕ
unfolding dsh_url
grace_tick host port auth_url tries =
    if not (is_empty auth_url)
    then (some (dsh_url host port auth_url), tries)
    else if ltb 20 (suc tries)
    then (some (dsh_url host port auth_url), suc tries)
    else (none, suc tries)

-- the tick at which a page is loaded, and its address
abbrev pub at_tick : ℕ → Option Bytes → Option (ℕ × Bytes) → Option (ℕ × Bytes)
at_tick i none rest = rest
at_tick i (some url) rest = some (i, url)

-- The ticks of the timer; `auth_at i` is authUrl_ at the i-th of them. The first argument is fuel.
unfoldable pub grace_ticks : Bytes → ℕ → (ℕ → Bytes) → ℕ → ℕ → ℕ → Option (ℕ × Bytes)
unfolding grace_tick
grace_ticks host port auth_at zero i tries = none
grace_ticks host port auth_at (suc fuel) i tries =
    let ticked = grace_tick host port (auth_at i) tries in
    let rest = grace_ticks host port auth_at fuel (suc i) ticked.1 in at_tick i ticked.0 rest
