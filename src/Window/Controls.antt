-- ===== src/Window/Controls.antt =====
-- Smaller handlers of linux/src/main_window.cpp: the window icon, the Edit menu, the settings dialog,
-- the downloads and the texts of the Node.js install.
use harness_desktop.Base.{
  ℕ, ◌+◌, Bool, true, false, not, ◌==◌, List, [], ◌∷◌, ◌++◌, Option, none, some, Bytes, codes,
  if◌then◌else◌,
}
use harness_desktop.Base.Decimal.{decimal}
use harness_desktop.Labels.{utf8_text, choose}
use harness_desktop.Window.Preferences.{Preferences, KeyFiles, save_settings}
use harness_desktop.Window.Relay.{normalize_relay}

-- what stands in front of the last slash, if there is one
unfoldable pub before_last_slash : Bytes → Option Bytes
before_last_slash [] = none
before_last_slash (c ∷ s) = elim (before_last_slash s) [
  | some dir ↦ some (c ∷ dir)
  | none ↦ if c == b'/' then some [] else none
]

abbrev pub dir_of : Option Bytes → Bytes
dir_of none = codes "."
dir_of (some dir) = dir

-- ExeDir, for the target of /proc/self/exe, if it was read
unfoldable pub exe_dir : Option Bytes → Bytes
unfolding before_last_slash
exe_dir none = []
exe_dir (some path) = dir_of (before_last_slash path)

abbrev pub icon_candidates : List Bytes
icon_candidates =
    codes "deepseek-harness.png"
    ∷ codes "/usr/share/icons/hicolor/256x256/apps/deepseek-harness.png"
    ∷ codes "/usr/share/icons/hicolor/scalable/apps/deepseek-harness.svg"
    ∷ codes "deepseek-harness.svg"
    ∷ []

abbrev pub icon_path : Bytes → Bytes → Bytes
icon_path dir [] = dir ++ (b'/' ∷ [])
icon_path dir (c ∷ s) = if c == b'/' then c ∷ s else dir ++ (b'/' ∷ c ∷ s)

-- ApplyWindowIcon: the file of the default icon, for the files that are there and those that can be
-- loaded; none is the icon of the theme.
unfoldable pub window_icon : (Bytes → Bool) → (Bytes → Bool) → Bytes → List Bytes → Option Bytes
window_icon exists loads dir [] = none
window_icon exists loads dir (candidate ∷ candidates) =
    let path = icon_path dir candidate in
    let later = window_icon exists loads dir candidates in
    if not (exists path) then later else if not (loads path) then later else some path

-- The Edit menu
pub data EditAction : Type 0 where
  undo redo cut copy paste select_all : EditAction

pub data KeyKind : Type 0 where
  press release : KeyKind

pub record KeyEvent : Type 0 where
  pub kind : KeyKind
  pub keyval : ℕ
  pub control : Bool
  pub shift : Bool
  pub keycode : ℕ

abbrev pub keycode_or_zero : Option ℕ → ℕ
keycode_or_zero none = 0
keycode_or_zero (some code) = code

-- SendKey, for the keycodes of the keymap: the events that the web view gets
unfoldable pub send_key : (ℕ → Option ℕ) → ℕ → Bool → Bool → List KeyEvent
send_key keymap keyval control shift =
    let pressed : KeyEvent = record {
      kind = press;
      keyval = keyval;
      control = control;
      shift = shift;
      keycode = keycode_or_zero (keymap keyval);
    } in
    pressed ∷ record pressed { kind = release } ∷ []

-- OnEditActivate, if there is a web view; the keyval of a small letter is its code.
unfoldable pub on_edit_activate : (ℕ → Option ℕ) → EditAction → List KeyEvent
unfolding send_key
on_edit_activate keymap undo = send_key keymap b'z' true false
on_edit_activate keymap redo = send_key keymap b'z' true true
on_edit_activate keymap cut = send_key keymap b'x' true false
on_edit_activate keymap copy = send_key keymap b'c' true false
on_edit_activate keymap paste = send_key keymap b'v' true false
on_edit_activate keymap select_all = send_key keymap b'a' true false

-- OnSettingsActivate behind its dialog: was it accepted, and the text of the entry. The text that is
-- written to settings.conf, if it is.
unfoldable pub on_settings_activate :
    (kf : KeyFiles) → Bool → Bytes → Preferences → Preferences × Option (kf.Text)
unfolding normalize_relay save_settings
on_settings_activate kf accepted text p =
    let changed = record p { relay = normalize_relay text } in
    if not accepted then (p, none) else (changed, some (save_settings kf changed))

-- What OnDecideDestination does with the download, for the response to its dialog, the file name that
-- was chosen, if there is one, and its address.
pub data Destination : Type 0 where
  saved_to : Bytes → Destination
  undecided cancelled : Destination

abbrev pub destination_of : Option Bytes → Destination
destination_of none = undecided
destination_of (some uri) = saved_to uri

abbrev pub chosen_destination : (Bytes → Option Bytes) → Option Bytes → Destination
chosen_destination to_uri none = undecided
chosen_destination to_uri (some filename) = destination_of (to_uri filename)

unfoldable pub on_decide_destination : Bool → (Bytes → Option Bytes) → Option Bytes → Destination
on_decide_destination accepted to_uri filename =
    if accepted then chosen_destination to_uri filename else cancelled

-- A progress bar: its fraction, its text, and whether its box is there.
pub record ProgressBar (D : Type 0) : Type 0 where
  pub fraction : D
  pub text : Bytes
  pub visible : Bool

-- The doubles that the handlers use: 1.0, `f >= 0`, "%.0f%%" of f * 100.0, and (int)(f * 100 + 0.5).
pub record Fractions (D : Type 0) : Type 0 where
  pub one : D
  pub is_known : D → Bool
  pub percent_text : D → Bytes
  pub percent : D → ℕ

-- the members that OnNodeInstallProgressIdle changes, with the pulses of its bar
pub record InstallDialog (D : Type 0) : Type 0 where
  pub label : Bytes
  pub bar : ProgressBar D
  pub pulses : ℕ

-- NodeRuntimeManager::State
pub data InstallState : Type 0 where
  downloading installing done failed : InstallState

module _ {D : Type 0} (d : Fractions D) where
  -- OnDownloadProgress, OnDownloadFinished and OnDownloadFailed
  unfoldable pub on_download_progress : D → ProgressBar D → ProgressBar D
  on_download_progress progress bar = record {
    fraction = progress;
    text = d.percent_text progress;
    visible = true;
  }

  unfoldable pub on_download_finished : Bool → ProgressBar D → ProgressBar D
  unfolding choose
  on_download_finished zh bar = record bar {
    fraction = d.one;
    text = choose zh "下载完成 / Done" "Done";
  }

  unfoldable pub on_download_failed : ProgressBar D → ProgressBar D
  on_download_failed bar = record bar { visible = false }

  unfoldable pub download_text : ℕ → Bytes
  unfolding utf8_text decimal
  download_text percent =
      utf8_text "正在下载 Node.js（"
      ++ (decimal percent
          ++ (utf8_text "%）… / Downloading Node.js (" ++ (decimal percent ++ utf8_text "%)…")))

  -- OnNodeInstallProgressIdle
  unfoldable pub on_install_progress : InstallState → D → InstallDialog D → InstallDialog D
  unfolding download_text utf8_text
  on_install_progress downloading fraction s =
      if d.is_known fraction
      then record s {
        label = download_text (d.percent fraction);
        bar = record s.bar { fraction = fraction };
      }
      else record s {
        label = utf8_text "正在下载 Node.js… / Downloading Node.js…";
        pulses = s.pulses + 1;
      }
  on_install_progress installing fraction s = record s {
    label = utf8_text "正在安装 Node.js… / Installing Node.js…";
    bar = record s.bar { fraction = d.one; text = [] };
  }
  on_install_progress _ fraction s = s
