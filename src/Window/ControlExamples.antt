-- ===== src/Window/ControlExamples.antt =====
-- The smaller handlers of linux/src/main_window.cpp at concrete inputs.
use harness_desktop.Base.{◌≡◌, refl, true, false, [], ◌∷◌, some, codes, bytes_eq}
use harness_desktop.Window.Preferences.{Preferences, dark, zh, declared, load_settings}
use harness_desktop.Window.Relay.{normalize_relay}
use harness_desktop.Window.SettingsFile.{relay_kept}
use harness_desktop.Window.Controls.{
  exe_dir, before_last_slash, window_icon, icon_candidates, on_settings_activate, press, release,
  copy, send_key, on_edit_activate,
}
use harness_desktop.Window.Reopened.{on_settings_activate-again}
use harness_desktop.Window.Sample.{key_files, key_files-AreKeyFiles}

abbrev before : Preferences
before = record { theme = dark; lang = zh; relay = codes "https://r" }

on_settings_activate-again_example :
    (load_settings key_files
        (on_settings_activate key_files true (codes " r.org ") before).1
        declared
      ≡ record before { relay = relay_kept (normalize_relay (codes " r.org ")) })
    × (on_settings_activate key_files true
          ((on_settings_activate key_files true (codes " r.org ") before).0.relay)
          (on_settings_activate key_files true (codes " r.org ") before).0
        ≡ on_settings_activate key_files true (codes " r.org ") before)
on_settings_activate-again_example =
    on_settings_activate-again key_files key_files-AreKeyFiles (codes " r.org ") before refl

exe_dir_run : exe_dir (some (codes "/opt/dsh/bin/dshwebview")) ≡ codes "/opt/dsh/bin"
unfolding exe_dir before_last_slash
exe_dir_run = refl

exe_dir_bare : exe_dir (some (codes "dshwebview")) ≡ codes "."
unfolding exe_dir before_last_slash
exe_dir_bare = refl

-- An image that cannot be loaded is skipped.
window_icon_run :
    window_icon
      (λ path. true)
      (λ path. bytes_eq path (codes "/d/deepseek-harness.svg"))
      (codes "/d")
      icon_candidates
    ≡ some (codes "/d/deepseek-harness.svg")
unfolding window_icon bytes_eq
window_icon_run = refl

copy_run :
    on_edit_activate (λ keyval. some 54) copy
    ≡ record { kind = press; keyval = b'c'; control = true; shift = false; keycode = 54 }
      ∷ record { kind = release; keyval = b'c'; control = true; shift = false; keycode = 54 }
      ∷ []
unfolding on_edit_activate send_key
copy_run = refl
