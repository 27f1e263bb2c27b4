-- ===== src/Window/Reopened.antt =====
-- The settings dialog opened again (OnSettingsActivate of linux/src/main_window.cpp).
use harness_desktop.Base.{◌≡◌, ap, true, some, Bytes}
use harness_desktop.Window.Preferences.{
  Preferences, declared, KeyFiles, load_settings, save_settings,
}
use harness_desktop.Window.Relay.{normalize_relay}
use harness_desktop.Window.SettingsFile.{AreKeyFiles, relay_kept, load_settings-save_settings}
use harness_desktop.Window.Blanks.{normalize_relay-normalize_relay}
use harness_desktop.Window.Controls.{on_settings_activate}

-- What the settings dialog accepts is loaded at the next start, with the declared address in place of an
-- empty one; and the dialog that is opened again and confirmed as it stands changes nothing and writes
-- the same file. The condition is that key files can hold the address and return what was set.
pub on_settings_activate-again :
    (kf : KeyFiles)
    → AreKeyFiles kf
    → (text : Bytes) (p : Preferences) → kf.holds (normalize_relay text) ≡ true
    → (load_settings kf (on_settings_activate kf true text p).1 declared
        ≡ record p { relay = relay_kept (normalize_relay text) })
      × (on_settings_activate kf true
            ((on_settings_activate kf true text p).0.relay)
            (on_settings_activate kf true text p).0
          ≡ on_settings_activate kf true text p)
unfolding on_settings_activate
on_settings_activate-again kf laws text p held =
    let accepted = record p { relay = normalize_relay text } in
    (
      load_settings-save_settings kf laws accepted held,
      ap (λ (r : Bytes). (record p { relay = r }, some (save_settings kf (record p { relay = r }))))
          (normalize_relay-normalize_relay text).1,
    )
