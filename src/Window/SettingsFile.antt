-- ===== src/Window/SettingsFile.antt =====
-- LoadSettings behind SaveSettings (linux/src/main_window.cpp).
use harness_desktop.Base.{
  ◌≡◌, refl, ap, ◌∙◌, not, true, ◌&&◌, Bool, [], ◌∷◌, leb, some, Bytes, codes, is_empty, bytes_eq,
  if◌then◌else◌,
}
use harness_desktop.Window.Preferences.{
  Theme, Lang, light, dark, zh, en, Preferences, declared, KeyFiles, theme_value, lang_value,
  read_theme, read_lang, read_relay, read_preferences, load_settings, save_settings,
}

abbrev pub letters : Bytes → Bool
letters [] = true
letters (c ∷ s) = leb b'a' c && leb c b'z' && letters s

-- small letters, as the groups, the keys and the values of the program are
abbrev pub is_word : Bytes → Bool
is_word s = not (is_empty s) && letters s

-- A key holds what was set last, and a text that was made of a file loads as a file with the same
-- values.
pub record AreKeyFiles (kf : KeyFiles) : Type 0 where
  pub holds-word : (v : Bytes) → is_word v ≡ true → kf.holds v ≡ true
  pub get-set :
      (f : kf.File) (g k v g' k' : Bytes)
      → (is_word g && is_word k && (is_word g' && is_word k')) ≡ true
      → kf.holds v ≡ true
      → kf.get_string (kf.set_string f g k v) g' k'
        ≡ (if bytes_eq g g' && bytes_eq k k' then some v else kf.get_string f g' k')
  pub load-to_data :
      (f : kf.File)
      → (f' : kf.File) × (kf.load (kf.to_data f) ≡ some f')
        × ((g k : Bytes) → kf.get_string f' g k ≡ kf.get_string f g k)

read_theme-theme_value : (t : Theme) → read_theme (some (theme_value t)) (declared.theme) ≡ t
unfolding read_theme theme_value
read_theme-theme_value Theme.system = refl
read_theme-theme_value light = refl
read_theme-theme_value dark = refl

read_lang-lang_value : (l : Lang) → read_lang (some (lang_value l)) (declared.lang) ≡ l
unfolding read_lang lang_value
read_lang-lang_value Lang.system = refl
read_lang-lang_value zh = refl
read_lang-lang_value en = refl

-- the relay that LoadSettings finds
abbrev pub relay_kept : Bytes → Bytes
relay_kept r = if is_empty r then declared.relay else r

read_relay-declared : (r : Bytes) → read_relay (some r) (declared.relay) ≡ relay_kept r
unfolding read_relay
read_relay-declared r = refl

theme_value-is_word : (t : Theme) → is_word (theme_value t) ≡ true
unfolding theme_value
theme_value-is_word Theme.system = refl
theme_value-is_word light = refl
theme_value-is_word dark = refl

lang_value-is_word : (l : Lang) → is_word (lang_value l) ≡ true
unfolding lang_value
lang_value-is_word Lang.system = refl
lang_value-is_word zh = refl
lang_value-is_word en = refl

module _ (kf : KeyFiles) (laws : AreKeyFiles kf) (p : Preferences)
    (held : kf.holds (p.relay) ≡ true) where
  theme-held : kf.holds (theme_value (p.theme)) ≡ true
  theme-held = laws.holds-word (theme_value (p.theme)) (theme_value-is_word (p.theme))

  lang-held : kf.holds (lang_value (p.lang)) ≡ true
  lang-held = laws.holds-word (lang_value (p.lang)) (lang_value-is_word (p.lang))

  abbrev written : kf.File
  written =
      let app = codes "app" in
      kf.set_string
        (kf.set_string (kf.set_string (kf.fresh) app (codes "theme") (theme_value (p.theme))) app
          (codes "language") (lang_value (p.lang)))
        app (codes "relay") (p.relay)

  theme-written : kf.get_string written (codes "app") (codes "theme") ≡ some (theme_value (p.theme))
  unfolding bytes_eq
  theme-written =
      laws.get-set _ _ _ _ _ _ refl held
      ∙ (laws.get-set _ _ _ _ _ _ refl lang-held ∙ laws.get-set _ _ _ _ _ _ refl theme-held)

  lang-written : kf.get_string written (codes "app") (codes "language") ≡ some (lang_value (p.lang))
  unfolding bytes_eq
  lang-written = laws.get-set _ _ _ _ _ _ refl held ∙ laws.get-set _ _ _ _ _ _ refl lang-held

  relay-written : kf.get_string written (codes "app") (codes "relay") ≡ some (p.relay)
  unfolding bytes_eq
  relay-written = laws.get-set _ _ _ _ _ _ refl held

  -- A window that loads the settings which another one saved has its theme and its language, and its
  -- relay address unless that is empty, which the declared address replaces; provided that key files
  -- can hold the address and return the values that were set.
  pub load_settings-save_settings :
      load_settings kf (some (save_settings kf p)) declared
      ≡ record p { relay = relay_kept (p.relay) }
  unfolding load_settings save_settings read_preferences
  load_settings-save_settings =
      let (f, loads, same) = laws.load-to_data written in
      let theme =
        ap (λ o. read_theme o (declared.theme)) (same (codes "app") (codes "theme") ∙ theme-written)
        ∙ read_theme-theme_value (p.theme) in
      let lang =
        ap (λ o. read_lang o (declared.lang)) (same (codes "app") (codes "language") ∙ lang-written)
        ∙ read_lang-lang_value (p.lang) in
      let relay =
        ap (λ o. read_relay o (declared.relay)) (same (codes "app") (codes "relay") ∙ relay-written)
        ∙ read_relay-declared (p.relay) in
      ap (λ o. read_preferences kf o declared) loads
      ∙ (λ i. record { theme = theme i; lang = lang i; relay = relay i })
