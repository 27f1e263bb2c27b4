-- ===== src/Window/Preferences.antt =====
-- The preferences of linux/src/main_window.cpp: LoadSettings, SaveSettings and what changes the theme,
-- the language and the full-screen state.
use harness_desktop.Base.{
  ℕ, Bool, true, false, not, Option, none, some, Bytes, codes, is_empty, bytes_eq, starts_with,
  if◌then◌else◌,
}

pub data Theme : Type 0 where
  system light dark : Theme

pub data Lang : Type 0 where
  system zh en : Lang

-- theme_, lang_ and mobileRelayUrl_
pub record Preferences : Type 0 where
  pub theme : Theme
  pub lang : Lang
  pub relay : Bytes

-- the values that the members are declared with
abbrev pub declared : Preferences
declared = record {
  theme = Theme.system;
  lang = Lang.system;
  relay = codes "https://relay.deepvisus.top";
}

-- GKeyFile with the texts of key files: g_key_file_new, g_key_file_set_string,
-- g_key_file_get_string (for a group and a key), g_key_file_to_data and g_key_file_load_from_file
-- behind the reading. `holds` are the values that a string may have: UTF-8 without null bytes.
pub record KeyFiles : Type 1 where
  pub File : Type 0
  pub Text : Type 0
  pub holds : Bytes → Bool
  pub fresh : File
  pub set_string : File → Bytes → Bytes → Bytes → File
  pub get_string : File → Bytes → Bytes → Option Bytes
  pub to_data : File → Text
  pub load : Text → Option File

unfoldable pub theme_value : Theme → Bytes
theme_value light = codes "light"
theme_value dark = codes "dark"
theme_value _ = codes "system"

unfoldable pub lang_value : Lang → Bytes
lang_value zh = codes "zh"
lang_value en = codes "en"
lang_value _ = codes "system"

-- The members behind a value of the key file; a value that is not known changes nothing.
unfoldable pub read_theme : Option Bytes → Theme → Theme
unfolding bytes_eq
read_theme none t = t
read_theme (some v) t =
    if bytes_eq v (codes "light") then light else if bytes_eq v (codes "dark") then dark else t

unfoldable pub read_lang : Option Bytes → Lang → Lang
unfolding bytes_eq
read_lang none l = l
read_lang (some v) l =
    if bytes_eq v (codes "zh") then zh else if bytes_eq v (codes "en") then en else l

unfoldable pub read_relay : Option Bytes → Bytes → Bytes
read_relay none r = r
read_relay (some v) r = if is_empty v then r else v

-- theme_ == theme, lang_ == lang
unfoldable pub same_theme : Theme → Theme → Bool
same_theme system system = true
same_theme light light = true
same_theme dark dark = true
same_theme _ _ = false

unfoldable pub same_lang : Lang → Lang → Bool
same_lang system system = true
same_lang zh zh = true
same_lang en en = true
same_lang _ _ = false

module _ (kf : KeyFiles) where
  open kf use {File, Text, fresh, set_string, get_string, to_data, load}

  abbrev app : Bytes
  app = codes "app"

  unfoldable pub read_preferences : Option File → Preferences → Preferences
  unfolding read_theme read_lang read_relay
  read_preferences none p = p
  read_preferences (some f) p = record {
    theme = read_theme (get_string f app (codes "theme")) (p.theme);
    lang = read_lang (get_string f app (codes "language")) (p.lang);
    relay = read_relay (get_string f app (codes "relay")) (p.relay);
  }

  abbrev pub load_file : Option Text → Option File
  load_file none = none
  load_file (some t) = load t

  -- LoadSettings, for the text of settings.conf, if there is one
  unfoldable pub load_settings : Option Text → Preferences → Preferences
  unfolding read_preferences
  load_settings text p = read_preferences (load_file text) p

  -- SaveSettings: the text that it writes to settings.conf
  unfoldable pub save_settings : Preferences → Text
  unfolding theme_value lang_value
  save_settings p =
      let with_theme = set_string fresh app (codes "theme") (theme_value (p.theme)) in
      let with_lang = set_string with_theme app (codes "language") (lang_value (p.lang)) in
      to_data (set_string with_lang app (codes "relay") (p.relay))

  -- What SetTheme and SetLang leave: the members, and the text that they write, if they do.
  unfoldable pub set_theme : Theme → Preferences → Preferences × Option Text
  unfolding save_settings same_theme
  set_theme theme p =
      if same_theme (p.theme) theme
      then (p, none)
      else let p' = record p { theme = theme } in (p', some (save_settings p'))

  unfoldable pub set_lang : Lang → Preferences → Preferences × Option Text
  unfolding save_settings same_lang
  set_lang lang p =
      if same_lang (p.lang) lang
      then (p, none)
      else let p' = record p { lang = lang } in (p', some (save_settings p'))

-- IsChinese; SystemLanguageIsChinese on the first language name
unfoldable pub system_language_is_chinese : Option Bytes → Bool
unfolding starts_with
system_language_is_chinese none = false
system_language_is_chinese (some first) = starts_with (codes "zh") first

unfoldable pub is_chinese : Option Bytes → Lang → Bool
unfolding system_language_is_chinese
is_chinese first system = system_language_is_chinese first
is_chinese first zh = true
is_chinese first en = false

-- ApplyTheme: gtk-application-prefer-dark-theme, and the number of WebKitPreferredColorScheme
unfoldable pub prefers_dark : Bool → Theme → Bool
prefers_dark initial dark = true
prefers_dark initial light = false
prefers_dark initial system = initial

unfoldable pub color_scheme : Theme → ℕ
color_scheme light = 1
color_scheme dark = 2
color_scheme system = 0

-- OnThemeToggled and OnLangToggled, for the state and the value of the menu item: nothing for an item
-- that is not active.
module _ (kf : KeyFiles) where
  unfoldable pub on_theme_toggled : Bool → Theme → Preferences → Preferences × Option (kf.Text)
  unfolding set_theme
  on_theme_toggled active theme p = if not active then (p, none) else set_theme kf theme p

  unfoldable pub on_lang_toggled : Bool → Lang → Preferences → Preferences × Option (kf.Text)
  unfolding set_lang
  on_lang_toggled active lang p = if not active then (p, none) else set_lang kf lang p

-- ToggleFullScreen, and OnFullScreenToggled for the state of the menu item
unfoldable pub toggle_full_screen : Bool → Bool
toggle_full_screen fullscreen = not fullscreen

unfoldable pub on_full_screen_toggled : Bool → Bool → Bool → Bool
unfolding toggle_full_screen
on_full_screen_toggled toggling active fullscreen =
    if toggling
    then fullscreen
    else if active
    then (if not fullscreen then toggle_full_screen fullscreen else fullscreen)
    else if fullscreen
    then toggle_full_screen fullscreen
    else fullscreen
