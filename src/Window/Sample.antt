-- ===== src/Window/Sample.antt =====
-- Key files for the examples on linux/src/main_window.cpp.
use harness_desktop.Base.{
  refl, true, ◌&&◌, List, [], ◌∷◌, Option, none, some, Bytes, bytes_eq, if◌then◌else◌,
}
use harness_desktop.Window.Preferences.{KeyFiles}
use harness_desktop.Window.SettingsFile.{AreKeyFiles}

-- key files as lists of their entries, the last one first
abbrev pub Entry : Type 0
Entry = Bytes × Bytes × Bytes

abbrev pub entry_of : List Entry → Bytes → Bytes → Option Bytes
entry_of [] g k = none
entry_of ((g', k', v) ∷ es) g k =
    let later = entry_of es g k in if bytes_eq g' g && bytes_eq k' k then some v else later

abbrev pub key_files : KeyFiles
key_files = record {
  File = List Entry;
  Text = List Entry;
  holds = λ v. true;
  fresh = [];
  set_string = λ f g k v. (g, k, v) ∷ f;
  get_string = entry_of;
  to_data = λ f. f;
  load = λ t. some t;
}

pub key_files-AreKeyFiles : AreKeyFiles key_files
key_files-AreKeyFiles = record {
  holds-word = λ v w. refl;
  get-set = λ f g k v g' k' w h. refl;
  load-to_data = λ f. (f, refl, λ g k. refl);
}
