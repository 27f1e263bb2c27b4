-- ===== src/Plugins/Dialog/Enabling.antt =====
-- OnEnableDisable with SetEnabled and EnabledBundles (linux/src/plugins_manager.cpp).
use harness_desktop.Base.{◌≡◌, refl, ap, ◌∙◌, Bool, true, false, none, some, Bytes, is_empty}
use harness_desktop.Json.Value.{Value}
use harness_desktop.Json.Floats.{Floats}
use harness_desktop.Json.Printable.{IsPrintable}
use harness_desktop.Plugins.Profile.{
  Files, package_json_path, read_package_json, enabled_bundles, set_enabled,
}
use harness_desktop.Plugins.Bundles.{changed}
use harness_desktop.Plugins.Saved.{save, enabled_bundles-set_enabled}
use harness_desktop.Plugins.Dialog.State.{DialogState}
use harness_desktop.Plugins.Dialog.Operations.{refresh_local_data}
use harness_desktop.Plugins.Dialog.Handlers.{chosen_name, enabling_done, on_enable_disable}

module _ {Int : Type 0} (fl : Floats) where
  open fl use {Double}

  module _ (home : Bytes) (enable : Bool) (files : Files) (s : DialogState Int) where
    abbrev saved_files : Files
    saved_files =
        save files (package_json_path home)
          (set_enabled fl files home true (chosen_name s) enable).written

    state-on_enable_disable :
        is_empty (chosen_name s) ≡ false
        → (on_enable_disable fl home true enable files s).state
          ≡ enabling_done fl home
              (set_enabled fl files home true (chosen_name s) enable).error
              (chosen_name s)
              enable
              saved_files
              s
    unfolding on_enable_disable
    state-on_enable_disable e = rw e refl

    error-set_enabled :
        (root : Value Double)
        → read_package_json fl files home ≡ some root
        → (set_enabled fl files home true (chosen_name s) enable).error ≡ none
    unfolding set_enabled
    error-set_enabled root h = rw (h, set_enabled) refl

    state-enabled :
        (root : Value Double)
        → read_package_json fl files home ≡ some root
        → is_empty (chosen_name s) ≡ false
        → (on_enable_disable fl home true enable files s).state
          ≡ enabling_done fl home none (chosen_name s) enable saved_files s
    state-enabled root h e =
        state-on_enable_disable e
        ∙ ap (λ error. enabling_done fl home error (chosen_name s) enable saved_files s)
            (error-set_enabled root h)

    enabled-enabling_done :
        (name : Bytes) (saved : Files)
        → ((enabling_done fl home none name enable saved s).enabled ≡ enabled_bundles fl saved home)
          × ((enabling_done fl home none name enable saved s).buttons.restart ≡ true)
    unfolding enabling_done refresh_local_data
    enabled-enabling_done name saved = (refl, refl)

    -- When package.json holds a value whose numbers are read back as they are printed and in which no
    -- object has a key twice, and the name that the page and its selection give is not empty, then
    -- OnEnableDisable with a write that succeeds leaves in the dialog the bundles that were enabled in
    -- the file, with the name behind them unless it is among them, or without its first occurrence, and
    -- makes the restart button sensitive.
    pub enabled-on_enable_disable :
        (root : Value Double)
        → read_package_json fl files home ≡ some root
        → IsPrintable fl root
        → is_empty (chosen_name s) ≡ false
        → ((on_enable_disable fl home true enable files s).state.enabled
            ≡ changed (chosen_name s) enable (enabled_bundles fl files home))
          × ((on_enable_disable fl home true enable files s).state.buttons.restart ≡ true)
    enabled-on_enable_disable root h printable e =
        let state = state-enabled root h e in
        let (enabled, restart) = enabled-enabling_done (chosen_name s) saved_files in
        (
          ap (λ t. t.enabled) state
              ∙ (enabled
                  ∙ enabled_bundles-set_enabled fl files home (chosen_name s) enable root h
                      printable),
          ap (λ t. t.buttons.restart) state ∙ restart,
        )
