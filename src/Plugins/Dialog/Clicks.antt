-- ===== src/Plugins/Dialog/Clicks.antt =====
-- UpdateButtons against the handlers of the buttons (linux/src/plugins_manager.cpp).
use harness_desktop.Base.{
  ◌≡◌, refl, ap, subst, ◌∙◌, Bool, true, false, not, ◌||◌, ◌==◌, List, [], ◌∷◌, Option, none, some,
  Bytes, is_empty, get_elem?, if◌then◌else◌, Bool-cases, inl, inr,
}
use harness_desktop.Plugins.Market.{MarketPlugin, npm_package, git_spec, or_else}
use harness_desktop.Plugins.Dialog.State.{
  InstalledRow, EnabledRow, MarketRow, Buttons, DialogState, OpCtx, plugin_op,
}
use harness_desktop.Plugins.Dialog.Buttons.{
  is_root, plain_buttons, installed_buttons, enabled_buttons, plugin_buttons, market_buttons,
  buttons_for,
}
use harness_desktop.Plugins.Dialog.Operations.{start_op}
use harness_desktop.Plugins.Dialog.Handlers.{
  add_op, selected_plugin, install_plugin, on_install, plugin_at,
}

or_else-nonempty :
    (s t : Bytes) → (not (is_empty s) || not (is_empty t)) ≡ true → is_empty (or_else s t) ≡ false
or_else-nonempty [] [] h = cc
or_else-nonempty [] (c ∷ t) h = refl
or_else-nonempty (c ∷ s) t h = refl

install-installed_buttons :
    (enabled : List Bytes) (r : Option InstalledRow) (b : Buttons)
    → (installed_buttons enabled r b).install ≡ b.install
unfolding installed_buttons
install-installed_buttons enabled none b = refl
install-installed_buttons enabled (some r) b = elim (Bool-cases (is_root (r.flag))) [
  | inl e ↦ rw e refl
  | inr e ↦ rw e refl
]

install-enabled_buttons :
    (r : Option EnabledRow) (b : Buttons) → (enabled_buttons r b).install ≡ b.install
unfolding enabled_buttons
install-enabled_buttons none b = refl
install-enabled_buttons (some r) b = refl

-- the install button of the four pages
install-pages :
    (busy first second third : Bool) (b i e m : Buttons)
    → (if busy
        then b
        else if first
        then i
        else if second
        then e
        else if third
        then m
        else b).install
      ≡ true
    → b.install ≡ false
    → i.install ≡ false
    → e.install ≡ false
    → (busy ≡ false) × (m.install ≡ true)
install-pages true first second third b i e m h hb hi he = cc
install-pages false true second third b i e m h hb hi he = cc
install-pages false false true third b i e m h hb hi he = cc
install-pages false false false true b i e m h hb hi he = (refl, h)
install-pages false false false false b i e m h hb hi he = cc

module _ {Int : Type 0} where
  start_op-idle :
      (ctx : OpCtx) (s : DialogState Int)
      → s.busy ≡ false
      → s.closed ≡ false
      → (start_op ctx s).1 ≡ plugin_op ctx ∷ []
  unfolding start_op
  start_op-idle ctx s b c = rw (b, c) refl

  install-selected :
      (market : List (MarketPlugin Int)) (r : Option MarketRow)
      → (market_buttons market r (plain_buttons true)).install ≡ true
      → (x : MarketRow) × (r ≡ some x)
        × (plugin_buttons (get_elem? market (x.index)) (plain_buttons true)).install ≡ true
  unfolding market_buttons plain_buttons
  install-selected market none h = cc
  install-selected market (some r) h = (r, refl, h)

  install-plugin :
      (o : Option (MarketPlugin Int))
      → (plugin_buttons o (plain_buttons true)).install ≡ true
      → (p : MarketPlugin Int) × (o ≡ some p)
        × (is_empty (or_else (npm_package p) (git_spec p)) ≡ false)
  unfolding plugin_buttons plain_buttons
  install-plugin none h = cc
  install-plugin (some p) h = (p, refl, or_else-nonempty (npm_package p) (git_spec p) h)

  install-buttons_for :
      (s : DialogState Int)
      → (buttons_for s).install ≡ true
      → (s.busy ≡ false)
        × ((market_buttons (s.market) (s.selected_market) (plain_buttons true)).install ≡ true)
  unfolding buttons_for plain_buttons
  install-buttons_for s h =
      let b = plain_buttons (not (s.busy)) in
      let (idle, m) =
        install-pages (s.busy) (s.page == 0) (s.page == 1) (s.page == 2) b
          (installed_buttons (s.enabled) (s.selected_installed) b)
          (enabled_buttons (s.selected_enabled) b) (market_buttons (s.market) (s.selected_market) b)
          h refl (install-installed_buttons (s.enabled) (s.selected_installed) b)
          (install-enabled_buttons (s.selected_enabled) b) in
      (
        idle,
        subst
            (λ x.
              (market_buttons (s.market) (s.selected_market) (plain_buttons (not x))).install
              ≡ true)
            idle m,
      )

  install_plugin-idle :
      (p : MarketPlugin Int) (s : DialogState Int)
      → s.busy ≡ false
      → s.closed ≡ false
      → is_empty (or_else (npm_package p) (git_spec p)) ≡ false
      → (install_plugin (some p) s).1
        ≡ plugin_op (add_op (s.zh) (or_else (npm_package p) (git_spec p)) (p.display_name)) ∷ []
  unfolding install_plugin
  install_plugin-idle p s b c e = rw e (start_op-idle (add_op (s.zh) _ (p.display_name)) s b c)

  -- When UpdateButtons makes the install button of an open dialog sensitive, a click installs the
  -- plugin that the selected row stands for: OnInstall starts `add` with its npm package or else its
  -- repository, which is not empty.
  pub on_install-sensitive :
      (s : DialogState Int)
      → s.closed ≡ false
      → (buttons_for s).install ≡ true
      → (p : MarketPlugin Int) × (selected_plugin s ≡ some p)
        × (is_empty (or_else (npm_package p) (git_spec p)) ≡ false)
        × ((on_install s).1
            ≡ plugin_op (add_op (s.zh) (or_else (npm_package p) (git_spec p)) (p.display_name))
              ∷ [])
  unfolding on_install selected_plugin
  on_install-sensitive s there h =
      let (idle, sensitive) = install-buttons_for s h in
      let (r, chosen, at_row) = install-selected (s.market) (s.selected_market) sensitive in
      let (p, found, spec) = install-plugin (get_elem? (s.market) (r.index)) at_row in
      let selected : plugin_at (s.market) (s.selected_market) ≡ some p =
        ap (plugin_at (s.market)) chosen ∙ found in
      (
        p,
        selected,
        spec,
        ap (λ o. (install_plugin o s).1) selected ∙ install_plugin-idle p s idle there spec,
      )
