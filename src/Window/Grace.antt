-- ===== src/Window/Grace.antt =====
-- The grace period before the first page (linux/src/main_window.cpp).
use harness_desktop.Base.{
  ℕ, zero, suc, ◌+◌, ◌-◌, ◌≤◌, ◌≡◌, refl, sym, subst, ◌∙◌, true, false, Option, none, some, Bytes,
  is_empty, ltb, Bool-cases, inl, inr, arith,
}
use harness_desktop.Window.Navigation.{dsh_url, grace_tick, at_tick, grace_ticks}

module _ (host : Bytes) (port : ℕ) (auth_at : ℕ → Bytes) where
  -- a page that is loaded at a tick before `last`, or at `last`, with the address that is known then
  abbrev pub LoadsBy : ℕ → Option (ℕ × Bytes) → Type 0
  LoadsBy last o =
      (i : ℕ) × (o ≡ some (i, dsh_url host port (auth_at i)))
      × (i ≤ last)
      × ((is_empty (auth_at i) ≡ true) → i ≡ last)

  grace_tick-known :
      (auth : Bytes) (tries : ℕ)
      → is_empty auth ≡ false
      → grace_tick host port auth tries ≡ (some (dsh_url host port auth), tries)
  unfolding grace_tick
  grace_tick-known auth tries e = rw e refl

  grace_tick-last :
      (auth : Bytes) (tries : ℕ)
      → is_empty auth ≡ true
      → ltb 20 (suc tries) ≡ true
      → grace_tick host port auth tries ≡ (some (dsh_url host port auth), suc tries)
  unfolding grace_tick
  grace_tick-last auth tries e last = rw (e, last) refl

  grace_tick-waits :
      (auth : Bytes) (tries : ℕ)
      → is_empty auth ≡ true
      → ltb 20 (suc tries) ≡ false
      → grace_tick host port auth tries ≡ (none, suc tries)
  unfolding grace_tick
  grace_tick-waits auth tries e more = rw (e, more) refl

  LoadsBy-grace_ticks :
      (fuel i tries : ℕ)
      → fuel + tries ≡ 21
      → tries ≤ 20
      → LoadsBy (i + (20 - tries)) (grace_ticks host port auth_at fuel i tries)
  unfolding grace_ticks
  LoadsBy-grace_ticks zero i tries h below = absurd (omega arith)
  LoadsBy-grace_ticks (suc fuel) i tries h below =
      let auth = auth_at i in
      let Goal : Option Bytes × ℕ → Type 0 = λ g.
        LoadsBy (i + (20 - tries))
          (at_tick i g.0 (grace_ticks host port auth_at fuel (suc i) g.1)) in
      elim (Bool-cases (is_empty auth)) [
        | inr e ↦ subst Goal (sym (grace_tick-known auth tries e)) (i, refl, omega arith, λ no. cc)
        | inl e ↦ elim (Bool-cases (ltb 20 (suc tries))) [
          | inl last ↦
              subst Goal (sym (grace_tick-last auth tries e last))
                (i, refl, omega arith, λ _. ground arith)
          | inr more ↦
              let below_last : suc tries ≤ 20 = ground arith in
              let (j, loaded, by, only) =
                LoadsBy-grace_ticks fuel (suc i) (suc tries) (omega arith) below_last in
              subst Goal (sym (grace_tick-waits auth tries e more))
                (j, loaded, omega arith, λ none_yet. only none_yet ∙ omega arith)
        ]
      ]

  -- The grace timer loads a page at one of its first 21 ticks: the dsh address that is known then, and
  -- the plain one only at the last of them.
  pub grace_ticks-LoadsBy : LoadsBy 20 (grace_ticks host port auth_at 21 0 0)
  grace_ticks-LoadsBy = LoadsBy-grace_ticks 21 0 0 (omega arith) (omega arith)
