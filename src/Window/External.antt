-- ===== src/Window/External.antt =====
-- What leaves the window for the default browser (linux/src/main_window.cpp).
use harness_desktop.Base.{
  ℕ, ◌+◌, ◌-◌, ◌<◌, ◌≡◌, refl, sym, ap, ◌∙◌, true, false, ◌&&◌, none, some, Bytes, bytes_eq,
  bytes_eq_self, ltb, Bool-cases, inl, inr, ◌⊎◌, ◌≢◌, bytes_eq_iff, [], ◌∷◌, arith,
}
use harness_desktop.Window.Navigation.{
  is_app_url, Opener, open_external, navigation, Decision, decide_navigation, on_decide_policy,
}
use harness_desktop.Window.Origin.{has_no_delimiter, authority, app_authority, is_app_url-authority}

opener-launched :
    (now : ℕ) (uri : Bytes) (o : Opener)
    → (open_external now uri o).1 ≡ some uri
    → (open_external now uri o).0 ≡ record { last = uri; last_us = now }
unfolding open_external
opener-launched now uri o h =
    elim (Bool-cases (bytes_eq uri (o.last) && ltb (now - o.last_us) 2000000)) [
      | inl e ↦ let no : none ≡ some uri = rw e at h in cc
      | inr e ↦ rw e refl
    ]

open_external-recent :
    (now later : ℕ) (uri : Bytes)
    → later < now + 2000000
    → (open_external later uri (record { last = uri; last_us = now })).1 ≡ none
unfolding open_external
open_external-recent now later uri soon =
    let recent : ltb (later - now) 2000000 ≡ true = ground arith in
    rw (bytes_eq_self uri, recent) refl

-- An address that was handed to the browser is not handed over again within two seconds.
pub open_external-repeated :
    (now later : ℕ) (uri : Bytes) (o : Opener)
    → (open_external now uri o).1 ≡ some uri
    → later < now + 2000000
    → (open_external later uri (open_external now uri o).0).1 ≡ none
open_external-repeated now later uri o h soon =
    ap (λ p. (open_external later uri p).1) (opener-launched now uri o h)
    ∙ open_external-recent now later uri soon

-- The address is handed to the browser now, or was within the two seconds before.
abbrev pub IsHandedOver : ℕ → Bytes → Opener → Decision → Type 0
IsHandedOver now uri o d =
    (d.launched ≡ some uri) ⊎ ((o.last ≡ uri) × (now < o.last_us + 2000000) × (d.launched ≡ none))

handed_over :
    (now : ℕ) (uri : Bytes) (o : Opener)
    → IsHandedOver now uri o (record {
      used = false;
      opener = (open_external now uri o).0;
      launched = (open_external now uri o).1;
    })
unfolding open_external
handed_over now uri o = elim (Bool-cases (bytes_eq uri (o.last) && ltb (now - o.last_us) 2000000)) [
  | inl e ↦
      let same : bytes_eq uri (o.last) ≡ true = ground arith in
      let recent : ltb (now - o.last_us) 2000000 ≡ true = ground arith in
      rw e (inr (sym ((bytes_eq_iff uri (o.last)).0 same), ground arith, refl))
  | inr e ↦ rw e (inl refl)
]

-- A navigation to an address stays in the window exactly if the address is empty or an http address
-- with the authority of the server, and hands nothing to the browser then; else, so only for an address
-- that is neither, it is refused and the address is handed to the browser, unless it was within the two
-- seconds before. The host has none of the bytes that end an authority.
pub decide_policy-navigation :
    (host : Bytes) (port now : ℕ) (uri : Bytes) (o : Opener)
    → has_no_delimiter host ≡ true
    → let d = on_decide_policy host port now (navigation (some uri)) o in
      (((uri ≡ []) ⊎ (authority uri ≡ some (app_authority host port)))
        × (d.used ≡ true)
        × (d.launched ≡ none))
      ⊎ ((uri ≢ [])
          × (authority uri ≢ some (app_authority host port))
          × (d.used ≡ false)
          × IsHandedOver now uri o d)
unfolding on_decide_policy decide_navigation
decide_policy-navigation host port now [] o plain = inl (inl refl, refl, refl)
decide_policy-navigation host port now (c ∷ s) o plain =
    let same = is_app_url-authority host port (c ∷ s) plain in
    elim (Bool-cases (is_app_url host port (c ∷ s))) [
      | inl e ↦ rw e (inl (inr (same.0 e), refl, refl))
      | inr e ↦
          let foreign : authority (c ∷ s) ≢ some (app_authority host port) =
            λ h. let yes_app = same.1 h in cc in
          let filled : c ∷ s ≢ [] = λ h. cc in
          rw e (inr (filled, foreign, refl, handed_over now (c ∷ s) o))
    ]
