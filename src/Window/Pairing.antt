-- ===== src/Window/Pairing.antt =====
-- What identifies the desktop to a phone (linux/src/main_window.cpp): DeviceID, StablePairingPin,
-- LocalLANAddress and the content of the QR code.
use harness_desktop.Base.{
  ℕ, zero, suc, ◌+◌, ◌-◌, ◌*◌, ◌/◌, ◌%◌, ◌<◌, ◌≤◌, ◌≡◌, refl, sym, subst, ap, ◌∙◌, true, false,
  ◌&&◌, ◌==◌, [], ◌∷◌, ◌++◌, Option, none, some, Bytes, is_empty, length, replicate, length-append,
  ltb, Bool-cases, if-elim, inl, inr, arith,
}
use harness_desktop.Base.Decimal.{decimal, decimal_digits}
use harness_desktop.Plugins.Dialog.Rows.{drop_trailing, is_blank}
use harness_desktop.Window.Relay.{
  digest_value, padded, device_seed, device_id, all_digits, new_pin, stable_pairing_pin,
}

abbrev pow10 : ℕ → ℕ
pow10 zero = 1
pow10 (suc k) = 10 * pow10 k

length-decimal_digits : (k f n : ℕ) → n < pow10 (suc k) → length (decimal_digits f n) ≤ suc k
unfolding decimal_digits
length-decimal_digits k zero n h = omega arith
length-decimal_digits zero (suc f) n h =
    let small : ltb n 10 ≡ true = ground arith in rw small (omega arith)
length-decimal_digits (suc k) (suc f) n h = elim (Bool-cases (ltb n 10)) [
  | inl e ↦ rw e (omega arith)
  | inr e ↦
      let rest = length-decimal_digits k f (n / 10) (omega arith) in
      rw e (omega (arith, length-append {0} (decimal_digits f (n / 10)) ((b'0' + n % 10) ∷ [])))
]

all_digits-append : (s t : Bytes) → all_digits (s ++ t) ≡ (all_digits s && all_digits t)
all_digits-append [] t = refl
all_digits-append (c ∷ s) t = ground (arith, all_digits-append s t)

all_digits-digit : (d : ℕ) → d < 10 → all_digits ((b'0' + d) ∷ []) ≡ true
all_digits-digit d h = ground arith

all_digits-decimal_digits : (f n : ℕ) → all_digits (decimal_digits f n) ≡ true
unfolding decimal_digits
all_digits-decimal_digits zero n = refl
all_digits-decimal_digits (suc f) n = elim (Bool-cases (ltb n 10)) [
  | inl e ↦ rw e (all_digits-digit n (ground arith))
  | inr e ↦
      let before = all_digits-decimal_digits f (n / 10) in
      let digit = all_digits-digit (n % 10) (omega arith) in
      rw e (all_digits-append (decimal_digits f (n / 10)) ((b'0' + n % 10) ∷ []) ∙ ground arith)
]

length-replicate : (n c : ℕ) → length (replicate n c) ≡ n
length-replicate zero c = refl
length-replicate (suc n) c = ap suc (length-replicate n c)

all_digits-replicate : (n : ℕ) → all_digits (replicate n b'0') ≡ true
all_digits-replicate zero = refl
all_digits-replicate (suc n) = all_digits-replicate n

-- The device ID has 13 digits, whatever the names and the digest are.
pub length-device_id :
    (sha256 : Bytes → Bytes) (host_name : Bytes) (machine_id : Option Bytes)
    → (length (device_id sha256 host_name machine_id) ≡ 13)
      × (all_digits (device_id sha256 host_name machine_id) ≡ true)
unfolding device_id padded decimal
length-device_id sha256 host_name machine_id =
    let value = digest_value 8 0 (sha256 (device_seed host_name machine_id)) in
    let n = value % 10000000000000 in
    let digits = decimal_digits (suc n) n in
    let short : length digits ≤ 13 = length-decimal_digits 12 (suc n) n (omega arith) in
    let zeros = 13 - length digits in
    (
      omega (arith, length-append {0} (replicate zeros b'0') digits, length-replicate zeros b'0'),
      all_digits-append (replicate zeros b'0') digits
          ∙ (λ i. all_digits-replicate zeros i && all_digits-decimal_digits (suc n) n i),
    )

-- six digits
abbrev pub IsPin : Bytes → Type 0
IsPin pin = ((length pin == 6) ≡ true) × (all_digits pin ≡ true)

drop_trailing-digits : (s : Bytes) → all_digits s ≡ true → drop_trailing s ≡ s
unfolding drop_trailing
drop_trailing-digits [] h = refl
drop_trailing-digits (c ∷ s) h =
    let rest = drop_trailing-digits s (ground arith) in
    let visible : is_blank c ≡ false = ground arith in
    rw (rest, visible) (elim (Bool-cases (is_empty s)) [ inl e ↦ rw e refl | inr e ↦ rw e refl ])

module _ (random : ℕ → ℕ) (digits : (i : ℕ) → random i < 10) where
  length-new_pin : (n i : ℕ) → length (new_pin n i random) ≡ n
  unfolding new_pin
  length-new_pin zero i = refl
  length-new_pin (suc n) i = ap suc (length-new_pin n (suc i))

  all_digits-new_pin : (n i : ℕ) → all_digits (new_pin n i random) ≡ true
  unfolding new_pin
  all_digits-new_pin zero i = refl
  all_digits-new_pin (suc n) i =
      let first = all_digits-digit (random i) (digits i) in
      let rest = all_digits-new_pin n (suc i) in ground arith

  IsPin-new_pin : IsPin (new_pin 6 0 random)
  IsPin-new_pin = (ap (λ n. n == 6) (length-new_pin 6 0), all_digits-new_pin 6 0)

-- the PIN file behind what StablePairingPin wrote
abbrev pub pin_file : Bytes → Option Bytes → Bytes
pin_file text none = text
pin_file text (some written) = written

stable_pairing_pin-kept :
    (random : ℕ → ℕ) (text : Bytes)
    → IsPin (drop_trailing text)
    → stable_pairing_pin random text ≡ (drop_trailing text, none)
unfolding stable_pairing_pin
stable_pairing_pin-kept random text h = rw (h.0, h.1) refl

-- StablePairingPin returns six digits, and the same six digits again when it reads the file that it left,
-- whatever was in the file before and whatever digits the random numbers give.
pub stable_pairing_pin-again :
    (random random' : ℕ → ℕ) (text : Bytes)
    → ((i : ℕ) → random i < 10)
    → let r = stable_pairing_pin random text in
      IsPin r.0 × (stable_pairing_pin random' (pin_file text r.1) ≡ (r.0, none))
unfolding stable_pairing_pin
stable_pairing_pin-again random random' text digits =
    let existing = drop_trailing text in
    if-elim
      (λ (r : Bytes × Option Bytes).
        IsPin r.0 × (stable_pairing_pin random' (pin_file text r.1) ≡ (r.0, none)))
      (length existing == 6 && all_digits existing)
      (λ h.
        let pin : IsPin existing = (ground arith, ground arith) in
        (pin, stable_pairing_pin-kept random' text pin))
      λ _.
        let new = new_pin 6 0 random in
        let pin = IsPin-new_pin random digits in
        let same = drop_trailing-digits new pin.1 in
        (
          pin,
          stable_pairing_pin-kept random' new (subst IsPin (sym same) pin)
              ∙ ap (λ p. (p, none)) same,
        )
