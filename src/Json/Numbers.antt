-- ===== src/Json/Numbers.antt =====
-- ParseNumber on a number token with more text behind it (linux/src/json.cpp).
use harness_desktop.Base.{ℕ, ◌≡◌, refl, Bool, false, ◌||◌, [], ◌∷◌, ◌++◌, Bytes, ◌==◌, arith}
use harness_desktop.Json.Scan.{
  is_digit, scan_digits, scan_minus, scan_fraction, scan_exponent_sign, scan_exponent, scan_number,
}

-- The bytes that a number token may hold.
abbrev pub is_number_byte : ℕ → Bool
is_number_byte c =
    is_digit c || (c == b'.') || (c == b'e') || (c == b'E') || (c == b'+') || (c == b'-')

-- A text that does not go on with a byte of a number.
abbrev pub IsDelimited : Bytes → Type 0
IsDelimited [] = Unit
IsDelimited (c ∷ s) = is_number_byte c ≡ false

-- The scan takes from `t ++ rest` what it takes from `t`.
abbrev Stays : (Bytes → Bytes × Bytes) → Bytes → Bytes → Type 0
Stays scan t rest = scan (t ++ rest) ≡ ((scan t).0, (scan t).1 ++ rest)

scan_digits-IsDelimited : (rest : Bytes) → IsDelimited rest → scan_digits rest ≡ ([], rest)
unfolding scan_digits
scan_digits-IsDelimited [] h = refl
scan_digits-IsDelimited (c ∷ s) h = ground arith

scan_digits-Stays : (t rest : Bytes) → IsDelimited rest → Stays scan_digits t rest
unfolding scan_digits
scan_digits-Stays [] rest h = scan_digits-IsDelimited rest h
scan_digits-Stays (c ∷ t) rest h = ground (arith, scan_digits-Stays t rest h)

scan_minus-Stays : (t rest : Bytes) → IsDelimited rest → Stays scan_minus t rest
unfolding scan_minus
scan_minus-Stays [] [] h = refl
scan_minus-Stays [] (c ∷ s) h = ground arith
scan_minus-Stays (c ∷ t) rest h = ground arith

scan_fraction-Stays : (t rest : Bytes) → IsDelimited rest → Stays scan_fraction t rest
unfolding scan_fraction
scan_fraction-Stays [] [] h = refl
scan_fraction-Stays [] (c ∷ s) h = ground arith
scan_fraction-Stays (c ∷ t) rest h = ground (arith, scan_digits-Stays t rest h)

scan_exponent_sign-Stays : (t rest : Bytes) → IsDelimited rest → Stays scan_exponent_sign t rest
unfolding scan_exponent_sign
scan_exponent_sign-Stays [] [] h = refl
scan_exponent_sign-Stays [] (c ∷ s) h = ground arith
scan_exponent_sign-Stays (c ∷ t) rest h = ground arith

scan_exponent-Stays : (t rest : Bytes) → IsDelimited rest → Stays scan_exponent t rest
unfolding scan_exponent
scan_exponent-Stays [] [] h = refl
scan_exponent-Stays [] (c ∷ s) h = ground arith
scan_exponent-Stays (c ∷ t) rest h =
    ground
      (arith, scan_exponent_sign-Stays t rest h, scan_digits-Stays (scan_exponent_sign t).1 rest h)

-- What stands behind a number does not change how it is read, if no byte of a number stands there.
pub scan_number-append : (t rest : Bytes) → IsDelimited rest → Stays scan_number t rest
unfolding scan_number
scan_number-append t rest h =
    let m = (scan_minus t).1 in
    let w = (scan_digits m).1 in
    let f = (scan_fraction w).1 in
    rw (scan_minus-Stays t rest h) (
      rw (scan_digits-Stays m rest h)
        (rw (scan_fraction-Stays w rest h) (rw (scan_exponent-Stays f rest h))))
