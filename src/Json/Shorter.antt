-- ===== src/Json/Shorter.antt =====
-- Every token of linux/src/json.cpp takes bytes off the text.
use harness_desktop.Base.{
  ℕ, zero, suc, ◌+◌, ◌≤◌, ◌<◌, ◌≡◌, [], ◌∷◌, ◌++◌, Option, none, some, Bytes, ◌==◌, length, inl,
  inr, Bool-cases, Option-cases, length-append, arith,
}
use harness_desktop.Base.Outcome.{Ends, holds, rejected}
use harness_desktop.Json.Scan.{
  skip_ws, escape, read_chars, parse_string, scan_digits, scan_minus, scan_fraction,
  scan_exponent_sign, scan_exponent, scan_number, open_quote,
}
use harness_desktop.Json.Parser.{or_fail}
use harness_desktop.Json.Gaps.{length-skip_ws}

-- What is left, if anything was read, is shorter than `n`.
abbrev pub Leaves : ℕ → Option (Bytes × Bytes) → Type 0
Leaves n none = Unit
Leaves n (some (t, rest)) = length rest < n

Leaves-weaken : (n : ℕ) (o : Option (Bytes × Bytes)) → Leaves n o → Leaves (suc n) o
Leaves-weaken n none h = tt
Leaves-weaken n (some (t, rest)) h = omega arith

Leaves-read_chars : (skip : ℕ) (s out : Bytes) → Leaves (length s) (read_chars skip s out)
unfolding read_chars
Leaves-read_chars skip [] out = tt
Leaves-read_chars (suc skip) (c ∷ s) out = Leaves-weaken _ _ (Leaves-read_chars skip s out)
Leaves-read_chars zero (c ∷ s) out = elim (Bool-cases (c == b'"')) [
  | inl e ↦ rw (e, read_chars) (omega arith)
  | inr e ↦
      rw (e, read_chars)
        (elim (Bool-cases (c == b'\\')) [
          | inl k ↦
              rw (k, read_chars)
                (elim (Option-cases (escape s)) [
                  | inl n ↦ rw (n, read_chars) tt
                  | inr ((m, piece), n) ↦
                      rw (n, read_chars) (Leaves-weaken _ _ (Leaves-read_chars m s (out ++ piece)))
                ])
          | inr k ↦ rw (k, read_chars) (Leaves-weaken _ _ (Leaves-read_chars 0 s (out ++ c ∷ [])))
        ])
]

Leaves-open_quote : (s : Bytes) → Leaves (length s) (open_quote s)
unfolding open_quote
Leaves-open_quote [] = tt
Leaves-open_quote (c ∷ s) = elim (Bool-cases (c == b'"')) [
  | inl e ↦ rw e (Leaves-weaken _ _ (Leaves-read_chars 0 s []))
  | inr e ↦ rw e tt
]

Leaves-mono : {n m : ℕ} (o : Option (Bytes × Bytes)) → n ≤ m → Leaves n o → Leaves m o
Leaves-mono none h l = tt
Leaves-mono (some (t, rest)) h l = omega arith

pub Leaves-parse_string : (s : Bytes) → Leaves (length s) (parse_string s)
unfolding parse_string
Leaves-parse_string s =
    Leaves-mono (open_quote (skip_ws s)) (length-skip_ws s) (Leaves-open_quote (skip_ws s))

pub Ends-or_fail :
    (n : ℕ) (o : Option (Bytes × Bytes))
    → Leaves n o
    → Ends (λ (t, rest). length rest < n) (or_fail o)
Ends-or_fail n none h = rejected
Ends-or_fail n (some (t, rest)) h = holds h

length-text : (s t : Bytes) → length (s ++ t) ≡ length s + length t
length-text = length-append

length-scan_digits : (s : Bytes) → length (scan_digits s).0 + length (scan_digits s).1 ≡ length s
unfolding scan_digits
length-scan_digits [] = omega arith
length-scan_digits (c ∷ s) = ground (arith, length-scan_digits s)

length-scan_minus : (s : Bytes) → length (scan_minus s).0 + length (scan_minus s).1 ≡ length s
unfolding scan_minus
length-scan_minus [] = omega arith
length-scan_minus (c ∷ s) = ground arith

length-scan_fraction :
    (s : Bytes) → length (scan_fraction s).0 + length (scan_fraction s).1 ≡ length s
unfolding scan_fraction
length-scan_fraction [] = omega arith
length-scan_fraction (c ∷ s) = ground (arith, length-scan_digits s)

length-scan_exponent_sign :
    (s : Bytes) → length (scan_exponent_sign s).0 + length (scan_exponent_sign s).1 ≡ length s
unfolding scan_exponent_sign
length-scan_exponent_sign [] = omega arith
length-scan_exponent_sign (c ∷ s) = ground arith

length-scan_exponent :
    (s : Bytes) → length (scan_exponent s).0 + length (scan_exponent s).1 ≡ length s
unfolding scan_exponent
length-scan_exponent [] = omega arith
length-scan_exponent (c ∷ s) =
    let sign = length-scan_exponent_sign s in
    let digits = length-scan_digits (scan_exponent_sign s).1 in
    ground (arith, length-text (scan_exponent_sign s).0 (scan_digits (scan_exponent_sign s).1).0)

-- The token and what is left make up the text.
pub length-scan_number :
    (s : Bytes) → length (scan_number s).0 + length (scan_number s).1 ≡ length s
unfolding scan_number
length-scan_number s =
    let m = (scan_minus s).1 in
    let w = (scan_digits m).1 in
    let f = (scan_fraction w).1 in
    omega (
      arith,
      length-text,
      length-scan_minus s,
      length-scan_digits m,
      length-scan_fraction w,
      length-scan_exponent f,
    )
