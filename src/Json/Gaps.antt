-- ===== src/Json/Gaps.antt =====
-- White space between tokens (linux/src/json.cpp): what the printer puts there, the parser skips.
use harness_desktop.Base.{
  ℕ, zero, suc, ◌*◌, ◌≤◌, ◌≡◌, refl, Bool, true, false, [], ◌∷◌, ◌++◌, Bytes, ◌==◌, replicate,
  length, arith,
}
use harness_desktop.Json.Scan.{is_ws, skip_ws}
use harness_desktop.Json.Printer.{newline, indent}
use harness_desktop.Json.Parser.{parse_value}

-- A text that begins with a byte that is no white space and closes no bracket.
abbrev pub IsFirst : Bytes → Type 0
IsFirst [] = ⊥
IsFirst (c ∷ s) = (is_ws c ≡ false) × ((c == b']') ≡ false) × ((c == b'}') ≡ false)

pub IsFirst-append : (s t : Bytes) → IsFirst s → IsFirst (s ++ t)
IsFirst-append [] t h = absurd h
IsFirst-append (c ∷ s) t h = h

pub skip_ws-IsFirst : (s : Bytes) → IsFirst s → skip_ws s ≡ s
unfolding skip_ws
skip_ws-IsFirst [] h = absurd h
skip_ws-IsFirst (c ∷ s) h = ground arith

pub skip_ws_idem : (s : Bytes) → skip_ws (skip_ws s) ≡ skip_ws s
unfolding skip_ws
skip_ws_idem [] = refl
skip_ws_idem (c ∷ s) = ground (arith, skip_ws_idem s)

pub length-skip_ws : (s : Bytes) → length (skip_ws s) ≤ length s
unfolding skip_ws
length-skip_ws [] = omega arith
length-skip_ws (c ∷ s) = ground (arith, length-skip_ws s)

pub skip_ws-newline : (pretty : Bool) (s : Bytes) → skip_ws (newline pretty ++ s) ≡ skip_ws s
unfolding skip_ws
skip_ws-newline true s = refl
skip_ws-newline false s = refl

skip_ws-spaces : (n : ℕ) (s : Bytes) → skip_ws (replicate n b' ' ++ s) ≡ skip_ws s
unfolding skip_ws
skip_ws-spaces zero s = refl
skip_ws-spaces (suc n) s = skip_ws-spaces n s

pub skip_ws-indent :
    (pretty : Bool) (d : ℕ) (s : Bytes) → skip_ws (indent pretty d ++ s) ≡ skip_ws s
skip_ws-indent true d s = skip_ws-spaces (d * 2) s
skip_ws-indent false d s = refl

module _ {D : Type 0} (strtod : Bytes → D) where
  -- ParseValue looks at its input behind the white space only.
  pub parse_value-skip_ws :
      (f : ℕ) (s t : Bytes)
      → skip_ws s ≡ skip_ws t
      → parse_value strtod f s ≡ parse_value strtod f t
  unfolding parse_value
  parse_value-skip_ws zero s t h = refl
  parse_value-skip_ws (suc f) s t h = rw (h, parse_value)
