-- ===== src/Base/Decimal.antt =====
-- std::to_string of a number, and how its digits read.
use Prim.Native.Nat.{ℕ, zero, suc, ◌+◌, ◌/◌, ◌%◌}
use mathlib.Core.List.{[], ◌∷◌, ◌++◌}
use harness_desktop.Base.Text.{Bytes}
use harness_desktop.Base.Tests.{ltb, if◌then◌else◌}

-- The digits of `n`, with `n + 1` as more rounds than there are digits.
unfoldable pub decimal_digits : ℕ → ℕ → Bytes
decimal_digits zero n = []
decimal_digits (suc f) n =
    let before = decimal_digits f (n / 10) in
    if ltb n 10 then (b'0' + n) ∷ [] else before ++ ((b'0' + n % 10) ∷ [])

unfoldable pub decimal : ℕ → Bytes
unfolding decimal_digits
decimal n = decimal_digits (suc n) n
