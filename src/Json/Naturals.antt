-- ===== src/Json/Naturals.antt =====
-- An instance of the parameter of linux/src/json.cpp on which the codec runs.
use harness_desktop.Base.{ℕ, true}
use harness_desktop.Base.Decimal.{decimal}
use harness_desktop.Settings.{leading_number}
use harness_desktop.Json.Floats.{Floats}

-- Doubles that are natural numbers, printed in decimal.
abbrev pub naturals : Floats
naturals = record {
  Double = ℕ;
  strtod = leading_number 0;
  is_finite = λ n. true;
  is_integral = λ n. true;
  is_below_9e15 = λ n. true;
  print_f0 = decimal;
  print_g = decimal;
}
