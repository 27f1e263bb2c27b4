-- ===== src/Json/Floats.antt =====
-- What linux/src/json.cpp uses of the type double and of the C library's functions on it. Floating
-- point is not modelled: the type and the functions are a parameter.
use harness_desktop.Base.{Bool, Bytes}

pub record Floats : Type 1 where
  pub Double : Type 0
  -- strtod(text, nullptr)
  pub strtod : Bytes → Double
  -- std::isfinite(n); n == std::floor(n); std::fabs(n) < 9.0e15
  pub is_finite : Double → Bool
  pub is_integral : Double → Bool
  pub is_below_9e15 : Double → Bool
  -- snprintf(buf, 32, "%.0f", n); snprintf(buf, 32, "%g", n)
  pub print_f0 : Double → Bytes
  pub print_g : Double → Bytes
