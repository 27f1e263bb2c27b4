-- ===== src/Settings/Examples.antt =====
-- The theorems on linux/src/settings.cpp at concrete command lines.
use harness_desktop.Base.{
  ◌≡◌, refl, true, List, [], ◌∷◌, ◌++◌, Option, none, some, Bytes, codes, bytes_eq, All,
  if◌then◌else◌, arith,
}
use harness_desktop.Base.Decimal.{decimal}
use harness_desktop.Settings.{configured, takes_value, atoi_u16, parse, environment_settings}
use harness_desktop.Settings.Arguments.{atoi_u16-decimal, args_of, apply_all, parse-port_last}

atoi_u16-decimal_example : atoi_u16 (decimal 9494) ≡ 9494
atoi_u16-decimal_example = atoi_u16-decimal 9494 (omega arith)

-- The environment with DSH_WEBVIEW_PORT alone.
abbrev port_only : Bytes → Option Bytes
port_only name = if bytes_eq name (codes "DSH_WEBVIEW_PORT") then some (codes "70000") else none

abbrev options : List (Bytes × Bytes)
options = (codes "--host", codes "0.0.0.0") ∷ (codes "--port", codes "80") ∷ []

options_taken : All (λ p. takes_value p.0 ≡ true) options
unfolding bytes_eq
options_taken = (refl, (refl, tt))

parse-port_last_example :
    parse port_only (args_of options ++ (codes "--port" ∷ decimal 8080 ∷ []))
    ≡ configured (record (apply_all (environment_settings port_only) options) { port = 8080 })
parse-port_last_example = parse-port_last port_only options 8080 options_taken (omega arith)
