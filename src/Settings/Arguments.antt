-- ===== src/Settings/Arguments.antt =====
-- Settings::Parse (linux/src/settings.cpp): which value of an option counts.
use mathlib.Core.List.{concat-ne-nil}
use harness_desktop.Base.{
  ℕ, zero, suc, ◌+◌, ◌-◌, ◌*◌, ◌/◌, ◌%◌, ◌≤◌, ◌<◌, ◌≡◌, ◌≢◌, refl, ◌∙◌, true, List, [], ◌∷◌, ◌++◌,
  Option, Bytes, codes, bytes_eq, ltb, All, All-append, Bool-cases, inl, inr, arith,
}
use harness_desktop.Base.Decimal.{decimal_digits, decimal}
use harness_desktop.Settings.{
  Settings, Parsed, configured, shows_usage, leading_number, atoi_u16, takes_value, is_help,
  apply_option, parse_args, environment_settings, parse,
}
use harness_desktop.Util.Dirs.{get_env}

abbrev AreDigits : Bytes → Type 0
AreDigits = All (λ c. (b'0' ≤ c) × (c ≤ b'9'))

leading_number-append :
    (s : Bytes) (d n : ℕ)
    → AreDigits s
    → (b'0' ≤ d) × (d ≤ b'9')
    → leading_number n (s ++ (d ∷ [])) ≡ leading_number n s * 10 + (d - b'0')
unfolding leading_number
leading_number-append [] d n h hd = ground arith
leading_number-append (c ∷ s) d n (hc, h) hd =
    ground (arith, leading_number-append s d (n * 10 + (c - b'0')) h hd)

AreDigits-decimal_digits : (f n : ℕ) → AreDigits (decimal_digits f n)
unfolding decimal_digits
AreDigits-decimal_digits zero n = tt
AreDigits-decimal_digits (suc f) n = elim (Bool-cases (ltb n 10)) [
  | inl e ↦ rw e (ground arith)
  | inr e ↦ rw e (
      All-append _ (decimal_digits f (n / 10)) _ (AreDigits-decimal_digits f (n / 10))
        (omega arith))
]

leading_number-decimal_digits : (f n : ℕ) → n < f → leading_number 0 (decimal_digits f n) ≡ n
unfolding decimal_digits
leading_number-decimal_digits zero n h = absurd (omega arith)
leading_number-decimal_digits (suc f) n h = elim (Bool-cases (ltb n 10)) [
  | inl e ↦ rw e (unfold leading_number in ground arith)
  | inr e ↦ rw e (
      leading_number-append (decimal_digits f (n / 10)) (b'0' + n % 10) 0
        (AreDigits-decimal_digits f (n / 10)) (omega arith)
      ∙ (let ih = leading_number-decimal_digits f (n / 10) (ground arith) in omega arith))
]

atoi-digits : (s : Bytes) → AreDigits s → s ≢ [] → atoi_u16 s ≡ leading_number 0 s % 65536
unfolding atoi_u16
atoi-digits [] h ne = absurd (ne refl)
atoi-digits (c ∷ s) (hc, h) ne = ground arith

decimal-ne-nil : (n : ℕ) → decimal n ≢ []
unfolding decimal decimal_digits
decimal-ne-nil n = ground (arith, concat-ne-nil (b'0' + n % 10) (decimal_digits n (n / 10)))

-- A number below 65536 that is printed in decimal is read back as a port.
pub atoi_u16-decimal : (n : ℕ) → n < 65536 → atoi_u16 (decimal n) ≡ n
unfolding decimal
atoi_u16-decimal n h =
    let ne : decimal_digits (suc n) n ≢ [] = decimal-ne-nil n in
    let read = leading_number-decimal_digits (suc n) n (omega arith) in
    atoi-digits (decimal_digits (suc n) n) (AreDigits-decimal_digits (suc n) n) ne ∙ omega arith

-- The options with their values, as they stand on a command line.
abbrev pub args_of : List (Bytes × Bytes) → List Bytes
args_of [] = []
args_of ((a, v) ∷ ps) = a ∷ v ∷ args_of ps

-- The options applied from left to right, so that the last one counts.
abbrev pub apply_all : Settings → List (Bytes × Bytes) → Settings
apply_all s [] = s
apply_all s ((a, v) ∷ ps) = apply_all (apply_option s a v) ps

-- The loop takes options with values off the front from left to right, whatever stands behind them.
pub parse_args-args_of :
    (ps : List (Bytes × Bytes)) (s : Settings) (rest : List Bytes)
    → All (λ p. takes_value p.0 ≡ true) ps
    → parse_args s (args_of ps ++ rest) ≡ parse_args (apply_all s ps) rest
unfolding parse_args
parse_args-args_of [] s rest h = refl
parse_args-args_of ((a, v) ∷ ps) s rest (ha, h) =
    rw ha (parse_args-args_of ps (apply_option s a v) rest h)

port_option :
    (s : Settings) (n : ℕ)
    → parse_args s (codes "--port" ∷ decimal n ∷ [])
      ≡ configured (record s { port = atoi_u16 (decimal n) })
unfolding parse_args bytes_eq
port_option s n = refl

-- `--port` with the decimal print of a port number sets that port, over the environment and over
-- every option before it, and the host and the command stay as they were set before.
pub parse-port_last :
    (env : Bytes → Option Bytes) (ps : List (Bytes × Bytes)) (n : ℕ)
    → All (λ p. takes_value p.0 ≡ true) ps
    → n < 65536
    → parse env (args_of ps ++ (codes "--port" ∷ decimal n ∷ []))
      ≡ configured (record (apply_all (environment_settings env) ps) { port = n })
unfolding parse
parse-port_last env ps n h lt =
    parse_args-args_of ps _ _ h ∙ (port_option _ n ∙ rw (atoi_u16-decimal n lt))

abbrev pub PortFits : Parsed → Type 0
PortFits (configured s) = s.port < 65536
PortFits shows_usage = Unit

atoi_u16-lt : (s : Bytes) → atoi_u16 s < 65536
unfolding atoi_u16
atoi_u16-lt [] = omega arith
atoi_u16-lt (c ∷ s) = ground (arith, atoi_u16-lt s)

apply_option-port :
    (s : Settings) (a v : Bytes) → s.port < 65536 → (apply_option s a v).port < 65536
unfolding apply_option
apply_option-port s a v h = ground (arith, atoi_u16-lt v)

parse_args-PortFits :
    (args : List Bytes) (s : Settings) → s.port < 65536 → PortFits (parse_args s args)
unfolding parse_args
parse_args-PortFits [] s h = h
parse_args-PortFits (a ∷ []) s h = elim (Bool-cases (takes_value a)) [
  | inl e ↦ rw e h
  | inr e ↦ rw e (elim (Bool-cases (is_help a)) [ inl k ↦ rw k tt | inr k ↦ rw k h ])
]
parse_args-PortFits (a ∷ v ∷ rest) s h = elim (Bool-cases (takes_value a)) [
  | inl e ↦ rw e (parse_args-PortFits rest (apply_option s a v) (apply_option-port s a v h))
  | inr e ↦ rw e (elim (Bool-cases (is_help a)) [
    | inl k ↦ rw k tt
    | inr k ↦ rw k (parse_args-PortFits (v ∷ rest) s h)
  ])
]

environment_settings-port : (env : Bytes → Option Bytes) → (environment_settings env).port < 65536
unfolding environment_settings
environment_settings-port env = ground (arith, atoi_u16-lt (get_env env (codes "DSH_WEBVIEW_PORT")))

-- Whatever the environment and the arguments, the settings returned have a 16-bit port.
pub parse-PortFits : (env : Bytes → Option Bytes) (args : List Bytes) → PortFits (parse env args)
unfolding parse
parse-PortFits env args =
    parse_args-PortFits args (environment_settings env) (environment_settings-port env)
