-- ===== src/Windows/Guard.antt =====
-- EnvGuard of windows/src/util.cpp. The environment is a function on the names, which stand without
-- their case, and a wide string is the list of its code units.
use harness_desktop.Base.{
  ◌≡◌, refl, sym, ◌∙◌, ap, fun_ext, not, List, [], ◌∷◌, Option, none, some, Bytes, bytes_eq,
  bytes_eq_iff, is_empty, if◌then◌else◌, Bool-cases, inl, inr, if-elim,
}

abbrev pub Environment : Type 0
Environment = Bytes → Option Bytes

-- SetEnvironmentVariableW; a null value removes the variable.
abbrev pub set_variable : Bytes → Option Bytes → Environment → Environment
set_variable name value env n = if bytes_eq n name then value else env n

-- EnvGuard::Entry, with `existed` and `oldValue` as an option
pub record Entry : Type 0 where
  pub name : Bytes
  pub old : Option Bytes

-- the environment and the entries of the guard, the last one first
pub record Guarded : Type 0 where
  pub env : Environment
  pub entries : List Entry

-- EnvGuard::Set
unfoldable pub set : Bytes → Bytes → Guarded → Guarded
set name value g = record {
  env = set_variable name (some value) (g.env);
  entries = record { name = name; old = g.env name } ∷ g.entries;
}

-- GetEnv: a variable that is not there is empty.
abbrev pub get_env : Option Bytes → Bytes
get_env none = []
get_env (some value) = value

-- EnvGuard::SetIfAbsent
unfoldable pub set_if_absent : Bytes → Bytes → Guarded → Guarded
unfolding set
set_if_absent name value g = if not (is_empty (get_env (g.env name))) then g else set name value g

-- the loop of EnvGuard::~EnvGuard
unfoldable pub restore : List Entry → Environment → Environment
restore [] env = env
restore (e ∷ es) env = restore es (set_variable (e.name) (e.old) env)

-- A use of the guard, and its uses in a row.
pub data Call : Type 0 where
  sets sets_if_absent : Bytes → Bytes → Call

unfoldable pub call : Call → Guarded → Guarded
unfolding set set_if_absent
call (sets name value) g = set name value g
call (sets_if_absent name value) g = set_if_absent name value g

unfoldable pub calls : List Call → Guarded → Guarded
unfolding call
calls [] g = g
calls (c ∷ cs) g = calls cs (call c g)

abbrev restored : Guarded → Environment
restored g = restore (g.entries) (g.env)

set_variable-back :
    (name : Bytes) (value : Option Bytes) (env : Environment)
    → set_variable name (env name) (set_variable name value env) ≡ env
set_variable-back name value env = fun_ext λ n. elim (Bool-cases (bytes_eq n name)) [
  | inl e ↦ rw e (ap env (sym ((bytes_eq_iff n name).0 e)))
  | inr e ↦ rw e refl
]

restored-set : (name value : Bytes) (g : Guarded) → restored (set name value g) ≡ restored g
unfolding set restore
restored-set name value g = ap (restore (g.entries)) (set_variable-back name (some value) (g.env))

restored-call : (c : Call) (g : Guarded) → restored (call c g) ≡ restored g
unfolding call set_if_absent
restored-call (sets name value) g = restored-set name value g
restored-call (sets_if_absent name value) g =
    if-elim (λ (t : Guarded). restored t ≡ restored g) (not (is_empty (get_env (g.env name))))
      (λ e. refl) λ e. restored-set name value g

restored-calls : (cs : List Call) (g : Guarded) → restored (calls cs g) ≡ restored g
unfolding calls
restored-calls [] g = refl
restored-calls (c ∷ cs) g = restored-calls cs (call c g) ∙ restored-call c g

-- A guard that goes out of scope leaves the environment that it found, whatever was set through it and
-- however often: variables that did not exist are removed.
pub restore-calls :
    (cs : List Call) (env : Environment)
    → restore
        ((calls cs (record { env = env; entries = [] })).entries)
        ((calls cs (record { env = env; entries = [] })).env)
      ≡ env
unfolding restore
restore-calls cs env = restored-calls cs (record { env = env; entries = [] })
