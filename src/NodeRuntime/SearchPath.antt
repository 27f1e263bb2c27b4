-- ===== src/NodeRuntime/SearchPath.antt =====
-- EnsureOnPath (linux/src/node_runtime_manager.cpp): the entries of PATH behind it.
use harness_desktop.Base.{
  ℕ, ◌≡◌, refl, ◌∙◌, ap, Bool, false, ◌||◌, List, [], ◌∷◌, ◌++◌, Bytes, codes, bytes_eq,
  bytes_eq_self, if◌then◌else◌, append_assoc, append-nil, Bool-cases, inl, inr, ◌==◌, arith,
}
use harness_desktop.Util.Dirs.{get_env}
use harness_desktop.NodeRuntime.{Machine, Environment, bin_dir, has_entry, ensure_on_path, set_env}

-- The parts of a text between its colons.
abbrev pub push_first : ℕ → List Bytes → List Bytes
push_first c [] = (c ∷ []) ∷ []
push_first c (e ∷ es) = (c ∷ e) ∷ es

abbrev pub entries : Bytes → List Bytes
entries [] = [] ∷ []
entries (c ∷ s) = if c == b':' then [] ∷ entries s else push_first c (entries s)

abbrev pub is_member : Bytes → List Bytes → Bool
is_member e [] = false
is_member e (f ∷ fs) = bytes_eq f e || is_member e fs

abbrev prepend : Bytes → List Bytes → List Bytes
prepend p [] = p ∷ []
prepend p (e ∷ es) = (p ++ e) ∷ es

abbrev pub has_colon : Bytes → Bool
has_colon [] = false
has_colon (c ∷ s) = c == b':' || has_colon s

prepend-push_first :
    (p : Bytes) (c : ℕ) (es : List Bytes) → prepend (p ++ (c ∷ [])) es ≡ prepend p (push_first c es)
prepend-push_first p c [] = refl
prepend-push_first p c (e ∷ es) = rw (append_assoc p (c ∷ []) e) refl

prepend_nil-push_first : (c : ℕ) (es : List Bytes) → prepend [] (push_first c es) ≡ push_first c es
prepend_nil-push_first c [] = refl
prepend_nil-push_first c (e ∷ es) = refl

prepend_nil-entries : (s : Bytes) → prepend [] (entries s) ≡ entries s
prepend_nil-entries [] = refl
prepend_nil-entries (c ∷ s) = elim (Bool-cases (c == b':')) [
  | inl e ↦ rw e refl
  | inr e ↦ rw e (prepend_nil-push_first c (entries s))
]

-- The loop looks for `bin` among the parts.
has_entry-entries :
    (bin entry s : Bytes) → has_entry bin entry s ≡ is_member bin (prepend entry (entries s))
unfolding has_entry
has_entry-entries bin entry [] = rw (append-nil entry) (ground arith)
has_entry-entries bin entry (c ∷ s) = elim (Bool-cases (c == b':')) [
  | inl e ↦
      rw e
        (rw (append-nil entry) (rw (has_entry-entries bin [] s) (rw (prepend_nil-entries s) refl)))
  | inr e ↦ rw e (
      has_entry-entries bin (entry ++ (c ∷ [])) s
      ∙ rw (prepend-push_first entry c (entries s)) refl)
]

entries-colon : (p s : Bytes) → has_colon p ≡ false → entries (p ++ (b':' ∷ s)) ≡ p ∷ entries s
entries-colon [] s h = refl
entries-colon (c ∷ p) s h =
    let hc : (c == b':') ≡ false = ground arith in
    let hp : has_colon p ≡ false = ground arith in rw hc (rw (entries-colon p s hp))

module _ (m : Machine) (env : Environment) where
  get_env-set_env : (name v : Bytes) → get_env (set_env name v env) name ≡ v
  unfolding get_env
  get_env-set_env name v = rw (bytes_eq_self name, get_env) refl

  ensure_on_path-by :
      (b : Bool)
      → has_entry (bin_dir m env) [] (get_env env (codes "PATH")) ≡ b
      → ensure_on_path m env ≡ (
          if b
          then env
          else set_env (codes "PATH") (bin_dir m env ++ (b':' ∷ get_env env (codes "PATH"))) env)
  ensure_on_path-by b h = unfold ensure_on_path in rw h refl

  -- Behind EnsureOnPath the entries of PATH are those before it, with the directory of the runtime
  -- in front if it was not among them, provided that directory has no colon.
  pub ensure_on_path-entries :
      has_colon (bin_dir m env) ≡ false
      → let before = entries (get_env env (codes "PATH")) in
        entries (get_env (ensure_on_path m env) (codes "PATH"))
        ≡ (if is_member (bin_dir m env) before then before else bin_dir m env ∷ before)
  ensure_on_path-entries h =
      let path = get_env env (codes "PATH") in
      let found : has_entry (bin_dir m env) [] path ≡ is_member (bin_dir m env) (entries path) =
        has_entry-entries (bin_dir m env) [] path
        ∙ ap (is_member (bin_dir m env)) (prepend_nil-entries path) in
      elim (Bool-cases (is_member (bin_dir m env) (entries path))) [
        | inl e ↦
            rw e (ap (λ x. entries (get_env x (codes "PATH"))) (ensure_on_path-by _ (found ∙ e)))
        | inr e ↦ rw e (
            ap (λ x. entries (get_env x (codes "PATH"))) (ensure_on_path-by _ (found ∙ e))
            ∙ (ap entries (get_env-set_env (codes "PATH") (bin_dir m env ++ (b':' ∷ path)))
                ∙ entries-colon (bin_dir m env) path h))
      ]
