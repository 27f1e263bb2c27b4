-- ===== src/Server/Ports.antt =====
-- Which port ResolvePort (linux/src/server_manager.cpp) returns.
use harness_desktop.Base.{
  ℕ, zero, suc, ◌+◌, ◌-◌, ◌%◌, ◌<◌, ◌≡◌, refl, ◌∙◌, ap, subst, sym, Bool, true, false, ◌==◌, ◌&&◌,
  if◌then◌else◌, Bool-cases, inl, inr, ltb, arith,
}
use harness_desktop.Settings.{Settings}
use harness_desktop.Server.Port.{Network, looks_like_dsh_web, walk_ports, resolve_port}

-- The k-th port that is tried from `port` on: behind 65535 comes 1024, and 0 counts as 1024.
unfoldable pub candidate : ℕ → ℕ → ℕ
candidate port k =
    let first = if port == 0 then 1024 else port in
    if ltb (first + k) 65536 then first + k else first + k - 65536 + 1024

candidate_zero : (port : ℕ) → port < 65536 → candidate port 0 ≡ (if port == 0 then 1024 else port)
unfolding candidate
candidate_zero port h = ground arith

candidate_next :
    (port k : ℕ)
    → port < 65536
    → k < 64000
    → candidate ((candidate port 0 + 1) % 65536) k ≡ candidate port (suc k)
unfolding candidate
candidate_next port k h l = ground arith

module _ (net : Network) (s : Settings) where
  abbrev busy : ℕ → ℕ → Bool
  busy clock port = net.listens clock (s.host) port

  -- What a walk from `port` on may return: the first candidate that refused its probe, or, when
  -- each of them accepted, the configured port.
  pub data Walked (tries clock port : ℕ) : ℕ × ℕ → Type 0 where
    found :
        (k : ℕ)
        → k < tries
        → busy (clock + k) (candidate port k) ≡ false
        → ((j : ℕ) → j < k → busy (clock + j) (candidate port j) ≡ true)
        → Walked tries clock port (candidate port k, clock + k + 1)
    none_free :
        ((j : ℕ) → j < tries → busy (clock + j) (candidate port j) ≡ true)
        → Walked tries clock port (s.port, clock + tries)

  abbrev AllBusy : ℕ → ℕ → ℕ → Type 0
  AllBusy k clock port = (j : ℕ) → j < k → busy (clock + j) (candidate port j) ≡ true

  busy_next :
      (clock port j : ℕ)
      → port < 65536
      → j < 64000
      → busy (suc clock + j) (candidate ((candidate port 0 + 1) % 65536) j)
        ≡ busy (clock + suc j) (candidate port (suc j))
  busy_next clock port j h l =
      let e : suc clock + j ≡ clock + suc j = omega arith in
      λ i. busy (e i) (candidate_next port j h l i)

  AllBusy-suc :
      (k clock port : ℕ)
      → port < 65536
      → k < 64000
      → busy clock (candidate port 0) ≡ true
      → AllBusy k (suc clock) ((candidate port 0 + 1) % 65536)
      → AllBusy (suc k) clock port
  AllBusy-suc k clock port h l first later zero j =
      let e : clock + 0 ≡ clock = omega arith in ap (λ t. busy t (candidate port 0)) e ∙ first
  AllBusy-suc k clock port h l first later (suc j) i =
      sym (busy_next clock port j h (omega arith)) ∙ later j (omega arith)

  Walked-next :
      (tries clock port : ℕ) {r : ℕ × ℕ}
      → port < 65536
      → tries < 64000
      → busy clock (candidate port 0) ≡ true
      → Walked tries (suc clock) ((candidate port 0 + 1) % 65536) r
      → Walked (suc tries) clock port r
  Walked-next tries clock port h l first (found k lt free later) =
      let e : clock + suc k + 1 ≡ suc clock + k + 1 = omega arith in
      let c = sym (candidate_next port k h (omega arith)) in
      subst (Walked (suc tries) clock port) (λ i. (c i, e i))
        (found (suc k) (omega arith) (sym (busy_next clock port k h (omega arith)) ∙ free)
          (AllBusy-suc k clock port h (omega arith) first later))
  Walked-next tries clock port h l first (none_free later) =
      let e : clock + suc tries ≡ suc clock + tries = omega arith in
      subst (Walked (suc tries) clock port) (λ i. (s.port, e i))
        (none_free (AllBusy-suc tries clock port h l first later))

  Walked-walk_ports :
      (tries clock port : ℕ)
      → port < 65536
      → tries < 64000
      → Walked tries clock port (walk_ports net s tries clock port)
  unfolding walk_ports
  Walked-walk_ports zero clock port h l =
      let e : clock + 0 ≡ clock = omega arith in
      subst (Walked 0 clock port) (λ i. (s.port, e i)) (none_free λ j i. absurd (omega arith))
  Walked-walk_ports (suc tries) clock port h l = elim (Bool-cases (busy clock (candidate port 0))) [
    | inl e ↦ rw (sym (candidate_zero port h)) (
        rw e (
          Walked-next tries clock port h (omega arith) e (
            Walked-walk_ports tries (suc clock) ((candidate port 0 + 1) % 65536) (omega arith)
              (omega arith))))
    | inr e ↦
        let z : clock + 0 ≡ clock = omega arith in
        let n : clock + 0 + 1 ≡ suc clock = omega arith in
        rw (sym (candidate_zero port h)) (
          rw e (
            subst (Walked (suc tries) clock port) (λ i. (candidate port 0, n i))
              (found 0 (omega arith) (ap (λ t. busy t (candidate port 0)) z ∙ e)
                λ j i. absurd (omega arith))))
  ]

  -- What ResolvePort may return: the configured port, which accepts connections and answers like a
  -- dsh server, or what the walk from there on finds.
  pub data Resolved : ℕ × ℕ → Type 0 where
    reused :
        busy 0 (s.port) ≡ true
        → looks_like_dsh_web net 1 (s.host) (s.port) ≡ true
        → Resolved (s.port, 2)
    walked :
        (clock : ℕ) {r : ℕ × ℕ}
        → (busy 0 (s.port) && looks_like_dsh_web net 1 (s.host) (s.port)) ≡ false
        → Walked 100 clock (s.port) r
        → Resolved r

  -- ResolvePort returns the configured port if a dsh server answers there. Else it returns the first
  -- of the 100 candidates from the configured port on that refused its probe, and the configured
  -- port if all of them accepted; behind 65535 the candidates go on with 1024.
  pub Resolved-resolve_port : s.port < 65536 → Resolved (resolve_port net s)
  unfolding resolve_port
  Resolved-resolve_port h = elim (Bool-cases (busy 0 (s.port))) [
    | inl e ↦ rw e (elim (Bool-cases (looks_like_dsh_web net 1 (s.host) (s.port))) [
      | inl w ↦ rw w (reused e w)
      | inr w ↦ rw w (walked 2 (rw (e, w) refl) (Walked-walk_ports 100 2 (s.port) h (omega arith)))
    ])
    | inr e ↦ rw e (walked 1 (rw e refl) (Walked-walk_ports 100 1 (s.port) h (omega arith)))
  ]

  Walked-fits :
      (tries clock port : ℕ) {r : ℕ × ℕ}
      → s.port < 65536
      → port < 65536
      → tries < 64000
      → Walked tries clock port r
      → r.0 < 65536
  unfolding candidate
  Walked-fits tries clock port h p l (found k lt free later) = ground arith
  Walked-fits tries clock port h p l (none_free later) = h

  -- The port that ResolvePort returns has 16 bits.
  pub Resolved-fits : {r : ℕ × ℕ} → s.port < 65536 → Resolved r → r.0 < 65536
  Resolved-fits h (reused b w) = h
  Resolved-fits h (walked clock b w) = Walked-fits 100 clock (s.port) h h (omega arith) w
