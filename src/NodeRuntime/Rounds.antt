-- ===== src/NodeRuntime/Rounds.antt =====
-- The loop of ResolveLatestLTS (linux/src/node_runtime_manager.cpp) ends.
use harness_desktop.Base.{
  ℕ, zero, suc, ◌+◌, ◌-◌, ◌≤◌, ◌<◌, ◌≡◌, refl, subst, ◌==◌, starts_with, false, [], ◌∷◌, none, some,
  Bytes, codes, find?, length, take, drop, Bool-cases, Option-cases, inl, inr, arith,
}
use harness_desktop.Base.Outcome.{Ends, holds}
use harness_desktop.Update.Extract.{has_quote}
use harness_desktop.NodeRuntime.Release.{entry_key, latest_lts, resolve_latest_lts, has_codename}

length-drop-le : (n : ℕ) (s : Bytes) → length (drop n s) ≤ length s - n
length-drop-le zero s = omega arith
length-drop-le (suc n) [] = omega arith
length-drop-le (suc n) (c ∷ s) = omega (arith, length-drop-le n s)

quote_before : (s : Bytes) (n : ℕ) → find? (b'"' ∷ []) s ≡ some n → has_quote (take n s) ≡ false
unfolding find? starts_with
quote_before [] n h = cc
quote_before (c ∷ s) n h = elim (Bool-cases (b'"' == c)) [
  | inl e ↦ let z : some 0 ≡ some n = rw e at h in ground arith
  | inr e ↦ elim (Option-cases (find? (b'"' ∷ []) s)) [
    | inl m ↦ let z : none ≡ some n = rw (e, m) at h in cc
    | inr (k, m) ↦
        let z : some (suc k) ≡ some n = rw (e, m) at h in
        let same : suc k ≡ n = cc in
        subst (λ x. has_quote (take x (c ∷ s)) ≡ false) same (ground (arith, quote_before s k m))
  ]
]

Ends-latest_lts :
    (f : ℕ) (s : Bytes) → length s < f → Ends (λ v. has_quote v ≡ false) (latest_lts f s)
unfolding latest_lts
Ends-latest_lts zero s h = absurd (omega arith)
Ends-latest_lts (suc f) [] h = unfold find? in holds refl
Ends-latest_lts (suc f) (c ∷ r) h = elim (Option-cases (find? entry_key (c ∷ r))) [
  | inl e ↦ rw (e, latest_lts) (holds refl)
  | inr (pos, e) ↦
      let version = drop (pos + 11) (c ∷ r) in
      elim (Option-cases (find? (codes "\"") version)) [
        | inl q ↦ rw (e, latest_lts, q) (holds refl)
        | inr (end, q) ↦ elim (Bool-cases (has_codename (drop end version))) [
          | inl k ↦ rw (e, latest_lts, q, k) (holds (quote_before version end q))
          | inr k ↦
              rw (e, latest_lts, q, k)
                (Ends-latest_lts f (drop (suc end) version) (
                  omega
                    (arith, length-drop-le (suc end) version, length-drop-le (pos + 11) (c ∷ r))))
        ]
      ]
]

-- ResolveLatestLTS returns on every index, within a round for each byte and one more, and the
-- version that it returns has no quote.
pub resolve_latest_lts-Ends :
    (json : Bytes) → Ends (λ v. has_quote v ≡ false) (resolve_latest_lts json)
unfolding resolve_latest_lts
resolve_latest_lts-Ends json = Ends-latest_lts (suc (length json)) json (omega arith)
