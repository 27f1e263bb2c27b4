-- ===== src/Base/Find.antt =====
-- Where std::string::find finds a text that stands nowhere before.
use Prim.Native.Nat.{ℕ, suc, ◌+◌, ◌≤◌}
use mathlib.Core.Path.{◌≡◌, refl, ◌∙◌, sym, ap}
use mathlib.Core.Bool.{Bool, true, false, not, ◌&&◌}
use mathlib.Core.Option
use mathlib.Core.Option.{Option, some}
use mathlib.Core.List.{[], ◌∷◌, ◌++◌, append_assoc}
use native.Mathlib.Omega.{arith}
use harness_desktop.Base.Text.{Bytes, starts_with, find?}
use harness_desktop.Base.Lists.{length, length-append, take, drop}
use harness_desktop.Base.Tests.{◌==◌, if◌then◌else◌}

starts_with-append :
    (p t s : Bytes) → length p ≤ length t → starts_with p (t ++ s) ≡ starts_with p t
unfolding starts_with
starts_with-append [] t s h = refl
starts_with-append (b ∷ p) [] s h = absurd (omega arith)
starts_with-append (b ∷ p) (c ∷ t) s h =
    ap (λ x. b == c && x) (starts_with-append p t s (omega arith))

starts_with_self : (p s : Bytes) → starts_with p (p ++ s) ≡ true
unfolding starts_with
starts_with_self [] s = refl
starts_with_self (b ∷ p) s = ground (arith, starts_with_self p s)

-- `p` stands nowhere before the end of `pre ++ p`.
abbrev pub occurs_first : Bytes → Bytes → Bool
occurs_first p [] = true
occurs_first p (c ∷ pre) = not (starts_with p (c ∷ (pre ++ p))) && occurs_first p pre

pub find?-first :
    (b : ℕ) (p pre s : Bytes)
    → occurs_first (b ∷ p) pre ≡ true
    → find? (b ∷ p) (pre ++ ((b ∷ p) ++ s)) ≡ some (length pre)
unfolding find?
find?-first b p [] s h =
    let later = Option.map suc (find? (b ∷ p) (p ++ s)) in
    ap (λ x. if x then some 0 else later) (starts_with_self (b ∷ p) s)
find?-first b p (c ∷ pre) s h =
    let whole = pre ++ ((b ∷ p) ++ s) in
    let hc : starts_with (b ∷ p) (c ∷ (pre ++ (b ∷ p))) ≡ false = ground arith in
    let rest : occurs_first (b ∷ p) pre ≡ true = ground arith in
    let e : starts_with (b ∷ p) (c ∷ whole) ≡ false =
      ap (λ x. starts_with (b ∷ p) (c ∷ x)) (sym (append_assoc pre (b ∷ p) s))
      ∙ (starts_with-append (b ∷ p) (c ∷ (pre ++ (b ∷ p))) s
            (omega (arith, length-append pre (b ∷ p)))
          ∙ hc) in
    ap (λ x. if x then some 0 else Option.map suc (find? (b ∷ p) whole)) e
    ∙ ap (Option.map suc) (find?-first b p pre s rest)

pub drop_self : (s t : Bytes) → drop (length s) (s ++ t) ≡ t
drop_self [] t = refl
drop_self (c ∷ s) t = drop_self s t

pub drop-append : (s t : Bytes) (n : ℕ) → drop (length s + n) (s ++ t) ≡ drop n t
drop-append [] t n = let e : 0 + n ≡ n = omega arith in ap (λ k. drop k t) e
drop-append (c ∷ s) t n =
    let e : suc (length s) + n ≡ suc (length s + n) = omega arith in
    ap (λ k. drop k (c ∷ (s ++ t))) e ∙ drop-append s t n

pub take_self : (s t : Bytes) → take (length s) (s ++ t) ≡ s
take_self [] t = refl
take_self (c ∷ s) t = ap (λ x. c ∷ x) (take_self s t)
