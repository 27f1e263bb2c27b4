-- ===== src/Util/Version/Suffix.antt =====
-- VersionNewer (linux/src/util.cpp) on versions with a suffix such as "-beta.1".
use harness_desktop.Base.{
  ℕ, zero, suc, ◌≡◌, refl, ◌∙◌, false, List, [], ◌∷◌, ◌++◌, ==_self, Bytes, All, append_assoc,
}
use harness_desktop.Base.Outcome.{ok, out_of_fuel}
use harness_desktop.Util.Version.{
  is_digit, is_separator, version_component, skip_separators, version_newer,
}
use harness_desktop.Util.Version.Rounds.{
  value, IsComponent, dotted_behind, dotted, EndsDigits, skip_none, skip_one, skip_behind,
  component_behind, round, is_empty-component, skip_nil,
}

-- A text that begins with a byte that is neither a digit nor a separator.
abbrev pub IsStuck : Bytes → Type 0
IsStuck [] = ⊥
IsStuck (c ∷ s) = (is_digit c ≡ false) × (is_separator c ≡ false)

-- Nothing, or a suffix such as "-beta.1".
abbrev pub IsSuffix : Bytes → Type 0
IsSuffix [] = Unit
IsSuffix (c ∷ s) = (c ≡ b'-') × IsStuck s

abbrev NeverMoves : Bytes → Type 0
NeverMoves [] = Unit
NeverMoves (c ∷ s) = IsStuck (c ∷ s)

component_stuck : (s : Bytes) → NeverMoves s → version_component 0 s ≡ ok (0, s)
unfolding version_component
component_stuck [] h = refl
component_stuck (c ∷ s) (d, e) = rw d

skip_stuck : (s : Bytes) → NeverMoves s → skip_separators s ≡ s
skip_stuck [] h = skip_nil
skip_stuck (c ∷ s) (d, e) = skip_none (c ∷ s) e

-- Once one text begins with such a byte, and the other does too or has ended, no round moves.
stuck_forever : (f : ℕ) (s t : Bytes) → IsStuck s → NeverMoves t → version_newer f s t ≡ out_of_fuel
stuck_forever zero s t h k = unfold version_newer in refl
stuck_forever (suc f) [] t h k = absurd h
stuck_forever (suc f) (c ∷ s) t h k =
    round f 0 0 (c ∷ s) t (c ∷ s) t refl (component_stuck (c ∷ s) h) (component_stuck t k)
    ∙ rw (skip_stuck (c ∷ s) h) (rw (skip_stuck t k) (stuck_forever f (c ∷ s) t h k))

EndsDigits-suffix : (t : Bytes) → IsSuffix t → EndsDigits t
EndsDigits-suffix [] h = tt
EndsDigits-suffix (c ∷ t) (e, h) = rw e

skip-suffix : (t : Bytes) → IsSuffix t → NeverMoves (skip_separators t)
skip-suffix [] h = rw skip_nil tt
skip-suffix (c ∷ []) (e, h) = absurd h
skip-suffix (c ∷ d ∷ t) (e, h) = rw e (rw (skip_one b'-' (d ∷ t) refl h.1) h)

skip_dash : (s : Bytes) → IsStuck s → skip_separators (b'-' ∷ s) ≡ s
skip_dash [] h = absurd h
skip_dash (c ∷ s) h = skip_one b'-' (c ∷ s) refl h.1

hangs_behind :
    (xs : List Bytes) (s t : Bytes)
    → All IsComponent xs
    → IsStuck s
    → IsSuffix t
    → (f : ℕ)
    → version_newer f
        (skip_separators (dotted_behind xs ++ (b'-' ∷ s)))
        (skip_separators (dotted_behind xs ++ t))
      ≡ out_of_fuel
hangs_behind xs s t hx hs ht zero = unfold version_newer in refl
hangs_behind [] s t hx hs ht (suc f) =
    rw (skip_dash s hs) (stuck_forever (suc f) s (skip_separators t) hs (skip-suffix t ht))
hangs_behind (x ∷ xs) s t hx hs ht (suc f) = rw (skip_behind x xs (b'-' ∷ s) hx.0) (
    rw (skip_behind x xs t hx.0) (
      round f (value 0 x) (value 0 x) _ _ _ _ (is_empty-component x _ _ hx.0)
        (component_behind x xs (b'-' ∷ s) hx.0 refl)
        (component_behind x xs t hx.0 (EndsDigits-suffix t ht))
      ∙ rw (==_self (value 0 x)) (hangs_behind xs s t hx.1 hs ht f)))

-- VersionNewer does not return when its arguments have the same components, the first has a suffix
-- that begins with a dash and then a byte that is neither a digit nor a separator, and the second
-- has such a suffix or none: no number of rounds is enough.
pub version_newer-suffix_hangs :
    (x : Bytes) (xs : List Bytes) (s t : Bytes)
    → IsComponent x
    → All IsComponent xs
    → IsStuck s
    → IsSuffix t
    → (f : ℕ) → version_newer f (dotted (x ∷ xs) ++ (b'-' ∷ s)) (dotted (x ∷ xs) ++ t) ≡ out_of_fuel
version_newer-suffix_hangs x xs s t h hx hs ht zero = unfold version_newer in refl
version_newer-suffix_hangs x xs s t h hx hs ht (suc f) =
    rw (append_assoc x (dotted_behind xs) (b'-' ∷ s)) (
      rw (append_assoc x (dotted_behind xs) t) (
        round f (value 0 x) (value 0 x) _ _ _ _ (is_empty-component x _ _ h)
          (component_behind x xs (b'-' ∷ s) h refl)
          (component_behind x xs t h (EndsDigits-suffix t ht))
        ∙ rw (==_self (value 0 x)) (hangs_behind xs s t hx hs ht f)))
