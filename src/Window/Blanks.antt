-- ===== src/Window/Blanks.antt =====
-- The relay address that the settings dialog saves (linux/src/main_window.cpp).
use harness_desktop.Base.{
  ◌≡◌, refl, ap, ◌∙◌, Bool, true, false, not, ◌||◌, ◌&&◌, ◌⊎◌, [], ◌∷◌, ◌++◌, Bytes, codes,
  is_empty, starts_with, Bool-cases, if-elim, inl, inr, arith,
}
use harness_desktop.Plugins.Dialog.Rows.{is_blank, skip_blanks, drop_trailing, trim}
use harness_desktop.Window.Relay.{is_loopback_host, with_scheme, normalize_relay}

-- no blank at the front, and none at the end
abbrev has_front : Bytes → Bool
has_front [] = true
has_front (c ∷ s) = not (is_blank c)

has_front-skip_blanks : (s : Bytes) → has_front (skip_blanks s) ≡ true
unfolding skip_blanks
has_front-skip_blanks [] = refl
has_front-skip_blanks (c ∷ s) = elim (Bool-cases (is_blank c)) [
  | inl e ↦ rw e (has_front-skip_blanks s)
  | inr e ↦ rw e (rw e refl)
]

skip_blanks-front : (s : Bytes) → has_front s ≡ true → skip_blanks s ≡ s
unfolding skip_blanks
skip_blanks-front [] h = refl
skip_blanks-front (c ∷ s) h = let e : is_blank c ≡ false = ground arith in rw e refl

has_front-drop_trailing : (s : Bytes) → has_front s ≡ true → has_front (drop_trailing s) ≡ true
unfolding drop_trailing
has_front-drop_trailing [] h = refl
has_front-drop_trailing (c ∷ s) h =
    if-elim (λ x. has_front x ≡ true) (is_empty (drop_trailing s) && is_blank c) (λ _. refl)
      (λ _. h)

drop_trailing-drop_trailing : (s : Bytes) → drop_trailing (drop_trailing s) ≡ drop_trailing s
unfolding drop_trailing
drop_trailing-drop_trailing [] = refl
drop_trailing-drop_trailing (c ∷ s) = elim (Bool-cases (is_empty (drop_trailing s) && is_blank c)) [
  | inl e ↦ rw e refl
  | inr e ↦ rw e (rw (drop_trailing-drop_trailing s, e) refl)
]

-- A text in front of one that does not end with a blank, and is not empty, keeps its bytes.
drop_trailing-append :
    (p s : Bytes) → is_empty s ≡ false → drop_trailing s ≡ s → drop_trailing (p ++ s) ≡ p ++ s
unfolding drop_trailing
drop_trailing-append [] s h e = e
drop_trailing-append (c ∷ p) s h e =
    let filled : is_empty (p ++ s) ≡ false = is_empty-append p s h in
    rw (drop_trailing-append p s h e, filled) refl
  where
    is_empty-append : (p s : Bytes) → is_empty s ≡ false → is_empty (p ++ s) ≡ false
    is_empty-append [] s h = h
    is_empty-append (c ∷ p) s h = refl

abbrev IsTrimmed : Bytes → Type 0
IsTrimmed s = trim s ≡ s

IsTrimmed-trim : (s : Bytes) → IsTrimmed (trim s)
unfolding trim
IsTrimmed-trim s =
    let front = has_front-drop_trailing (skip_blanks s) (has_front-skip_blanks s) in
    ap drop_trailing (skip_blanks-front (drop_trailing (skip_blanks s)) front)
    ∙ drop_trailing-drop_trailing (skip_blanks s)

drop_trailing-trim : (s : Bytes) → drop_trailing (trim s) ≡ trim s
unfolding trim
drop_trailing-trim s = drop_trailing-drop_trailing (skip_blanks s)

-- an address that stays as it is: blanks at no end, and a scheme unless it is empty
abbrev pub has_scheme : Bytes → Bool
has_scheme r = starts_with (codes "http://") r || starts_with (codes "https://") r

IsTrimmed-prefixed :
    (p r : Bytes)
    → has_front (p ++ r) ≡ true
    → is_empty r ≡ false
    → drop_trailing r ≡ r
    → IsTrimmed (p ++ r)
unfolding trim
IsTrimmed-prefixed p r front filled e =
    ap drop_trailing (skip_blanks-front (p ++ r) front) ∙ drop_trailing-append p r filled e

-- what stays as it is when it is saved again
abbrev IsNormal : Bytes → Type 0
IsNormal r = IsTrimmed r × ((is_empty r || has_scheme r) ≡ true)

with_scheme-normal : (r : Bytes) → (is_empty r || has_scheme r) ≡ true → with_scheme r ≡ r
unfolding with_scheme
with_scheme-normal r h =
    if-elim (λ x. x ≡ r)
      (not (is_empty r)
        && (not (starts_with (codes "http://") r) && not (starts_with (codes "https://") r)))
      (λ no. absurd (ground arith)) (λ _. refl)

IsNormal-with_scheme :
    (raw : Bytes) → IsTrimmed raw → drop_trailing raw ≡ raw → IsNormal (with_scheme raw)
unfolding with_scheme
IsNormal-with_scheme raw t e =
    if-elim IsNormal
      (not (is_empty raw)
        && (not (starts_with (codes "http://") raw) && not (starts_with (codes "https://") raw)))
      (λ bare.
        let filled : is_empty raw ≡ false = ground arith in
        if-elim IsNormal (is_loopback_host raw)
          (λ _. (IsTrimmed-prefixed (codes "http://") raw refl filled e, refl))
          (λ _. (IsTrimmed-prefixed (codes "https://") raw refl filled e, refl)))
      (λ whole. (t, ground arith))

is_empty-eq : (r : Bytes) → (is_empty r || has_scheme r) ≡ true → (r ≡ []) ⊎ (has_scheme r ≡ true)
is_empty-eq [] h = inl refl
is_empty-eq (c ∷ s) h = inr h

-- The relay address that the settings dialog saves is empty or has one of the two schemes, and the dialog
-- saves it unchanged when it is opened with it and confirmed.
pub normalize_relay-normalize_relay :
    (text : Bytes)
    → ((normalize_relay text ≡ []) ⊎ (has_scheme (normalize_relay text) ≡ true))
      × (normalize_relay (normalize_relay text) ≡ normalize_relay text)
unfolding normalize_relay
normalize_relay-normalize_relay text =
    let raw = trim text in
    let (trimmed, known) =
      IsNormal-with_scheme raw (IsTrimmed-trim text) (drop_trailing-trim text) in
    (
      is_empty-eq (with_scheme raw) known,
      ap with_scheme trimmed ∙ with_scheme-normal (with_scheme raw) known,
    )
