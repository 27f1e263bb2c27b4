-- ===== src/Util/Version/Rounds.antt =====
-- One round of the loop of VersionNewer (linux/src/util.cpp), and the texts that it walks over.
use harness_desktop.Base.{
  ℕ, suc, ◌+◌, ◌-◌, ◌*◌, ◌≤◌, ◌<◌, ◌≡◌, refl, Bool, true, false, ◌&&◌, List, [], ◌∷◌, ◌++◌, Bytes,
  is_empty, ltb, ◌==◌, if◌then◌else◌, All, length, append_assoc, append-nil, arith,
}
use harness_desktop.Base.Outcome.{ok}
use harness_desktop.Util.Version.{
  max_int, is_digit, is_separator, version_component, skip_separators, version_newer,
}

-- The number that digits spell behind `n`.
abbrev pub value : ℕ → Bytes → ℕ
value n [] = n
value n (c ∷ s) = value (n * 10 + (c - b'0')) s

abbrev pub AreDigits : Bytes → Type 0
AreDigits = All (λ c. is_digit c ≡ true)

-- One component of a version: digits, at least one, that spell an int.
pub record IsComponent (s : Bytes) : Type 0 where
  pub digits : AreDigits s
  pub some_digit : 0 < length s
  pub fits : value 0 s ≤ max_int

-- The text of a version: its components with points between them, and the same behind a component.
abbrev pub dotted_behind : List Bytes → Bytes
dotted_behind [] = []
dotted_behind (s ∷ ss) = b'.' ∷ (s ++ dotted_behind ss)

abbrev pub dotted : List Bytes → Bytes
dotted [] = []
dotted (s ∷ ss) = s ++ dotted_behind ss

-- Components are compared in order, and a missing one counts as 0.
abbrev pub newer : List ℕ → List ℕ → Bool
newer [] [] = false
newer [] (y ∷ ys) = if y == 0 then newer [] ys else false
newer (x ∷ xs) [] = if x == 0 then newer xs [] else true
newer (x ∷ xs) (y ∷ ys) = if x == y then newer xs ys else ltb y x

abbrev pub values : List Bytes → List ℕ
values [] = []
values (s ∷ ss) = value 0 s ∷ values ss

-- A text that does not go on with a digit.
abbrev pub EndsDigits : Bytes → Type 0
EndsDigits [] = Unit
EndsDigits (c ∷ s) = is_digit c ≡ false

pub value-grows : (m : ℕ) (s : Bytes) (n : ℕ) → m ≤ n → m ≤ value n s
value-grows m [] n h = h
value-grows m (c ∷ s) n h = value-grows m s (n * 10 + (c - b'0')) (omega arith)

pub component_digits :
    (s rest : Bytes) (n : ℕ)
    → AreDigits s
    → value n s ≤ max_int
    → EndsDigits rest
    → version_component n (s ++ rest) ≡ ok (value n s, rest)
unfolding version_component
component_digits [] [] n h fits e = refl
component_digits [] (c ∷ rest) n h fits e = ground arith
component_digits (c ∷ s) rest n (hc, h) fits e =
    let m = n * 10 + (c - b'0') in
    ground (arith, component_digits s rest m h fits e, value-grows m s m (omega arith))

pub EndsDigits-behind :
    (ss : List Bytes) (rest : Bytes) → EndsDigits rest → EndsDigits (dotted_behind ss ++ rest)
EndsDigits-behind [] rest h = h
EndsDigits-behind (s ∷ ss) rest h = refl

-- A text that does not go on with a separator.
abbrev pub EndsSeparators : Bytes → Type 0
EndsSeparators [] = Unit
EndsSeparators (c ∷ s) = is_separator c ≡ false

pub skip_none : (s : Bytes) → EndsSeparators s → skip_separators s ≡ s
unfolding skip_separators
skip_none [] h = refl
skip_none (c ∷ s) h = ground arith

pub skip_one :
    (c : ℕ) (s : Bytes) → is_separator c ≡ true → EndsSeparators s → skip_separators (c ∷ s) ≡ s
skip_one c s h e = unfold skip_separators in rw h (skip_none s e)

pub EndsSeparators-component : (s rest : Bytes) → IsComponent s → EndsSeparators (s ++ rest)
EndsSeparators-component [] rest h = absurd (omega (arith, h.some_digit))
EndsSeparators-component (c ∷ s) rest h = let d : is_digit c ≡ true = h.digits.0 in ground arith

pub skip_behind :
    (s : Bytes) (ss : List Bytes) (rest : Bytes)
    → IsComponent s
    → skip_separators (dotted_behind (s ∷ ss) ++ rest) ≡ s ++ (dotted_behind ss ++ rest)
skip_behind s ss rest h =
    rw (append_assoc s (dotted_behind ss) rest)
      (skip_one b'.' _ refl (EndsSeparators-component s _ h))

pub component_behind :
    (s : Bytes) (ss : List Bytes) (rest : Bytes)
    → IsComponent s
    → EndsDigits rest
    → version_component 0 (s ++ (dotted_behind ss ++ rest))
      ≡ ok (value 0 s, dotted_behind ss ++ rest)
component_behind s ss rest h e =
    component_digits s _ 0 h.digits h.fits (EndsDigits-behind ss rest e)

pub pick {ℓ} :
    {A : Type ℓ} (b : Bool) (p q : A) → (elim b [ false ↦ p | true ↦ q ]) ≡ (if b then q else p)
pick true p q = refl
pick false p q = refl

-- One round of the loop.
pub round :
    (f x y : ℕ) (a b a' b' : Bytes)
    → (is_empty a && is_empty b) ≡ false
    → version_component 0 a ≡ ok (x, a')
    → version_component 0 b ≡ ok (y, b')
    → version_newer (suc f) a b
      ≡ (if x == y then version_newer f (skip_separators a') (skip_separators b') else ok (ltb y x))
unfolding version_newer
round f x y a b a' b' h ha hb =
    rw (h, version_newer) (rw (ha, version_newer) (rw (hb, version_newer) (pick (x == y) _ _)))

pub is_empty-component :
    (s rest b : Bytes) → IsComponent s → (is_empty (s ++ rest) && is_empty b) ≡ false
is_empty-component [] rest b h = absurd (omega (arith, h.some_digit))
is_empty-component (c ∷ s) rest b h = refl

pub is_empty-component_right :
    (s rest b : Bytes) → IsComponent s → (is_empty b && is_empty (s ++ rest)) ≡ false
is_empty-component_right [] rest b h = absurd (omega (arith, h.some_digit))
is_empty-component_right (c ∷ s) rest [] h = refl
is_empty-component_right (c ∷ s) rest (d ∷ b) h = refl

pub component_nil : version_component 0 [] ≡ ok (0, [])
unfolding version_component
component_nil = refl

pub skip_nil : skip_separators [] ≡ []
unfolding skip_separators
skip_nil = refl

-- the rest of a version behind a component, with the separators skipped
pub skip_rest :
    (ss : List Bytes) → All IsComponent ss → skip_separators (dotted_behind ss) ≡ dotted ss
skip_rest [] h = skip_nil
skip_rest (s ∷ ss) h = skip_one b'.' _ refl (EndsSeparators-component s _ h.0)

pub component_front :
    (s : Bytes) (ss : List Bytes)
    → IsComponent s
    → version_component 0 (dotted (s ∷ ss)) ≡ ok (value 0 s, dotted_behind ss)
component_front s ss h =
    component_digits s (dotted_behind ss) 0 h.digits h.fits
      (rw append-nil at (EndsDigits-behind ss [] tt))
