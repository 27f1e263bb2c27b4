-- ===== src/Windows/Order.antt =====
-- What CompareVersions (windows/src/dsh_update_manager.cpp) computes on versions of digit components.
use harness_desktop.Base.{
  ℕ, zero, suc, ◌+◌, ◌*◌, ◌-◌, ◌<◌, ◌≡◌, refl, sym, ap, ◌∙◌, true, false, ◌&&◌, ◌||◌, ◌==◌, List,
  [], ◌∷◌, ◌++◌, Bytes, All, length, ltb, leb, if◌then◌else◌, append_assoc, append-nil, arith,
}
use harness_desktop.Settings.{leading_number}
use harness_desktop.Util.Version.{is_digit}
use harness_desktop.Util.Version.Rounds.{
  value, AreDigits, IsComponent, dotted_behind, dotted, values,
}
use harness_desktop.Windows.Versions.{
  pieces, part_at, before_dash, atoi, value_of, part_value, Compared, older, same, newer,
  compare_from, compare_versions,
}

-- the first number of a list and the others, 0 for a missing one
abbrev pub front : List ℕ → ℕ
front [] = 0
front (n ∷ ns) = n

abbrev pub others : List ℕ → List ℕ
others [] = []
others (n ∷ ns) = ns

-- Numbers are compared in order, as many as the first argument says.
abbrev pub lexicographic : ℕ → List ℕ → List ℕ → Compared
lexicographic zero xs ys = same
lexicographic (suc n) xs ys =
    let later = lexicographic n (others xs) (others ys) in
    if ltb (front xs) (front ys) then older else if ltb (front ys) (front xs) then newer else later

abbrev number_at : ℕ → List ℕ → ℕ
number_at zero ns = front ns
number_at (suc i) ns = number_at i (others ns)

number_at-nil : (i : ℕ) → number_at i [] ≡ 0
number_at-nil zero = refl
number_at-nil (suc i) = number_at-nil i

leading_number-value : (n : ℕ) (s : Bytes) → AreDigits s → leading_number n s ≡ value n s
unfolding leading_number
leading_number-value n [] h = refl
leading_number-value n (c ∷ s) (hc, h) =
    let digit : (leb b'0' c && leb c b'9') ≡ true = ground arith in
    rw digit (leading_number-value (n * 10 + (c - b'0')) s h)

atoi-value : (s : Bytes) → IsComponent s → atoi s ≡ value 0 s
unfolding atoi
atoi-value [] h = refl
atoi-value (c ∷ s) h =
    let d : is_digit c ≡ true = h.digits.0 in
    let blank : (c == b' ' || (leb 9 c && leb c 13)) ≡ false = ground arith in
    let plus : (c == b'+') ≡ false = ground arith in
    rw (blank, plus) (leading_number-value 0 (c ∷ s) (h.digits))

before_dash-digits : (s : Bytes) → AreDigits s → before_dash s ≡ s
unfolding before_dash
before_dash-digits [] h = refl
before_dash-digits (c ∷ s) (hc, h) =
    let dash : (c == b'-') ≡ false = ground arith in
    let rest = before_dash-digits s h in rw (dash, rest) refl

pieces-digits :
    (part s rest : Bytes) → AreDigits s → pieces part (s ++ rest) ≡ pieces (part ++ s) rest
unfolding pieces
pieces-digits part [] rest h = ap (λ p. pieces p rest) (sym (append-nil part))
pieces-digits part (c ∷ s) rest (hc, h) =
    let point : (c == b'.') ≡ false = ground arith in
    rw point (
      pieces-digits (part ++ (c ∷ [])) s rest h
      ∙ ap (λ p. pieces p rest) (append_assoc part (c ∷ []) s))

pieces-behind :
    (part : Bytes) (xs : List Bytes)
    → 0 < length part
    → All IsComponent xs
    → pieces part (dotted_behind xs) ≡ part ∷ xs
unfolding pieces
pieces-behind [] xs l h = absurd (omega arith)
pieces-behind (c ∷ part) [] l h = refl
pieces-behind (c ∷ part) (x ∷ xs) l (hx, h) =
    ap (λ ps. (c ∷ part) ∷ ps)
      (pieces-digits [] x (dotted_behind xs) (hx.digits) ∙ pieces-behind x xs (hx.some_digit) h)

pieces-dotted : (xs : List Bytes) → All IsComponent xs → pieces [] (dotted xs) ≡ xs
unfolding pieces
pieces-dotted [] h = refl
pieces-dotted (x ∷ xs) (hx, h) =
    pieces-digits [] x (dotted_behind xs) (hx.digits) ∙ pieces-behind x xs (hx.some_digit) h

value_of-part_at :
    (i : ℕ) (xs : List Bytes)
    → All IsComponent xs
    → value_of (part_at i xs) ≡ number_at i (values xs)
value_of-part_at i [] h = sym (number_at-nil i)
value_of-part_at zero (x ∷ xs) (hx, h) =
    ap atoi (before_dash-digits x (hx.digits)) ∙ atoi-value x hx
value_of-part_at (suc i) (x ∷ xs) (hx, h) = value_of-part_at i xs h

part_value-dotted :
    (xs : List Bytes) (i : ℕ)
    → All IsComponent xs
    → part_value (dotted xs) i ≡ number_at i (values xs)
unfolding part_value
part_value-dotted xs i h =
    ap (λ ps. value_of (part_at i ps)) (pieces-dotted xs h) ∙ value_of-part_at i xs h

compare_from-lexicographic :
    (left i : ℕ) (a b : Bytes) (xs ys : List ℕ)
    → ((j : ℕ) → part_value a (i + j) ≡ number_at j xs)
    → ((j : ℕ) → part_value b (i + j) ≡ number_at j ys)
    → compare_from left i a b ≡ lexicographic left xs ys
unfolding compare_from
compare_from-lexicographic zero i a b xs ys ha hb = refl
compare_from-lexicographic (suc left) i a b xs ys ha hb =
    let shifted : (j : ℕ) → suc i + j ≡ i + suc j = λ j. omega arith in
    let here : i ≡ i + 0 = omega arith in
    let x : part_value a i ≡ front xs = ap (part_value a) here ∙ ha 0 in
    let y : part_value b i ≡ front ys = ap (part_value b) here ∙ hb 0 in
    let later =
      compare_from-lexicographic left (suc i) a b (others xs) (others ys)
        (λ j. ap (part_value a) (shifted j) ∙ ha (suc j))
        (λ j. ap (part_value b) (shifted j) ∙ hb (suc j)) in
    rw (x, y, later) (ground arith)

-- On two versions of components with points between them, each of them one digit or more that spell at
-- most the greatest int, CompareVersions compares the first four numbers in order, a missing one counting
-- as 0: the version with the smaller number at the first difference is the older one, and versions
-- without a difference are the same.
pub compare_versions-dotted :
    (xs ys : List Bytes)
    → All IsComponent xs
    → All IsComponent ys
    → compare_versions (dotted xs) (dotted ys) ≡ lexicographic 4 (values xs) (values ys)
unfolding compare_versions
compare_versions-dotted xs ys hx hy =
    let start : (j : ℕ) → 0 + j ≡ j = λ j. omega arith in
    compare_from-lexicographic 4 0 (dotted xs) (dotted ys) (values xs) (values ys)
      (λ j. part_value-dotted xs (0 + j) hx ∙ ap (λ k. number_at k (values xs)) (start j))
      (λ j. part_value-dotted ys (0 + j) hy ∙ ap (λ k. number_at k (values ys)) (start j))
