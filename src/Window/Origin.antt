-- ===== src/Window/Origin.antt =====
-- IsAppUrl against the authority of an address (linux/src/main_window.cpp).
use harness_desktop.Base.{
  ℕ, zero, suc, ◌+◌, ◌/◌, ◌%◌, ◌<◌, ◌≡◌, ◌↔◌, ltb, bytes_eq_iff, refl, sym, ap, ◌∙◌, Bool, true,
  false, not, ◌&&◌, [], ◌∷◌, ◌++◌, Option, none, some, Bytes, codes, bytes_eq, starts_with, length,
  drop, if◌then◌else◌, Bool-cases, inl, inr, arith,
}
use harness_desktop.Base.Decimal.{decimal, decimal_digits}
use harness_desktop.Window.Navigation.{app_prefix, is_delimiter, ends_origin, is_app_url}

-- the text up to the first delimiter
abbrev pub up_to_delimiter : Bytes → Bytes
up_to_delimiter [] = []
up_to_delimiter (c ∷ s) = let rest = up_to_delimiter s in if is_delimiter c then [] else c ∷ rest

-- the authority of an http address: what stands between its scheme and its path
abbrev pub authority : Bytes → Option Bytes
authority uri =
    if starts_with (codes "http://") uri then some (up_to_delimiter (drop 7 uri)) else none

abbrev pub has_no_delimiter : Bytes → Bool
has_no_delimiter [] = true
has_no_delimiter (c ∷ s) = not (is_delimiter c) && has_no_delimiter s

-- An authority is a text with no delimiter in front of a delimiter or the end.
bytes_eq-up_to_delimiter :
    (h s : Bytes)
    → has_no_delimiter h ≡ true
    → (starts_with h s && ends_origin (drop (length h) s)) ≡ bytes_eq h (up_to_delimiter s)
unfolding starts_with ends_origin bytes_eq
bytes_eq-up_to_delimiter [] [] e = refl
bytes_eq-up_to_delimiter [] (c ∷ s) e = elim (Bool-cases (is_delimiter c)) [
  | inl d ↦ rw d refl
  | inr d ↦ rw d refl
]
bytes_eq-up_to_delimiter (b ∷ h) [] e = refl
bytes_eq-up_to_delimiter (b ∷ h) (c ∷ s) e = ground (arith, bytes_eq-up_to_delimiter h s)

starts_with-appended :
    (p h s : Bytes)
    → starts_with (p ++ h) s ≡ (starts_with p s && starts_with h (drop (length p) s))
unfolding starts_with
starts_with-appended [] h s = refl
starts_with-appended (b ∷ p) h [] = refl
starts_with-appended (b ∷ p) h (c ∷ s) = ground (arith, starts_with-appended p h s)

drop-add : (m n : ℕ) (s : Bytes) → drop (m + n) s ≡ drop n (drop m s)
drop-add zero n s = let e : 0 + n ≡ n = omega arith in ap (λ k. drop k s) e
drop-add (suc m) zero [] = let e : suc m + 0 ≡ suc m = omega arith in ap (λ k. drop k []) e
drop-add (suc m) (suc n) [] =
    let e : suc m + suc n ≡ suc (m + suc n) = omega arith in ap (λ k. drop k []) e
drop-add (suc m) n (c ∷ s) =
    let e : suc m + n ≡ suc (m + n) = omega arith in ap (λ k. drop k (c ∷ s)) e ∙ drop-add m n s

has_no_delimiter-append :
    (s t : Bytes) → has_no_delimiter (s ++ t) ≡ (has_no_delimiter s && has_no_delimiter t)
has_no_delimiter-append [] t = refl
has_no_delimiter-append (c ∷ s) t = ground (arith, has_no_delimiter-append s t)

has_no_delimiter-digit : (d : ℕ) → d < 10 → has_no_delimiter ((b'0' + d) ∷ []) ≡ true
has_no_delimiter-digit d h = ground arith

has_no_delimiter-decimal_digits : (f n : ℕ) → has_no_delimiter (decimal_digits f n) ≡ true
unfolding decimal_digits
has_no_delimiter-decimal_digits zero n = refl
has_no_delimiter-decimal_digits (suc f) n = elim (Bool-cases (ltb n 10)) [
  | inl e ↦ rw e (has_no_delimiter-digit n (ground arith))
  | inr e ↦
      let before = has_no_delimiter-decimal_digits f (n / 10) in
      let digit = has_no_delimiter-digit (n % 10) (omega arith) in
      rw e
        (has_no_delimiter-append (decimal_digits f (n / 10)) ((b'0' + n % 10) ∷ []) ∙ ground arith)
]

-- the authority of the dsh server
abbrev pub app_authority : Bytes → ℕ → Bytes
app_authority host port = host ++ (b':' ∷ decimal port)

has_no_delimiter-app_authority :
    (host : Bytes) (port : ℕ)
    → has_no_delimiter host ≡ true
    → has_no_delimiter (app_authority host port) ≡ true
unfolding decimal
has_no_delimiter-app_authority host port h =
    let digits = has_no_delimiter-decimal_digits (suc port) port in
    has_no_delimiter-append host (b':' ∷ decimal port) ∙ ground arith

ends_origin-drop :
    (h uri : Bytes)
    → ends_origin (drop (length (codes "http://" ++ h)) uri)
      ≡ ends_origin (drop (length h) (drop 7 uri))
ends_origin-drop h uri =
    let e : length (codes "http://" ++ h) ≡ 7 + length h = omega arith in
    ap (λ n. ends_origin (drop n uri)) e ∙ ap ends_origin (drop-add 7 (length h) uri)

if-not : (b c : Bool) → (if not b then false else c) ≡ (b && c)
if-not true c = refl
if-not false c = refl

&&_assoc : (a b c : Bool) → ((a && b) && c) ≡ (a && (b && c))
&&_assoc true b c = refl
&&_assoc false b c = refl

is_app_url-tests :
    (host : Bytes) (port : ℕ) (uri : Bytes)
    → has_no_delimiter host ≡ true
    → is_app_url host port uri ≡ (
        starts_with (codes "http://") uri
        && bytes_eq (app_authority host port) (up_to_delimiter (drop 7 uri)))
unfolding is_app_url app_prefix
is_app_url-tests host port uri plain =
    let h = app_authority host port in
    let scheme = starts_with (codes "http://") uri in
    if-not (starts_with (codes "http://" ++ h) uri)
      (ends_origin (drop (length (codes "http://" ++ h)) uri))
    ∙ ((λ i. starts_with-appended (codes "http://") h uri i && ends_origin-drop h uri i)
        ∙ (&&_assoc scheme (starts_with h (drop 7 uri)) (ends_origin (drop (length h) (drop 7 uri)))
            ∙ ap (λ b. scheme && b)
                (bytes_eq-up_to_delimiter h (drop 7 uri)
                  (has_no_delimiter-app_authority host port plain))))

-- IsAppUrl accepts an address exactly if it is an http address whose authority is the host and the port
-- of the server, whatever follows it; the host has none of the bytes that end an authority.
pub is_app_url-authority :
    (host : Bytes) (port : ℕ) (uri : Bytes)
    → has_no_delimiter host ≡ true
    → (is_app_url host port uri ≡ true) ↔ (authority uri ≡ some (app_authority host port))
is_app_url-authority host port uri plain =
    let tests = is_app_url-tests host port uri plain in
    let same = bytes_eq_iff (app_authority host port) (up_to_delimiter (drop 7 uri)) in
    elim (Bool-cases (starts_with (codes "http://") uri)) [
      | inl e ↦ rw (tests, e) (λ h. ap some (sym (same.0 h)), λ h. same.1 (cc))
      | inr e ↦ rw (tests, e) (λ h. cc, λ h. cc)
    ]
