-- ===== src/Update/Extract.antt =====
-- ExtractVersion and UpdateAvailable (linux/src/update_manager.cpp) on a text with a version.
use harness_desktop.Base.{
  ℕ, ◌+◌, ◌<◌, ◌≡◌, refl, ◌∙◌, ap, Bool, true, false, ◌||◌, ◌==◌, List, [], ◌∷◌, ◌++◌, some, Bytes,
  codes, is_empty, starts_with, length, All, arith,
}
use harness_desktop.Base.Outcome.{ok}
use harness_desktop.Base.Find.{occurs_first, find?-first, drop-append, drop_self, take_self}
use harness_desktop.Util.Version.{is_digit}
use harness_desktop.Util.Version.Rounds.{IsComponent, dotted, dotted_behind, values, newer}
use harness_desktop.Util.Version.Order.{version_newer-dotted}
use harness_desktop.Update.{
  version_key, quote, behind, up_to_quote, extract_version, update_available,
}

abbrev pub has_quote : Bytes → Bool
has_quote [] = false
has_quote (c ∷ s) = c == b'"' || has_quote s

-- A JSON text with a version: the key behind `pre`, the value `version` behind `between`.
abbrev pub announced : Bytes → Bytes → Bytes → Bytes → Bytes
announced pre between version post =
    pre ++ (version_key ++ (between ++ (b'"' ∷ (version ++ (b'"' ∷ post)))))

behind-first :
    (b : ℕ) (p pre s : Bytes)
    → occurs_first (b ∷ p) pre ≡ true
    → behind (b ∷ p) (pre ++ ((b ∷ p) ++ s)) ≡ some s
unfolding behind
behind-first b p pre s h =
    rw (find?-first b p pre s h, behind)
      (ap some (drop-append pre ((b ∷ p) ++ s) (length (b ∷ p)) ∙ drop_self (b ∷ p) s))

occurs_first-quote : (s : Bytes) → has_quote s ≡ false → occurs_first quote s ≡ true
unfolding starts_with
occurs_first-quote [] h = refl
occurs_first-quote (c ∷ s) h =
    let rest : has_quote s ≡ false = ground arith in ground (arith, occurs_first-quote s rest)

up_to_quote-first : (s post : Bytes) → has_quote s ≡ false → up_to_quote (s ++ (b'"' ∷ post)) ≡ s
unfolding up_to_quote
up_to_quote-first s post h =
    rw (find?-first b'"' [] s post (occurs_first-quote s h), up_to_quote)
      (take_self s (b'"' ∷ post))

-- ExtractVersion finds the version in a text in which its key does not stand before and in which the
-- version and what stands in front of its opening quote have no quote.
pub extract_version-announced :
    (pre between version post : Bytes)
    → occurs_first version_key pre ≡ true
    → has_quote between ≡ false
    → has_quote version ≡ false
    → extract_version (announced pre between version post) ≡ version
unfolding extract_version
extract_version-announced pre between version post h b v =
    rw
      (
        behind-first b'"' (codes "version\"") pre (between ++ (b'"' ∷ (version ++ (b'"' ∷ post))))
            h,
        extract_version,
      )
      (rw
        (
          behind-first b'"' [] between (version ++ (b'"' ∷ post)) (occurs_first-quote between b),
          extract_version,
        )
        (up_to_quote-first version post v))

has_quote-append :
    (s t : Bytes) → has_quote s ≡ false → has_quote t ≡ false → has_quote (s ++ t) ≡ false
has_quote-append [] t h k = k
has_quote-append (c ∷ s) t h k =
    let rest : has_quote s ≡ false = ground arith in ground (arith, has_quote-append s t rest k)

has_quote-digits : (s : Bytes) → All (λ c. is_digit c ≡ true) s → has_quote s ≡ false
has_quote-digits [] h = refl
has_quote-digits (c ∷ s) (hc, h) = ground (arith, has_quote-digits s h)

has_quote-behind : (xs : List Bytes) → All IsComponent xs → has_quote (dotted_behind xs) ≡ false
has_quote-behind [] h = refl
has_quote-behind (x ∷ xs) (hx, h) =
    has_quote-append x (dotted_behind xs) (has_quote-digits x (hx.digits)) (has_quote-behind xs h)

has_quote-dotted : (xs : List Bytes) → All IsComponent xs → has_quote (dotted xs) ≡ false
has_quote-dotted [] h = refl
has_quote-dotted (x ∷ xs) (hx, h) =
    has_quote-append x (dotted_behind xs) (has_quote-digits x (hx.digits)) (has_quote-behind xs h)

is_empty-dotted : (x : Bytes) (xs : List Bytes) → IsComponent x → is_empty (dotted (x ∷ xs)) ≡ false
is_empty-dotted [] xs h = let l = h.some_digit in absurd (omega arith)
is_empty-dotted (c ∷ x) xs h = refl

-- UpdateAvailable says whether the announced version is greater than the installed one component by
-- component, a missing component counting as 0. Both have one component or more, each of them one digit
-- or more that spell at most the greatest int; the first "version" of the answer, with its quotes, is the
-- key in front of the announced version, with no further quote between the key and the version's opening
-- one; and a round for each component and one more are given.
pub update_available-dotted :
    (x y : Bytes) (xs ys : List Bytes) (pre between post : Bytes) (f : ℕ)
    → All IsComponent (x ∷ xs)
    → All IsComponent (y ∷ ys)
    → occurs_first version_key pre ≡ true
    → has_quote between ≡ false
    → length (x ∷ xs) + length (y ∷ ys) < f
    → update_available f (dotted (y ∷ ys)) (announced pre between (dotted (x ∷ xs)) post)
      ≡ ok (newer (values (x ∷ xs)) (values (y ∷ ys)))
unfolding update_available
update_available-dotted x y xs ys pre between post f hx hy h b l =
    rw
      (extract_version-announced pre between (dotted (x ∷ xs)) post h b
        (has_quote-dotted (x ∷ xs) hx))
      (rw (is_empty-dotted y ys hy.0)
        (rw (is_empty-dotted x xs hx.0) (version_newer-dotted (x ∷ xs) (y ∷ ys) hx hy f l)))
