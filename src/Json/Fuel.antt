-- ===== src/Json/Fuel.antt =====
-- How many calls of the parser reading a printed value takes, against the length of the text.
use harness_desktop.Base.{
  ℕ, zero, suc, ◌+◌, ◌*◌, ◌≤◌, ◌<◌, ◌≡◌, refl, ap, sym, ◌∙◌, ◌⊎◌, some, Bool, true, false, ◌||◌,
  List, [], ◌∷◌, ◌++◌, Bytes, codes, ◌==◌, if◌then◌else◌, length, length-append, append_assoc,
  append-nil, arith,
}
use harness_desktop.Json.Value.{
  Value, Items, Members, null, bool, number, str, array, object, no_items, item, no_members, member,
  member_keys,
}
use harness_desktop.Json.Floats.{Floats}
use harness_desktop.Json.Printer.{append_value, append_items, enclose}
use harness_desktop.Json.Gaps.{IsFirst}
use harness_desktop.Json.Members.{AreDistinct}
use harness_desktop.Json.Printable.{
  IsPrintable, ArePrintable, HavePrintable, IsFirst-append_value, member_text,
}
use harness_desktop.Json.Texts.{array_enclose, object_enclose}

-- The calls of the parser that reading a printed value takes.
unfoldable mutual
  pub need : {D : Type 0} → Value D → ℕ
  need (array xs) = suc (suc (need_items xs))
  need (object ms) = suc (suc (need_members ms))
  need _ = 1

  pub need_items : {D : Type 0} → Items D → ℕ
  need_items no_items = 0
  need_items (item v xs) = suc (need v + need_items xs)

  pub need_members : {D : Type 0} → Members D → ℕ
  need_members no_members = 0
  need_members (member k v ms) = suc (need v + need_members ms)

abbrev pub IsScalar : {D : Type 0} → Value D → Type 0
IsScalar (array xs) = ⊥
IsScalar (object ms) = ⊥
IsScalar _ = Unit

module _ (fl : Floats) (pretty : Bool) where
  open fl use {Double, strtod}

  pub need_pos : (v : Value Double) → 0 < need v
  unfolding need
  need_pos (array xs) = omega arith
  need_pos (object ms) = omega arith
  need_pos _ = omega arith

  pub length-text : (s t : Bytes) → length (s ++ t) ≡ length s + length t
  length-text = length-append

  pub ruleset lengths = (arith, length-text)

  pub need-items_step :
      (n m d : ℕ) (first : Bool) (v : Value Double) (xs : Items Double)
      → n < 2 * length (append_value fl pretty (suc d) v)
      → m ≤ 2 * length (append_items fl pretty d false xs)
      → suc (n + m) ≤ 2 * length (append_items fl pretty d first (item v xs))
  need-items_step n m d first v xs hn hm = unfold append_value in omega lengths

  pub need-members_step :
      (n m d : ℕ) (first : Bool) (k : Bytes) (v : Value Double) (ms : Members Double)
      → n < 2 * length (append_value fl pretty (suc d) v)
      → m ≤ 2 * length (member_text fl pretty d false ms)
      → suc (n + m) ≤ 2 * length (member_text fl pretty d first (member k v ms))
  need-members_step n m d first k v ms hn hm = omega lengths

  pub length-enclose :
      (d : ℕ) (is_empty : Bool) (o c : ℕ) (body : Bytes)
      → (is_empty ≡ true → body ≡ [])
      → suc (suc (length body)) ≤ length (enclose pretty d is_empty o c body)
  unfolding enclose
  length-enclose d true o c body h = rw (h refl) (omega arith)
  length-enclose d false o c body h = omega lengths

  pub need-array_step :
      (n d : ℕ) (xs : Items Double)
      → n ≤ 2 * length (append_items fl pretty d true xs)
      → suc (suc n) < 2 * length (append_value fl pretty d (array xs))
  need-array_step n d no_items h = unfold append_value enclose in omega arith
  need-array_step n d (item v xs) h =
      let body = append_items fl pretty d true (item v xs) in
      rw (array_enclose fl pretty d v xs)
        (omega (arith, length-enclose d false b'[' b']' body (λ e. cc)))

  pub need-scalar :
      (v : Value Double)
      → IsScalar v
      → IsPrintable fl v
      → (d : ℕ) → 1 < 2 * length (append_value fl pretty d v)
  need-scalar v s h d = positive _ (IsFirst-append_value fl pretty d v h)
    where
      positive : (t : Bytes) → IsFirst t → 1 < 2 * length t
      positive [] first = absurd first
      positive (c ∷ t) first = omega arith

  pub need-object_step :
      (n d : ℕ) (ms : Members Double)
      → AreDistinct (member_keys ms)
      → n ≤ 2 * length (member_text fl pretty d true ms)
      → suc (suc n) < 2 * length (append_value fl pretty d (object ms))
  need-object_step n d no_members distinct h = unfold append_value enclose in omega arith
  need-object_step n d (member k v ms) distinct h =
      let body = member_text fl pretty d true (member k v ms) in
      rw (object_enclose fl pretty d k v ms distinct)
        (omega (arith, length-enclose d false b'{' b'}' body (λ e. cc)))

  mutual
    unfolding need

    pub need-lt :
        (v : Value Double)
        → IsPrintable fl v
        → (d : ℕ) → need v < 2 * length (append_value fl pretty d v)
    need-lt (array xs) h d = need-array_step _ d xs (need_items-le xs h d true)
    need-lt (object ms) h d = need-object_step _ d ms h.0 (need_members-le ms h.1 d true)
    need-lt null h d = need-scalar null tt h d
    need-lt (bool b) h d = need-scalar (bool b) tt h d
    need-lt (number x) h d = need-scalar (number x) tt h d
    need-lt (str s) h d = need-scalar (str s) tt h d

    pub need_items-le :
        (xs : Items Double)
        → ArePrintable fl xs
        → (d : ℕ) (first : Bool) → need_items xs ≤ 2 * length (append_items fl pretty d first xs)
    need_items-le no_items h d first = omega arith
    need_items-le (item v xs) h d first =
        need-items_step _ _ d first v xs (need-lt v h.0 (suc d)) (need_items-le xs h.1 d false)

    pub need_members-le :
        (ms : Members Double)
        → HavePrintable fl ms
        → (d : ℕ) (first : Bool) → need_members ms ≤ 2 * length (member_text fl pretty d first ms)
    need_members-le no_members h d first = omega arith
    need_members-le (member k v ms) h d first =
        need-members_step _ _ d first k v ms (need-lt v h.0 (suc d))
          (need_members-le ms h.1 d false)
