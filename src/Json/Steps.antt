-- ===== src/Json/Steps.antt =====
-- One round of the loops of ParseArray and ParseObject (linux/src/json.cpp).
use harness_desktop.Base.{
  ℕ, suc, ◌≡◌, refl, ap, ◌∙◌, some, Bool, true, false, ◌||◌, [], ◌∷◌, ◌++◌, Bytes, codes, ◌==◌,
  if◌then◌else◌, arith,
}
use harness_desktop.Base.Outcome.{ok, ◌>>=◌}
use harness_desktop.Json.Value.{
  Value, Items, Members, null, bool, number, str, array, object, no_items, no_members, append_item,
  set_member,
}
use harness_desktop.Json.Scan.{is_ws, is_digit, skip_ws, parse_string, scan_number}
use harness_desktop.Json.Parser.{
  parse_value, object_loop, array_loop, parse_number, parse_string_value, or_fail,
}
use harness_desktop.Json.Printer.{newline, indent, append_string}
use harness_desktop.Json.Numbers.{IsDelimited, scan_number-append}
use harness_desktop.Json.Strings.{parse_string-append_string}
use harness_desktop.Json.Gaps.{IsFirst, skip_ws-newline, skip_ws-indent}
use harness_desktop.Json.Printable.{StartsNumber}

-- the closing bracket `c` of a container at depth `d`, and what follows
abbrev pub tail_text : Bool → ℕ → ℕ → Bytes → Bytes
tail_text pretty d c rest = newline pretty ++ (indent pretty d ++ (c ∷ rest))

pub tail-IsDelimited_array :
    (pretty : Bool) (d : ℕ) (rest : Bytes) → IsDelimited (tail_text pretty d b']' rest)
tail-IsDelimited_array true d rest = refl
tail-IsDelimited_array false d rest = refl

pub tail-IsDelimited_object :
    (pretty : Bool) (d : ℕ) (rest : Bytes) → IsDelimited (tail_text pretty d b'}' rest)
tail-IsDelimited_object true d rest = refl
tail-IsDelimited_object false d rest = refl

pub skip_ws-tail :
    (pretty : Bool) (d c : ℕ) (rest : Bytes)
    → is_ws c ≡ false
    → skip_ws (tail_text pretty d c rest) ≡ c ∷ rest
unfolding skip_ws
skip_ws-tail pretty d c rest h =
    skip_ws-newline pretty (indent pretty d ++ (c ∷ rest))
    ∙ (skip_ws-indent pretty d (c ∷ rest) ∙ rw h)

module _ {D : Type 0} (strtod : Bytes → D) where
  pub array_more :
      (f : ℕ) (arr : Items D) (s : Bytes) (v : Value D) (t r : Bytes)
      → parse_value strtod f s ≡ ok (v, t)
      → skip_ws t ≡ b',' ∷ r
      → array_loop strtod (suc f) arr s ≡ array_loop strtod f (append_item arr v) r
  unfolding parse_value
  array_more f arr s v t r h k = rw h (rw k)

  pub array_end :
      (f : ℕ) (arr : Items D) (s : Bytes) (v : Value D) (t r : Bytes)
      → parse_value strtod f s ≡ ok (v, t)
      → skip_ws t ≡ b']' ∷ r
      → array_loop strtod (suc f) arr s ≡ ok (array (append_item arr v), r)
  unfolding parse_value
  array_end f arr s v t r h k = rw h (rw k)

  pub object_more :
      (f : ℕ) (obj : Members D) (s s₁ s₂ : Bytes) (key : Bytes) (v : Value D) (t r : Bytes)
      → parse_string (skip_ws s) ≡ some (key, s₁)
      → skip_ws s₁ ≡ b':' ∷ s₂
      → parse_value strtod f s₂ ≡ ok (v, t)
      → skip_ws t ≡ b',' ∷ r
      → object_loop strtod (suc f) obj s ≡ object_loop strtod f (set_member key v obj) r
  unfolding parse_value
  object_more f obj s s₁ s₂ key v t r hk hc h k = rw hk (rw hc (rw h (rw k)))

  pub object_end :
      (f : ℕ) (obj : Members D) (s s₁ s₂ : Bytes) (key : Bytes) (v : Value D) (t r : Bytes)
      → parse_string (skip_ws s) ≡ some (key, s₁)
      → skip_ws s₁ ≡ b':' ∷ s₂
      → parse_value strtod f s₂ ≡ ok (v, t)
      → skip_ws t ≡ b'}' ∷ r
      → object_loop strtod (suc f) obj s ≡ ok (object (set_member key v obj), r)
  unfolding parse_value
  object_end f obj s s₁ s₂ key v t r hk hc h k = rw hk (rw hc (rw h (rw k)))

  -- ParseValue at each kind of first byte.
  pub value_array :
      (f : ℕ) (r : Bytes)
      → IsFirst (skip_ws r)
      → parse_value strtod (suc (suc f)) (b'[' ∷ r) ≡ array_loop strtod f no_items (skip_ws r)
  unfolding parse_value
  value_array f r h = start (skip_ws r) refl h
    where
      start :
          (t : Bytes)
          → skip_ws r ≡ t
          → IsFirst t
          → parse_value strtod (suc (suc f)) (b'[' ∷ r) ≡ array_loop strtod f no_items t
      start [] e first = absurd first
      start (c ∷ t) e (ws, bracket, brace) = rw (e, parse_value) (rw (bracket, parse_value))

  pub value_object :
      (f : ℕ) (r : Bytes)
      → IsFirst (skip_ws r)
      → parse_value strtod (suc (suc f)) (b'{' ∷ r) ≡ object_loop strtod f no_members (skip_ws r)
  unfolding parse_value
  value_object f r h = start (skip_ws r) refl h
    where
      start :
          (t : Bytes)
          → skip_ws r ≡ t
          → IsFirst t
          → parse_value strtod (suc (suc f)) (b'{' ∷ r) ≡ object_loop strtod f no_members t
      start [] e first = absurd first
      start (c ∷ t) e (ws, bracket, brace) = rw (e, parse_value) (rw (brace, parse_value))

  pub value_empty_array :
      (f : ℕ) (rest : Bytes)
      → parse_value strtod (suc (suc f)) (b'[' ∷ b']' ∷ rest) ≡ ok (array no_items, rest)
  unfolding parse_value
  value_empty_array f rest = refl

  pub value_empty_object :
      (f : ℕ) (rest : Bytes)
      → parse_value strtod (suc (suc f)) (b'{' ∷ b'}' ∷ rest) ≡ ok (object no_members, rest)
  unfolding parse_value
  value_empty_object f rest = refl

  pub value_null :
      (f : ℕ) (rest : Bytes) → parse_value strtod (suc f) (codes "null" ++ rest) ≡ ok (null, rest)
  unfolding parse_value
  value_null f rest = refl

  pub value_bool :
      (f : ℕ) (b : Bool) (rest : Bytes)
      → parse_value strtod (suc f) ((if b then codes "true" else codes "false") ++ rest)
        ≡ ok (bool b, rest)
  unfolding parse_value
  value_bool f true rest = refl
  value_bool f false rest = refl

  string_value :
      (s rest : Bytes) → parse_string_value {D = D} (append_string s ++ rest) ≡ ok (str s, rest)
  unfolding parse_string_value
  string_value s rest =
      λ i. or_fail (parse_string-append_string s rest i) >>= λ (t, left). ok (str t, left)

  pub value_string :
      (f : ℕ) (s rest : Bytes)
      → parse_value strtod (suc f) (append_string s ++ rest) ≡ ok (str s, rest)
  unfolding parse_value append_string
  value_string f s rest = string_value s rest

  number_first :
      (f c : ℕ) (s : Bytes)
      → (is_digit c || (c == b'-')) ≡ true
      → parse_value strtod (suc f) (c ∷ s) ≡ parse_number strtod (c ∷ s)
  unfolding parse_value skip_ws
  number_first f c s h = ground arith

  read_token :
      (t rest : Bytes)
      → scan_number t ≡ (t, [])
      → StartsNumber t
      → IsDelimited rest
      → parse_number strtod (t ++ rest) ≡ ok (number (strtod t), rest)
  unfolding parse_number
  read_token [] rest e h del = absurd h
  read_token (c ∷ t) rest e h del =
      let whole : scan_number ((c ∷ t) ++ rest) ≡ (c ∷ t, rest) =
        scan_number-append (c ∷ t) rest del ∙ ap (λ (p : Bytes × Bytes). (p.0, p.1 ++ rest)) e in
      rw (whole, parse_number)

  pub value_number :
      (f : ℕ) (t rest : Bytes)
      → StartsNumber t
      → scan_number t ≡ (t, [])
      → IsDelimited rest
      → parse_value strtod (suc f) (t ++ rest) ≡ ok (number (strtod t), rest)
  value_number f [] rest h e del = absurd h
  value_number f (c ∷ t) rest h e del =
      number_first f c (t ++ rest) h ∙ read_token (c ∷ t) rest e h del
