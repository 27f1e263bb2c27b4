-- ===== src/Json/RoundTrip.antt =====
-- Stringify, then Parse (linux/src/json.cpp): the value comes back.
use harness_desktop.Base.{
  ℕ, zero, suc, ◌+◌, ◌*◌, ◌≤◌, ◌≡◌, refl, ap, ◌∙◌, Bool, false, [], ◌++◌, Bytes, length, append-nil,
  arith,
}
use harness_desktop.Base.Outcome.{ok}
use harness_desktop.Json.Value.{
  Value, Items, Members, null, bool, number, str, array, object, no_items, item, no_members, member,
  member_keys, append_item, set_member,
}
use harness_desktop.Json.Floats.{Floats}
use harness_desktop.Json.Scan.{skip_ws}
use harness_desktop.Json.Parser.{parse_value, object_loop, array_loop, parse}
use harness_desktop.Json.Printer.{append_number, append_value, append_items, stringify}
use harness_desktop.Json.Numbers.{IsDelimited}
use harness_desktop.Json.Strings.{parse_string-append_string}
use harness_desktop.Json.Gaps.{IsFirst, IsFirst-append, skip_ws-IsFirst, parse_value-skip_ws}
use harness_desktop.Json.Members.{AreDistinct, set_all, push_all, set_all-nil, push_all-nil}
use harness_desktop.Json.Printable.{IsPrintable, ArePrintable, HavePrintable, IsFirst-append_value}
use harness_desktop.Json.Steps.{
  tail_text, tail-IsDelimited_object, skip_ws-tail, array_more, array_end, object_more, object_end,
  value_null, value_bool, value_number, value_string, value_array, value_object, value_empty_array,
  value_empty_object,
}
use harness_desktop.Json.Texts.{
  skip_ws-colon, skip_ws-space, array_text, items_text, no_items_text, items-IsDelimited, skip_gap,
  skip_comma, empty_array, empty_object, member_front, members_left, object_text, members_text,
  members-IsDelimited, IsFirst-append_string,
}
use harness_desktop.Json.Fuel.{need, need_items, need_members, IsScalar, need_pos, need-lt}

module _ (fl : Floats) (pretty : Bool) where
  open fl use {Double, strtod}

  -- With `need v` calls, ParseValue reads the print of `v` off the front of any text that does not
  -- go on with a byte of a number.
  abbrev Reads : Value Double → Type 0
  Reads v =
      (d f : ℕ) (rest : Bytes)
      → need v ≤ f
      → IsDelimited rest
      → parse_value strtod f (append_value fl pretty d v ++ rest) ≡ ok (v, rest)

  -- The loop of ParseArray in front of the element `v`, with `xs` behind it.
  abbrev ReadsItems : Items Double → Type 0
  ReadsItems xs =
      (v : Value Double)
      → Reads v
      → IsPrintable fl v
      → (d f : ℕ) (arr : Items Double) (s rest : Bytes) → need_items (item v xs) ≤ f
      → skip_ws s
        ≡ skip_ws (
            append_value fl pretty (suc d) v
            ++ (append_items fl pretty d false xs ++ tail_text pretty d b']' rest))
      → array_loop strtod f arr s ≡ ok (array (push_all (append_item arr v) xs), rest)

  read_element :
      (d f : ℕ) (v : Value Double) (s rest : Bytes)
      → Reads v
      → need v ≤ f
      → IsDelimited rest
      → skip_ws s ≡ skip_ws (append_value fl pretty d v ++ rest)
      → parse_value strtod f s ≡ ok (v, rest)
  read_element d f v s rest r h del e = parse_value-skip_ws strtod f _ _ e ∙ r d f rest h del

  read_scalar :
      (v : Value Double)
      → IsScalar v
      → IsPrintable fl v
      → (d f : ℕ) (rest : Bytes) → IsDelimited rest
      → parse_value strtod (suc f) (append_value fl pretty d v ++ rest) ≡ ok (v, rest)
  unfolding append_value
  read_scalar null s h d f rest del = value_null strtod f rest
  read_scalar (bool b) s h d f rest del = value_bool strtod f b rest
  read_scalar (number x) s h d f rest del =
      value_number strtod f (append_number fl x) rest h.starts h.token del ∙ rw h.value
  read_scalar (str t) s h d f rest del = value_string strtod f t rest
  read_scalar (array xs) s h d f rest del = absurd s
  read_scalar (object ms) s h d f rest del = absurd s

  -- The loop of ParseObject in front of the member `k`, with `ms` behind it.
  abbrev ReadsMembers : Members Double → Type 0
  ReadsMembers ms =
      (k : Bytes) (v : Value Double)
      → Reads v
      → (d f : ℕ) (obj : Members Double) (s rest : Bytes) → need_members (member k v ms) ≤ f
      → skip_ws s ≡ member_front fl pretty d k v (members_left fl pretty d ms rest)
      → object_loop strtod f obj s ≡ ok (object (set_all (set_member k v obj) ms), rest)

  read_array :
      (d f : ℕ) (v : Value Double) (xs : Items Double) (rest : Bytes)
      → let body =
          append_value fl pretty (suc d) v
          ++ (append_items fl pretty d false xs ++ tail_text pretty d b']' rest) in
        IsFirst body
        → (skip_ws body ≡ skip_ws body
            → array_loop strtod f no_items body ≡ ok (array (push_all no_items (item v xs)), rest))
        → parse_value strtod (suc (suc f)) (append_value fl pretty d (array (item v xs)) ++ rest)
          ≡ ok (array (item v xs), rest)
  read_array d f v xs rest first loop =
      let skip = skip_gap fl pretty (suc d) _ ∙ skip_ws-IsFirst _ first in
      rw (array_text fl pretty d v xs rest) (
        value_array strtod f _ (rw skip first)
        ∙ (ap (array_loop strtod f no_items) skip ∙ (loop refl ∙ rw (push_all-nil (item v xs)))))

  read_object :
      (d f : ℕ) (k : Bytes) (v : Value Double) (ms : Members Double) (rest : Bytes)
      → AreDistinct (member_keys (member k v ms))
      → let body = member_front fl pretty d k v (members_left fl pretty d ms rest) in
        (skip_ws body ≡ body
          → object_loop strtod f no_members body
            ≡ ok (object (set_all no_members (member k v ms)), rest))
        → parse_value strtod
            (suc (suc f))
            (append_value fl pretty d (object (member k v ms)) ++ rest)
          ≡ ok (object (member k v ms), rest)
  read_object d f k v ms rest distinct loop =
      let first = IsFirst-append_string fl pretty k _ in
      let skip = skip_gap fl pretty (suc d) _ ∙ skip_ws-IsFirst _ first in
      rw (object_text fl pretty d k v ms rest distinct) (
        value_object strtod f _ (rw skip first)
        ∙ (ap (object_loop strtod f no_members) skip
            ∙ (loop (skip_ws-IsFirst _ first) ∙ rw (set_all-nil (member k v ms) distinct))))

  mutual
    unfolding need

    read_value : (v : Value Double) → IsPrintable fl v → Reads v
    read_value v h d zero rest n del = absurd (omega (arith, need_pos fl pretty v))
    read_value (array xs) h d (suc zero) rest n del = absurd (omega arith)
    read_value (array no_items) h d (suc (suc f)) rest n del =
        rw (empty_array fl pretty _ _) (value_empty_array strtod f rest)
    read_value (array (item v xs)) h d (suc (suc f)) rest n del =
        let left = append_items fl pretty d false xs ++ tail_text pretty d b']' rest in
        let first = IsFirst-append _ left (IsFirst-append_value fl pretty (suc d) v h.0) in
        read_array d f v xs rest first
          (read_items xs h.1 v (read_value v h.0) h.0 d f no_items _ rest (omega arith))
    read_value (object ms) h d (suc zero) rest n del = absurd (omega arith)
    read_value (object no_members) h d (suc (suc f)) rest n del =
        rw (empty_object fl pretty _ _) (value_empty_object strtod f rest)
    read_value (object (member k v ms)) h d (suc (suc f)) rest n del =
        read_object d f k v ms rest h.0
          (read_members ms h.1.1 k v (read_value v h.1.0) d f no_members _ rest (omega arith))
    read_value null h d (suc f) rest n del = read_scalar null tt h d f rest del
    read_value (bool b) h d (suc f) rest n del = read_scalar (bool b) tt h d f rest del
    read_value (number x) h d (suc f) rest n del = read_scalar (number x) tt h d f rest del
    read_value (str s) h d (suc f) rest n del = read_scalar (str s) tt h d f rest del

    read_items : (xs : Items Double) → ArePrintable fl xs → ReadsItems xs
    read_items no_items h v r hv d zero arr s rest n e = absurd (omega arith)
    read_items no_items h v r hv d (suc f) arr s rest n e =
        array_end strtod f arr s v _ rest
          (read_element (suc d) f v s _ r (omega arith)
            (items-IsDelimited fl pretty d no_items rest) e)
          (rw (no_items_text fl pretty _ _) (skip_ws-tail pretty d b']' rest refl))
    read_items (item w xs) h v r hv d zero arr s rest n e = absurd (omega arith)
    read_items (item w xs) h v r hv d (suc f) arr s rest n e =
        array_more strtod f arr s v _ _
          (read_element (suc d) f v s _ r (omega arith)
            (items-IsDelimited fl pretty d (item w xs) rest) e)
          (rw (items_text fl pretty _ _ _ _) (skip_comma fl pretty _))
        ∙ read_items xs h.1 w (read_value w h.0) h.0 d f (append_item arr v) _ rest (omega arith)
            (skip_gap fl pretty (suc d) _)

    read_members : (ms : Members Double) → HavePrintable fl ms → ReadsMembers ms
    read_members no_members h k v r d zero obj s rest n e = absurd (omega arith)
    read_members no_members h k v r d (suc f) obj s rest n e =
        object_end strtod f obj s _ _ k v (tail_text pretty d b'}' rest) rest
          (rw e (parse_string-append_string k _)) (skip_ws-colon pretty _)
          (read_element (suc d) f v _ _ r (omega arith) (tail-IsDelimited_object pretty d rest)
            (skip_ws-space pretty _))
          (skip_ws-tail pretty d b'}' rest refl)
    read_members (member j w ms) h k v r d zero obj s rest n e = absurd (omega arith)
    read_members (member j w ms) h k v r d (suc f) obj s rest n e =
        object_more strtod f obj s _ _ k v (members_left fl pretty d (member j w ms) rest) _
          (rw e (parse_string-append_string k _)) (skip_ws-colon pretty _)
          (read_element (suc d) f v _ _ r (omega arith)
            (members-IsDelimited fl pretty d (member j w ms) rest) (skip_ws-space pretty _))
          (rw (members_text fl pretty _ _ _ _ _) (skip_comma fl pretty _))
        ∙ read_members ms h.1 j w (read_value w h.0) d f (set_member k v obj) _ rest (omega arith)
            (skip_gap fl pretty (suc d) _ ∙ skip_ws-IsFirst _ (IsFirst-append_string fl pretty j _))

  -- Parse gives back the value that Stringify printed, in the compact and in the pretty form, for every
  -- value in which no object has a key twice and each number prints as one number token (a digit or a
  -- minus sign at the front, and all of it taken by the scanner of numbers, so neither inf nor nan) that
  -- strtod reads as the number.
  pub parse-stringify :
      (v : Value Double) → IsPrintable fl v → parse strtod (stringify fl v pretty) ≡ ok v
  unfolding parse stringify
  parse-stringify v h =
      let text = append_value fl pretty 0 v in
      let run =
        read_value v h 0 (3 * length text + 3) [] (omega (arith, need-lt fl pretty v h 0)) tt in
      rw (rw append-nil at run) refl
