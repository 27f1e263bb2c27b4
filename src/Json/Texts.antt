-- ===== src/Json/Texts.antt =====
-- The texts of arrays and objects, piece by piece (linux/src/json.cpp).
use harness_desktop.Base.{
  ℕ, suc, ◌≡◌, refl, ap, ◌∙◌, Bool, true, false, [], ◌∷◌, ◌++◌, Bytes, if◌then◌else◌, append_assoc,
}
use harness_desktop.Json.Value.{
  Value, Items, Members, array, object, no_items, item, no_members, member, member_keys,
}
use harness_desktop.Json.Floats.{Floats}
use harness_desktop.Json.Scan.{skip_ws}
use harness_desktop.Json.Printer.{
  newline, indent, append_string, append_value, append_items, enclose,
}
use harness_desktop.Json.Numbers.{IsDelimited}
use harness_desktop.Json.Gaps.{IsFirst, skip_ws-newline, skip_ws-indent}
use harness_desktop.Json.Members.{AreDistinct}
use harness_desktop.Json.Printable.{member_text, colon, append_members-member_text}
use harness_desktop.Json.Steps.{tail_text, tail-IsDelimited_array, tail-IsDelimited_object}

-- `pretty ? ": " : ":"` in front of a value
abbrev pub space : Bool → Bytes
space pretty = if pretty then b' ' ∷ [] else []

pub skip_ws-colon :
    (pretty : Bool) (s : Bytes) → skip_ws (colon pretty ++ s) ≡ b':' ∷ (space pretty ++ s)
unfolding skip_ws
skip_ws-colon true s = refl
skip_ws-colon false s = refl

pub skip_ws-space : (pretty : Bool) (s : Bytes) → skip_ws (space pretty ++ s) ≡ skip_ws s
unfolding skip_ws
skip_ws-space true s = refl
skip_ws-space false s = refl

module _ (fl : Floats) (pretty : Bool) where
  open fl use {Double, strtod}

  -- the text of an array with elements, and of the elements behind the first
  pub array_enclose :
      (d : ℕ) (v : Value Double) (xs : Items Double)
      → append_value fl pretty d (array (item v xs))
        ≡ enclose pretty d false b'[' b']' (append_items fl pretty d true (item v xs))
  array_enclose d v xs = unfold append_value in refl

  pub array_text :
      (d : ℕ) (v : Value Double) (xs : Items Double) (rest : Bytes)
      → append_value fl pretty d (array (item v xs)) ++ rest
        ≡ b'['
          ∷ (newline pretty
              ++ (indent pretty (suc d)
                  ++ (append_value fl pretty (suc d) v
                      ++ (append_items fl pretty d false xs ++ tail_text pretty d b']' rest))))
  array_text d v xs rest = unfold append_value enclose in simp append_assoc

  pub items_text :
      (d : ℕ) (w : Value Double) (xs : Items Double) (rest : Bytes)
      → append_items fl pretty d false (item w xs) ++ rest
        ≡ b','
          ∷ (newline pretty
              ++ (indent pretty (suc d)
                  ++ (append_value fl pretty (suc d) w
                      ++ (append_items fl pretty d false xs ++ rest))))
  items_text d w xs rest = unfold append_value in simp append_assoc

  pub no_items_text :
      (d : ℕ) (rest : Bytes) → append_items fl pretty d false no_items ++ rest ≡ rest
  no_items_text d rest = unfold append_value in refl

  pub items-IsDelimited :
      (d : ℕ) (xs : Items Double) (rest : Bytes)
      → IsDelimited (append_items fl pretty d false xs ++ tail_text pretty d b']' rest)
  unfolding append_value
  items-IsDelimited d no_items rest = tail-IsDelimited_array pretty d rest
  items-IsDelimited d (item v xs) rest = refl

  pub skip_gap :
      (d : ℕ) (s : Bytes) → skip_ws (newline pretty ++ (indent pretty d ++ s)) ≡ skip_ws s
  skip_gap d s = skip_ws-newline pretty _ ∙ skip_ws-indent pretty d s

  pub skip_comma : (s : Bytes) → skip_ws (b',' ∷ s) ≡ b',' ∷ s
  unfolding skip_ws
  skip_comma s = refl

  pub empty_array :
      (d : ℕ) (rest : Bytes)
      → append_value fl pretty d (array no_items) ++ rest ≡ b'[' ∷ b']' ∷ rest
  empty_array d rest = unfold append_value enclose in refl

  pub empty_object :
      (d : ℕ) (rest : Bytes)
      → append_value fl pretty d (object no_members) ++ rest ≡ b'{' ∷ b'}' ∷ rest
  empty_object d rest = unfold append_value enclose in refl

  -- what stands behind the brace or a comma of an object: a member, and `left`
  abbrev pub member_front : ℕ → Bytes → Value Double → Bytes → Bytes
  member_front d k v left =
      append_string k ++ (colon pretty ++ (append_value fl pretty (suc d) v ++ left))

  abbrev pub members_left : ℕ → Members Double → Bytes → Bytes
  members_left d ms rest = member_text fl pretty d false ms ++ tail_text pretty d b'}' rest

  pub object_enclose :
      (d : ℕ) (k : Bytes) (v : Value Double) (ms : Members Double)
      → AreDistinct (member_keys (member k v ms))
      → append_value fl pretty d (object (member k v ms))
        ≡ enclose pretty d false b'{' b'}' (member_text fl pretty d true (member k v ms))
  unfolding append_value
  object_enclose d k v ms h =
      ap (λ (t : Bytes). enclose pretty d false b'{' b'}' t)
        (append_members-member_text fl pretty d true (member k v ms) h)

  pub object_text :
      (d : ℕ) (k : Bytes) (v : Value Double) (ms : Members Double) (rest : Bytes)
      → AreDistinct (member_keys (member k v ms))
      → append_value fl pretty d (object (member k v ms)) ++ rest
        ≡ b'{'
          ∷ (newline pretty
              ++ (indent pretty (suc d) ++ member_front d k v (members_left d ms rest)))
  object_text d k v ms rest h =
      ap (λ (t : Bytes). t ++ rest) (object_enclose d k v ms h)
      ∙ (unfold enclose in simp append_assoc)

  pub members_text :
      (d : ℕ) (k : Bytes) (v : Value Double) (ms : Members Double) (rest : Bytes)
      → members_left d (member k v ms) rest
        ≡ b','
          ∷ (newline pretty
              ++ (indent pretty (suc d) ++ member_front d k v (members_left d ms rest)))
  members_text d k v ms rest = simp append_assoc

  pub members-IsDelimited :
      (d : ℕ) (ms : Members Double) (rest : Bytes) → IsDelimited (members_left d ms rest)
  members-IsDelimited d no_members rest = tail-IsDelimited_object pretty d rest
  members-IsDelimited d (member k v ms) rest = refl

  pub IsFirst-append_string : (k s : Bytes) → IsFirst (append_string k ++ s)
  unfolding append_string
  IsFirst-append_string k s = (refl, refl, refl)
