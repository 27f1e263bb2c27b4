-- ===== src/Json/Printable.antt =====
-- The values that linux/src/json.cpp can print and read back, and the texts they print to.
use harness_desktop.Base.{
  ℕ, suc, ◌≡◌, refl, Bool, true, false, ◌||◌, List, [], ◌∷◌, ◌++◌, Bytes, codes, bytes_eq_self,
  ◌==◌, if◌then◌else◌, arith,
}
use harness_desktop.Json.Value.{
  Value, Items, Members, null, bool, number, str, array, object, no_items, item, no_members, member,
  member_keys,
}
use harness_desktop.Json.Floats.{Floats}
use harness_desktop.Json.Scan.{is_digit, scan_number}
use harness_desktop.Json.Printer.{
  indent, separator, append_string, append_number, append_value, print_members, append_members,
  text_of, enclose,
}
use harness_desktop.Json.Gaps.{IsFirst}
use harness_desktop.Json.Members.{IsFresh, AreDistinct}

-- A text that begins as a number does.
abbrev pub StartsNumber : Bytes → Type 0
StartsNumber [] = ⊥
StartsNumber (c ∷ s) = (is_digit c || (c == b'-')) ≡ true

abbrev pub colon : Bool → Bytes
colon pretty = if pretty then codes ": " else codes ":"

module _ (fl : Floats) where
  open fl use {Double, strtod}

  -- What the printer writes for `n` is one number token, and strtod reads it as `n`.
  pub record IsReadable (n : Double) : Type 0 where
    pub starts : StartsNumber (append_number fl n)
    pub token : scan_number (append_number fl n) ≡ (append_number fl n, [])
    pub value : strtod (append_number fl n) ≡ n

  -- Every number in the value is readable, and no object has a key twice.
  abbrev mutual
    pub IsPrintable : Value Double → Type 0
    IsPrintable (number n) = IsReadable n
    IsPrintable (array xs) = ArePrintable xs
    IsPrintable (object ms) = AreDistinct (member_keys ms) × HavePrintable ms
    IsPrintable _ = Unit

    pub ArePrintable : Items Double → Type 0
    ArePrintable no_items = Unit
    ArePrintable (item v xs) = IsPrintable v × ArePrintable xs

    pub HavePrintable : Members Double → Type 0
    HavePrintable no_members = Unit
    HavePrintable (member k v ms) = IsPrintable v × HavePrintable ms

  IsFirst-of_number : (t : Bytes) → StartsNumber t → IsFirst t
  IsFirst-of_number [] h = absurd h
  IsFirst-of_number (c ∷ s) h = ground arith

  pub IsFirst-append_value :
      (pretty : Bool) (d : ℕ) (v : Value Double)
      → IsPrintable v
      → IsFirst (append_value fl pretty d v)
  unfolding append_value enclose append_string
  IsFirst-append_value pretty d null h = (refl, refl, refl)
  IsFirst-append_value pretty d (bool true) h = (refl, refl, refl)
  IsFirst-append_value pretty d (bool false) h = (refl, refl, refl)
  IsFirst-append_value pretty d (number n) h = IsFirst-of_number (append_number fl n) h.starts
  IsFirst-append_value pretty d (str s) h = (refl, refl, refl)
  IsFirst-append_value pretty d (array no_items) h = (refl, refl, refl)
  IsFirst-append_value pretty d (array (item v xs)) h = (refl, refl, refl)
  IsFirst-append_value pretty d (object no_members) h = (refl, refl, refl)
  IsFirst-append_value pretty d (object (member k v ms)) h = (refl, refl, refl)

  -- The members' text, each with the print of its own value.
  abbrev pub member_text : Bool → ℕ → Bool → Members Double → Bytes
  member_text pretty d first no_members = []
  member_text pretty d first (member k v ms) =
      separator pretty first
      ++ (indent pretty (suc d)
          ++ (append_string k
              ++ (colon pretty
                  ++ (append_value fl pretty (suc d) v ++ member_text pretty d false ms))))

  append_members-fresh :
      (pretty : Bool) (d : ℕ) (first : Bool) (k t : Bytes) (printed : List (Bytes × Bytes))
      (ks : List Bytes)
      → IsFresh k ks
      → append_members pretty d first ((k, t) ∷ printed) ks
        ≡ append_members pretty d first printed ks
  unfolding append_members
  append_members-fresh pretty d first k t printed [] h = refl
  append_members-fresh pretty d first k t printed (j ∷ ks) (hj, h) =
      rw (hj, text_of) (rw (append_members-fresh pretty d false k t printed ks h))

  -- Get(key) finds the member's own value, since the keys are different.
  pub append_members-member_text :
      (pretty : Bool) (d : ℕ) (first : Bool) (ms : Members Double)
      → AreDistinct (member_keys ms)
      → append_members pretty d first (print_members fl pretty d ms) (member_keys ms)
        ≡ member_text pretty d first ms
  unfolding append_members append_value member_keys
  append_members-member_text pretty d first no_members h = refl
  append_members-member_text pretty d first (member k v ms) (fresh, h) =
      rw (bytes_eq_self k, text_of)
        (rw (append_members-fresh pretty d false k _ _ (member_keys ms) fresh)
          (rw (append_members-member_text pretty d false ms h)))
