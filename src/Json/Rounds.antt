-- ===== src/Json/Rounds.antt =====
-- One round of each method of struct Parser (linux/src/json.cpp): what it reads, when its calls read so.
use harness_desktop.Base.{
  ℕ, suc, ◌+◌, ◌≤◌, ◌<◌, ◌≡◌, refl, ◌||◌, [], ◌∷◌, Bytes, ◌==◌, if◌then◌else◌, length, is_empty,
  starts_with, codes, inl, inr, Bool-cases, arith,
}
use harness_desktop.Base.Outcome.{Outcome, ok, failed, Ends, holds, rejected, Ends-bind}
use harness_desktop.Json.Value.{
  Value, Items, Members, number, object, no_items, no_members, member_keys,
}
use harness_desktop.Json.Scan.{skip_ws, parse_string, scan_number}
use harness_desktop.Json.Parser.{
  After, more, finish, expect, after_element, parse_string_value, parse_literal, parse_number,
  parse_scalar, parse_value, parse_object, object_loop, parse_array, array_loop,
}
use harness_desktop.Json.Shorter.{Leaves-parse_string, Ends-or_fail, length-scan_number}
use harness_desktop.Json.Gaps.{length-skip_ws}
use harness_desktop.Json.WellFormed.{
  length-drop-lt, IsWellFormed, AreWellFormed, AreWellFormed-append_item, IsWellFormed-set_member,
  Reads, Ends-mono,
}

Ends-expect : (b : ℕ) (s : Bytes) → Ends (λ t. length t < length s) (expect b s)
unfolding expect
Ends-expect b [] = rejected
Ends-expect b (c ∷ s) = elim (Bool-cases (c == b)) [
  | inl e ↦ rw e (holds (omega arith))
  | inr e ↦ rw e rejected
]

abbrev Advances : ℕ → After → Type 0
Advances n (more t) = length t < n
Advances n (finish t) = length t < n

Ends-after_element : (close : ℕ) (s : Bytes) → Ends (Advances (length s)) (after_element close s)
unfolding after_element
Ends-after_element close [] = rejected
Ends-after_element close (c ∷ s) = elim (Bool-cases (c == b',')) [
  | inl e ↦ rw e (holds (omega arith))
  | inr e ↦ rw e (elim (Bool-cases (c == close)) [
    | inl k ↦ rw k (holds (omega arith))
    | inr k ↦ rw k rejected
  ])
]

pub IsWellFormed-nil : (D : Type 0) → IsWellFormed {D = D} (object no_members)
unfolding member_keys
IsWellFormed-nil D = (tt, tt)

module _ {D : Type 0} (strtod : Bytes → D) where
  Ends-parse_string_value : (s : Bytes) → Ends (Reads (length s)) (parse_string_value {D = D} s)
  unfolding parse_string_value
  Ends-parse_string_value s =
      Ends-bind _ (Ends-or_fail (length s) (parse_string s) (Leaves-parse_string s))
        λ (t, rest) h. holds (tt, h)

  Ends-parse_number : (s : Bytes) → Ends (Reads (length s)) (parse_number strtod s)
  unfolding parse_number
  Ends-parse_number s = at (scan_number s).0 (scan_number s).1 (length-scan_number s)
    where
      at :
          (token rest : Bytes)
          → length token + length rest ≡ length s
          → Ends
              (Reads (length s))
              (if is_empty token then failed else ok (number (strtod token), rest))
      at [] rest e = rejected
      at (c ∷ token) rest e = holds (tt, omega arith)

  Ends-parse_literal : (s : Bytes) → Ends (Reads (length s)) (parse_literal {D = D} s)
  unfolding parse_literal
  Ends-parse_literal s = elim (Bool-cases (starts_with (codes "true") s)) [
    | inl e ↦ rw e (holds (tt, length-drop-lt 3 b't' (codes "rue") s e))
    | inr e ↦ rw e (elim (Bool-cases (starts_with (codes "false") s)) [
      | inl k ↦ rw k (holds (tt, length-drop-lt 4 b'f' (codes "alse") s k))
      | inr k ↦ rw k (elim (Bool-cases (starts_with (codes "null") s)) [
        | inl l ↦ rw l (holds (tt, length-drop-lt 3 b'n' (codes "ull") s l))
        | inr l ↦ rw l rejected
      ])
    ])
  ]

  Ends-parse_scalar : (c : ℕ) (r : Bytes) → Ends (Reads (length (c ∷ r))) (parse_scalar strtod c r)
  unfolding parse_scalar
  Ends-parse_scalar c r = elim (Bool-cases (c == b'"')) [
    | inl e ↦ rw e (Ends-parse_string_value (c ∷ r))
    | inr e ↦ rw e (elim (Bool-cases ((c == b't') || (c == b'f') || (c == b'n'))) [
      | inl k ↦ rw k (Ends-parse_literal (c ∷ r))
      | inr k ↦ rw k (Ends-parse_number (c ∷ r))
    ])
  ]

  -- What the loops do behind an element.
  Ends-continue :
      (n m : ℕ) (next : After) (again : Bytes → Outcome (Value D × Bytes)) (done : Value D)
      → Advances m next
      → m ≤ n
      → IsWellFormed done
      → ((r : Bytes) → length r < m → Ends (Reads (length r)) (again r))
      → Ends (Reads n) (elim next [ more r ↦ again r | finish r ↦ ok (done, r) ])
  Ends-continue n m (more r) again done l h w k = Ends-mono (omega arith) (k r l)
  Ends-continue n m (finish r) again done l h w k = holds (w, omega arith)

  -- One round of each method, from what its calls do.
  pub Ends-value_step :
      (f : ℕ) (s : Bytes)
      → ((r : Bytes) → length r < length s → Ends (Reads (length r)) (parse_object strtod f r))
      → ((r : Bytes) → length r < length s → Ends (Reads (length r)) (parse_array strtod f r))
      → Ends (Reads (length s)) (parse_value strtod (suc f) s)
  unfolding parse_value
  Ends-value_step f s objects arrays = at (skip_ws s) refl (length-skip_ws s)
    where
      scalar :
          (c : ℕ) (r : Bytes)
          → length (c ∷ r) ≤ length s
          → Ends (Reads (length s)) (parse_scalar strtod c r)
      scalar c r l = Ends-mono l (Ends-parse_scalar c r)

      at :
          (t : Bytes)
          → skip_ws s ≡ t
          → length t ≤ length s
          → Ends (Reads (length s)) (parse_value strtod (suc f) s)
      at [] e l = rw (e, parse_value) rejected
      at (c ∷ r) e l =
          rw (e, parse_value)
            (elim (Bool-cases (c == b'{')) [
              | inl k ↦ rw (k, parse_value) (Ends-mono (omega arith) (objects r (omega arith)))
              | inr k ↦
                  rw (k, parse_value)
                    (elim (Bool-cases (c == b'[')) [
                      | inl m ↦
                          rw (m, parse_value) (Ends-mono (omega arith) (arrays r (omega arith)))
                      | inr m ↦ rw (m, parse_value) (scalar c r l)
                    ])
            ])

  pub Ends-object_step :
      (f : ℕ) (s : Bytes)
      → ((t : Bytes)
          → length t ≤ length s
          → Ends (Reads (length t)) (object_loop strtod f no_members t))
      → Ends (Reads (length s)) (parse_object strtod (suc f) s)
  unfolding parse_value
  Ends-object_step f s loop = at (skip_ws s) refl (length-skip_ws s)
    where
      at :
          (t : Bytes)
          → skip_ws s ≡ t
          → length t ≤ length s
          → Ends (Reads (length s)) (parse_object strtod (suc f) s)
      at [] e l = rw (e, parse_object) rejected
      at (c ∷ r) e l =
          rw (e, parse_object)
            (elim (Bool-cases (c == b'}')) [
              | inl k ↦ rw (k, parse_value) (holds (IsWellFormed-nil D, omega arith))
              | inr k ↦ rw (k, parse_value) (Ends-mono l (loop (c ∷ r) l))
            ])

  pub Ends-array_step :
      (f : ℕ) (s : Bytes)
      → ((t : Bytes)
          → length t ≤ length s
          → Ends (Reads (length t)) (array_loop strtod f no_items t))
      → Ends (Reads (length s)) (parse_array strtod (suc f) s)
  unfolding parse_value
  Ends-array_step f s loop = at (skip_ws s) refl (length-skip_ws s)
    where
      at :
          (t : Bytes)
          → skip_ws s ≡ t
          → length t ≤ length s
          → Ends (Reads (length s)) (parse_array strtod (suc f) s)
      at [] e l = rw (e, parse_array) rejected
      at (c ∷ r) e l =
          rw (e, parse_array)
            (elim (Bool-cases (c == b']')) [
              | inl k ↦ rw (k, parse_value) (holds (tt, omega arith))
              | inr k ↦ rw (k, parse_value) (Ends-mono l (loop (c ∷ r) l))
            ])

  pub Ends-object_round :
      (f : ℕ) (obj : Members D) (s : Bytes)
      → IsWellFormed (object obj)
      → ((t : Bytes) → length t < length s → Ends (Reads (length t)) (parse_value strtod f t))
      → ((ms : Members D) (t : Bytes)
          → IsWellFormed (object ms)
          → length t < length s
          → Ends (Reads (length t)) (object_loop strtod f ms t))
      → Ends (Reads (length s)) (object_loop strtod (suc f) obj s)
  unfolding parse_value
  Ends-object_round f obj s w value loop =
      Ends-bind _ (Ends-or_fail _ (parse_string (skip_ws s)) (Leaves-parse_string (skip_ws s)))
        λ (key, s₁) l₁. Ends-bind _ (Ends-expect b':' (skip_ws s₁)) λ s₂ l₂.
          Ends-bind _ (value s₂ (omega (arith, length-skip_ws s, length-skip_ws s₁))) λ (v, s₃) r₃.
            Ends-bind _ (Ends-after_element b'}' (skip_ws s₃)) λ next l₄.
              Ends-continue (length s) (length (skip_ws s₃)) next _ _ l₄
                (omega (arith, length-skip_ws s, length-skip_ws s₁, length-skip_ws s₃))
                (IsWellFormed-set_member key v obj w r₃.0)
                λ r l.
                  loop _ r (IsWellFormed-set_member key v obj w r₃.0)
                    (omega (arith, length-skip_ws s, length-skip_ws s₁, length-skip_ws s₃))

  pub Ends-array_round :
      (f : ℕ) (arr : Items D) (s : Bytes)
      → AreWellFormed arr
      → Ends (Reads (length s)) (parse_value strtod f s)
      → ((xs : Items D) (t : Bytes)
          → AreWellFormed xs
          → length t < length s
          → Ends (Reads (length t)) (array_loop strtod f xs t))
      → Ends (Reads (length s)) (array_loop strtod (suc f) arr s)
  unfolding parse_value
  Ends-array_round f arr s w value loop = Ends-bind _ value λ (v, s₁) r₁.
      Ends-bind _ (Ends-after_element b']' (skip_ws s₁)) λ next l₂.
        Ends-continue (length s) (length (skip_ws s₁)) next _ _ l₂
          (omega (arith, length-skip_ws s₁)) (AreWellFormed-append_item arr v w r₁.0)
          λ r l.
            loop _ r (AreWellFormed-append_item arr v w r₁.0) (omega (arith, length-skip_ws s₁))
