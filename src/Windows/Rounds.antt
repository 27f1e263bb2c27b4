-- ===== src/Windows/Rounds.antt =====
-- The searches of windows/src/json.cpp end: each round moves the position.
use harness_desktop.Base.{
  ℕ, zero, suc, ◌+◌, ◌-◌, ◌<◌, ◌≤◌, not, ◌&&◌, ◌||◌, ◌==◌, Bytes, bytes_eq, ltb, leb, inl, inr,
  Bool-cases, if-elim, arith,
}
use harness_desktop.Base.Outcome.{Outcome, Ends, holds, rejected}
use harness_desktop.Windows.Scan.{parse_string}
use harness_desktop.Windows.Ranges.{
  Cursor, byte, moved, next, skip_spaces, cursor_at, is_open, starts_string, skip_value_by,
  skip_value, Round, again, over, read_key, at_colon, search, value_range, find_value_range,
  value_string, skip_member, object_get_string, skip_nested, skip_flat,
}

-- A round that goes on has moved behind `i`; one that returns has kept within its fuel.
abbrev Moves : {A : Type 0} → (A → Type 0) → ℕ → Round A → Type 0
Moves P i (again d) = i < d.at
Moves P i (over r) = Ends P r

module _ {A : Type 0} {P : A → Type 0} (skip : ℕ → Cursor → Cursor) (value : ℕ → Cursor → Outcome A)
    (end : ℕ) (key : Bytes) (keeps : (c : Cursor) → c.at ≤ (skip end c).at)
    (looks : (c : Cursor) → Ends P (value end c)) where
  Moves-at_colon :
      (i : ℕ) (k : Bytes) (c : Cursor) → i ≤ c.at → Moves P i (at_colon skip value end key k c)
  unfolding at_colon
  Moves-at_colon i k c h =
      let v = skip_spaces (next c) in
      let skipped = keeps v in
      if-elim (Moves P i) (ltb (c.at) end && byte c == b':')
        (λ e. if-elim (Moves P i) (bytes_eq k key) (λ s. looks v) λ s. omega arith) λ e. omega arith

  Moves-read_key : (c : Cursor) → Moves P (c.at) (read_key end (at_colon skip value end key) c)
  unfolding read_key
  Moves-read_key c =
      let d = skip_spaces c in
      let p = parse_string (d.rest) in
      if-elim (Moves P (c.at)) (leb end (d.at) || not (byte d == b'"')) (λ e. omega arith)
        λ e.
          if-elim (Moves P (c.at)) (not (p.returned)) (λ f. omega arith)
            λ f. Moves-at_colon (c.at) (p.out) (skip_spaces (moved d (p.rest))) (omega arith)

  Ends-round :
      (n : ℕ) (i : ℕ) (r : Round A)
      → Moves P i r
      → i < end
      → end < n + suc i
      → ((d : Cursor) → 0 < n → end < n + d.at → Ends P (search skip value n end key d))
      → Ends P (elim r [ again d ↦ search skip value n end key d | over o ↦ o ])
  Ends-round n i (again d) m l h k = k d (omega arith) (omega arith)
  Ends-round n i (over r) m l h k = m

  Ends-search :
      (n : ℕ) (c : Cursor) → 0 < n → end < n + c.at → Ends P (search skip value n end key c)
  unfolding search
  Ends-search zero c l h = absurd (omega arith)
  Ends-search (suc n) c l h = elim (Bool-cases (ltb (c.at) end)) [
    | inl e ↦
        rw (e, search)
          (Ends-round n (c.at) (read_key end (at_colon skip value end key) c) (Moves-read_key c)
            (ground arith) (omega arith) (Ends-search n))
    | inr e ↦ rw (e, search) rejected
  ]

-- skipping goes forward
skip_value_by-forward :
    (skip : ℕ → ℕ → Bytes → Bytes) (end : ℕ) (c : Cursor) → c.at ≤ (skip_value_by skip end c).at
skip_value_by-forward skip end c =
    if-elim (λ (d : Cursor). c.at ≤ d.at) (starts_string end c) (λ e. omega arith) λ e. omega arith

-- a range that starts in front of the end
abbrev pub IsRange : ℕ → ℕ × ℕ → Type 0
IsRange end r = (r.0 < end) × (r.0 ≤ r.1)

IsRange-value_range : (end : ℕ) (c : Cursor) → Ends (IsRange end) (value_range end c)
unfolding value_range
IsRange-value_range end c =
    let ends = Ends (IsRange end) in
    if-elim ends (leb end (c.at)) (λ e. rejected)
      λ e.
        if-elim ends (byte c == b'"')
          (λ q.
            if-elim ends (not ((parse_string (c.rest)).returned)) (λ f. rejected)
              λ f. holds (ground arith, omega arith))
          λ q.
            if-elim ends (is_open (byte c)) (λ o. holds (ground arith, omega arith)) λ o. rejected

-- The search for a value ends, on any text and any part of it; a range that it finds starts in front of
-- the end of that part and does not end before it starts.
pub IsRange-find_value_range :
    (json : Bytes) (start end : ℕ) (key : Bytes)
    → Ends (IsRange end) (find_value_range json start end key)
unfolding find_value_range skip_value
IsRange-find_value_range json start end key =
    Ends-search skip_value value_range end key (skip_value_by-forward skip_nested end)
      (IsRange-value_range end) (suc (end - start)) (cursor_at json start) (omega arith)
      (omega arith)

Ends-value_string : (end : ℕ) (c : Cursor) → Ends {0, 0} (λ s. Unit) (value_string end c)
unfolding value_string
Ends-value_string end c =
    if-elim (Ends {0, 0} λ s. Unit) (starts_string end c) (λ e. holds tt) λ e. rejected

-- the search for a string ends as well
pub Ends-object_get_string :
    (json : Bytes) (start end : ℕ) (key : Bytes)
    → Ends {0, 0} (λ s. Unit) (object_get_string json start end key)
unfolding object_get_string skip_member
Ends-object_get_string json start end key =
    Ends-search skip_member value_string end key (skip_value_by-forward skip_flat end)
      (Ends-value_string end) (suc (end - start)) (cursor_at json start) (omega arith) (omega arith)
