-- ===== src/Plugins/Lines.antt =====
-- What OutputTail (linux/src/plugins_manager.cpp) keeps of an output.
use harness_desktop.Base.{
  ℕ, zero, suc, ◌+◌, ◌-◌, ◌≤◌, ◌<◌, ◌≡◌, refl, ◌∙◌, sym, ap, false, ◌==◌, List, [], ◌∷◌, ◌++◌,
  Bytes, codes, is_empty, ltb, length, drop, if◌then◌else◌, All, append_assoc, append-nil,
  Bool-cases, inl, inr, arith,
}
use harness_desktop.Plugins.Tail.{split_lines, join_lines, output_tail}

abbrev pub newlines : Bytes → ℕ
newlines [] = 0
newlines (c ∷ s) = let n = newlines s in if c == b'\n' then suc n else n

-- A line: at least one byte, and no line end.
abbrev pub IsLine : Bytes → Type 0
IsLine s = (newlines s ≡ 0) × (is_empty s ≡ false)

-- An output of lines, each with its line end, and lines with a line end between two of them.
abbrev pub terminated : List Bytes → Bytes
terminated [] = []
terminated (w ∷ ws) = w ++ (b'\n' ∷ terminated ws)

abbrev pub separated_behind : List Bytes → Bytes
separated_behind [] = []
separated_behind (w ∷ ws) = b'\n' ∷ (w ++ separated_behind ws)

abbrev pub separated : List Bytes → Bytes
separated [] = []
separated (w ∷ ws) = w ++ separated_behind ws

newlines-append : (s t : Bytes) → newlines (s ++ t) ≡ newlines s + newlines t
newlines-append [] t = omega arith
newlines-append (c ∷ s) t = ground (arith, newlines-append s t)

split_lines-bound :
    (line s : Bytes) → newlines line ≡ 0 → All (λ w. newlines w ≡ 0) (split_lines line s)
unfolding split_lines
split_lines-bound [] [] h = tt
split_lines-bound (c ∷ line) [] h = (h, tt)
split_lines-bound line (c ∷ s) h = elim (Bool-cases (c == b'\n')) [
  | inl e ↦ rw e (h, split_lines-bound [] s refl)
  | inr e ↦
      rw e (split_lines-bound (line ++ (c ∷ [])) s (newlines-append line (c ∷ []) ∙ rw (h, e) refl))
]

All-drop : (P : Bytes → Type 0) (n : ℕ) (ws : List Bytes) → All P ws → All P (drop n ws)
All-drop P zero ws h = h
All-drop P (suc n) [] h = tt
All-drop P (suc n) (w ∷ ws) (hw, h) = All-drop P n ws h

start_bound :
    (tail w : Bytes)
    → newlines w ≡ 0
    → newlines ((if is_empty tail then tail else tail ++ (b'\n' ∷ [])) ++ w) ≤ suc (newlines tail)
start_bound tail w h = elim (Bool-cases (is_empty tail)) [
  | inl e ↦ rw e (omega (arith, newlines-append tail w))
  | inr e ↦
      rw e
        (omega (arith, newlines-append (tail ++ (b'\n' ∷ [])) w, newlines-append tail (b'\n' ∷ [])))
]

join_lines-bound :
    (tail : Bytes) (ws : List Bytes)
    → All (λ w. newlines w ≡ 0) ws
    → newlines (join_lines tail ws) ≤ newlines tail + length ws
unfolding join_lines
join_lines-bound tail [] h = omega arith
join_lines-bound tail (w ∷ ws) (hw, h) =
    let start = if is_empty tail then tail else tail ++ (b'\n' ∷ []) in
    omega (arith, start_bound tail w hw, join_lines-bound (start ++ w) ws h)

length-drop : (n : ℕ) (ws : List Bytes) → length (drop n ws) ≡ length ws - n
length-drop zero ws = omega arith
length-drop (suc n) [] = omega arith
length-drop (suc n) (w ∷ ws) = omega (arith, length-drop n ws)

first_bound :
    (ws : List Bytes) → All (λ w. newlines w ≡ 0) ws → newlines (join_lines [] ws) ≤ length ws - 1
unfolding join_lines
first_bound [] h = omega arith
first_bound (w ∷ ws) (hw, h) = omega (arith, join_lines-bound w ws h)

-- The tail of any output is not empty and has at most twelve lines.
pub output_tail-bound :
    (output : Bytes)
    → (is_empty (output_tail output) ≡ false) × (newlines (output_tail output) ≤ 11)
unfolding output_tail
output_tail-bound output =
    let lines = split_lines [] output in
    let n = if ltb 12 (length lines) then length lines - 12 else 0 in
    let few : length lines - n ≤ 12 = ground arith in
    at (join_lines [] (drop n lines)) (
      omega (
        arith,
        few,
        length-drop n lines,
        first_bound (drop n lines) (All-drop _ n lines (split_lines-bound [] output refl)),
      ))
  where
    at :
        (t : Bytes)
        → newlines t ≤ 11
        → (is_empty (if is_empty t then codes "exit non-zero" else t) ≡ false)
          × (newlines (if is_empty t then codes "exit non-zero" else t) ≤ 11)
    at [] h = (refl, omega arith)
    at (c ∷ t) h = (refl, h)

split_lines-line :
    (line w s : Bytes) → newlines w ≡ 0 → split_lines line (w ++ s) ≡ split_lines (line ++ w) s
unfolding split_lines
split_lines-line line [] s h = rw append-nil
split_lines-line line (c ∷ w) s h =
    let e : (c == b'\n') ≡ false = ground arith in
    let hw : newlines w ≡ 0 = ground arith in
    rw e (
      split_lines-line (line ++ (c ∷ [])) w s hw
      ∙ ap (λ l. split_lines l s) (append_assoc line (c ∷ []) w))

split_lines-terminated : (ws : List Bytes) → All IsLine ws → split_lines [] (terminated ws) ≡ ws
unfolding split_lines
split_lines-terminated [] h = refl
split_lines-terminated (w ∷ ws) ((hw, ne), h) =
    split_lines-line [] w (b'\n' ∷ terminated ws) hw ∙ ap (λ t. w ∷ t) (split_lines-terminated ws h)

is_empty-append : (s t : Bytes) → is_empty t ≡ false → is_empty (s ++ t) ≡ false
is_empty-append [] t h = h
is_empty-append (c ∷ s) t h = refl

join_lines-separated :
    (tail : Bytes) (ws : List Bytes)
    → is_empty tail ≡ false
    → All IsLine ws
    → join_lines tail ws ≡ tail ++ separated_behind ws
unfolding join_lines
join_lines-separated tail [] h hs = sym (append-nil tail)
join_lines-separated tail (w ∷ ws) h ((hw, ne), hs) = rw h (
    join_lines-separated ((tail ++ (b'\n' ∷ [])) ++ w) ws
      (is_empty-append (tail ++ (b'\n' ∷ [])) w ne) hs
    ∙ (append_assoc (tail ++ (b'\n' ∷ [])) w (separated_behind ws)
        ∙ append_assoc tail (b'\n' ∷ []) (w ++ separated_behind ws)))

join_lines-first : (ws : List Bytes) → All IsLine ws → join_lines [] ws ≡ separated ws
unfolding join_lines
join_lines-first [] h = refl
join_lines-first (w ∷ ws) ((hw, ne), h) = join_lines-separated w ws ne h

drop_last : (n : ℕ) (ws : List Bytes) → (if ltb 12 n then n - 12 else 0) ≡ n - 12
drop_last n ws = ground arith

is_empty-separated :
    (ws : List Bytes) → All IsLine ws → 0 < length ws → is_empty (separated ws) ≡ false
is_empty-separated [] h l = absurd (omega arith)
is_empty-separated ([] ∷ ws) ((hw, ne), h) l = cc
is_empty-separated ((c ∷ w) ∷ ws) h l = refl

-- The tail of an output of lines with their line ends is its last twelve lines, with a line end
-- between two of them.
pub output_tail-terminated :
    (ws : List Bytes)
    → All IsLine ws
    → 0 < length ws
    → output_tail (terminated ws) ≡ separated (drop (length ws - 12) ws)
unfolding output_tail
output_tail-terminated ws h l =
    let last = drop (length ws - 12) ws in
    let lines = All-drop IsLine (length ws - 12) ws h in
    let some_line : 0 < length last = omega (arith, length-drop (length ws - 12) ws) in
    rw (split_lines-terminated ws h) (
      rw (drop_last (length ws) ws)
        (rw (join_lines-first last lines) (rw (is_empty-separated last lines some_line) refl)))
