-- ===== src/Window/Lines.antt =====
-- The loop of linux/src/main_window.cpp that takes complete lines off the front of a buffer
-- (DrainServerLogs and OnBridgeOutput), and what becomes of a buffer that grows.
use harness_desktop.Base.{
  ◌≡◌, refl, sym, ap, ◌∙◌, Bool, true, false, not, ◌&&◌, ◌==◌, List, [], ◌∷◌, ◌++◌, Bytes,
  append_assoc, append-nil, if◌then◌else◌, Bool-cases, inl, inr, arith,
}

-- The complete lines of a buffer and the rest; `line` is what was read of the current line.
unfoldable pub complete_lines : Bytes → Bytes → List Bytes × Bytes
complete_lines line [] = ([], line)
complete_lines line (c ∷ s) =
    let ended = complete_lines [] s in
    let grown = complete_lines (line ++ (c ∷ [])) s in
    if c == b'\n' then (line ∷ ended.0, ended.1) else grown

-- lines in front of those of a later part
abbrev pub behind : List Bytes → List Bytes × Bytes → List Bytes × Bytes
behind ls r = (ls ++ r.0, r.1)

-- The lines of two parts are those of the first, and those of the second behind its rest.
pub complete_lines-append :
    (line a b : Bytes)
    → complete_lines line (a ++ b)
      ≡ behind (complete_lines line a).0 (complete_lines (complete_lines line a).1 b)
unfolding complete_lines
complete_lines-append line [] b = refl
complete_lines-append line (c ∷ a) b = elim (Bool-cases (c == b'\n')) [
  | inl e ↦ rw e (ap (behind (line ∷ [])) (complete_lines-append [] a b))
  | inr e ↦ rw e (complete_lines-append (line ++ (c ∷ [])) a b)
]

abbrev pub has_no_break : Bytes → Bool
has_no_break [] = true
has_no_break (c ∷ s) = not (c == b'\n') && has_no_break s

has_no_break-append : (s t : Bytes) → has_no_break (s ++ t) ≡ (has_no_break s && has_no_break t)
has_no_break-append [] t = refl
has_no_break-append (c ∷ s) t = ground (arith, has_no_break-append s t)

-- The rest has no line end.
pub has_no_break-complete_lines :
    (line s : Bytes) → has_no_break line ≡ true → has_no_break (complete_lines line s).1 ≡ true
unfolding complete_lines
has_no_break-complete_lines line [] h = h
has_no_break-complete_lines line (c ∷ s) h = elim (Bool-cases (c == b'\n')) [
  | inl e ↦ rw e (has_no_break-complete_lines [] s refl)
  | inr e ↦
      let grown : has_no_break (line ++ (c ∷ [])) ≡ true =
        ground (arith, has_no_break-append line (c ∷ [])) in
      rw e (has_no_break-complete_lines (line ++ (c ∷ [])) s grown)
]

-- A buffer that begins with a part of a line is read as that part was.
pub complete_lines-tail :
    (line t s : Bytes)
    → has_no_break t ≡ true
    → complete_lines line (t ++ s) ≡ complete_lines (line ++ t) s
unfolding complete_lines
complete_lines-tail line [] s h = ap (λ x. complete_lines x s) (sym (append-nil line))
complete_lines-tail line (c ∷ t) s h =
    let e : (c == b'\n') ≡ false = ground arith in
    let rest : has_no_break t ≡ true = ground arith in
    rw e (
      complete_lines-tail (line ++ (c ∷ [])) t s rest
      ∙ ap (λ x. complete_lines x s) (append_assoc line (c ∷ []) t))

-- A buffer whose complete lines are taken off before more arrives gives the same lines and the same
-- rest as one that gets everything at once.
pub complete_lines-regrouped :
    (a b : Bytes)
    → complete_lines [] (a ++ b)
      ≡ behind (complete_lines [] a).0 (complete_lines [] ((complete_lines [] a).1 ++ b))
complete_lines-regrouped a b =
    let rest = (complete_lines [] a).1 in
    complete_lines-append [] a b
    ∙ ap (behind (complete_lines [] a).0)
        (sym (complete_lines-tail [] rest b (has_no_break-complete_lines [] a refl)))
