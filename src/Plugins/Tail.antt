-- ===== src/Plugins/Tail.antt =====
-- OutputTail of linux/src/plugins_manager.cpp.
use harness_desktop.Base.{
  ◌-◌, ◌==◌, List, [], ◌∷◌, ◌++◌, Bytes, codes, is_empty, ltb, length, drop, if◌then◌else◌,
}

-- The loop that splits at line ends: `line` is what was read of the current line. A last line is
-- taken only if it is not empty.
unfoldable pub split_lines : Bytes → Bytes → List Bytes
split_lines line [] = if is_empty line then [] else line ∷ []
split_lines line (c ∷ s) =
    let ended = line ∷ split_lines [] s in
    let grown = split_lines (line ++ (c ∷ [])) s in if c == b'\n' then ended else grown

-- The loop that joins the lines behind `tail`; there is no line end before the first byte.
unfoldable pub join_lines : Bytes → List Bytes → Bytes
join_lines tail [] = tail
join_lines tail (line ∷ lines) =
    let start = if is_empty tail then tail else tail ++ (b'\n' ∷ []) in
    join_lines (start ++ line) lines

-- OutputTail
unfoldable pub output_tail : Bytes → Bytes
unfolding split_lines join_lines
output_tail output =
    let lines = split_lines [] output in
    let from = if ltb 12 (length lines) then length lines - 12 else 0 in
    let tail = join_lines [] (drop from lines) in
    if is_empty tail then codes "exit non-zero" else tail
