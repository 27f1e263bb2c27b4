-- ===== src/Window/Logs.antt =====
-- DrainServerLogs of linux/src/main_window.cpp.
use harness_desktop.Base.{
  ℕ, ◌+◌, ◌-◌, Bool, true, false, not, ◌||◌, ◌&&◌, ◌==◌, List, [], ◌∷◌, ◌++◌, Option, none, some,
  Bytes, codes, is_empty, starts_with, length, drop, ltb, leb, if◌then◌else◌,
}
use harness_desktop.Window.Lines.{complete_lines}

-- the read offset of a log file and its unterminated tail
pub record Log : Type 0 where
  pub pos : ℕ
  pub pending : Bytes

-- authUrl_ and the `last` of the function
pub record Seen : Type 0 where
  pub auth_url : Bytes
  pub last : Bytes

unfoldable pub strip_return : Bytes → Bytes
strip_return [] = []
strip_return (c ∷ []) = if c == b'\r' then [] else c ∷ []
strip_return (c ∷ d ∷ s) = c ∷ strip_return (d ∷ s)

-- the body of the loop behind its erase
unfoldable pub see_line : Bytes → Seen → Seen
unfolding strip_return starts_with
see_line line seen =
    let text = strip_return line in
    if is_empty text then seen else record {
      auth_url = if starts_with (codes "dsh web: ") text then drop 9 text else seen.auth_url;
      last = text;
    }

unfoldable pub see_lines : List Bytes → Seen → Seen
unfolding see_line
see_lines [] seen = seen
see_lines (l ∷ ls) seen = see_lines ls (see_line l seen)

-- The tail in front of a chunk: if both are longer than 8192 bytes, its last 4096.
unfoldable pub kept_pending : Bytes → ℕ → Bytes
kept_pending pending added =
    if ltb 8192 (length pending + added)
    then drop (if ltb 4096 (length pending) then length pending - 4096 else 0) pending
    else pending

-- The size that file_size returned, if it did, and the contents that were read behind it, if the file
-- was opened.
pub record LogFile : Type 0 where
  pub size : Option ℕ
  pub contents : Option Bytes

pub record Drained : Type 0 where
  pub grew : Bool
  pub log : Log
  pub seen : Seen

unfoldable pub take_chunk : ℕ → Bytes → Log → Seen → Drained
unfolding kept_pending complete_lines see_lines
take_chunk size chunk log seen =
    let r = complete_lines [] (kept_pending (log.pending) (length chunk) ++ chunk) in
    record { grew = true; log = record { pos = size; pending = r.1 }; seen = see_lines r.0 seen }

unfoldable pub read_log : ℕ → Option Bytes → Log → Seen → Drained
unfolding take_chunk
read_log size none log seen = record { grew = true; log = log; seen = seen }
read_log size (some contents) log seen = take_chunk size (drop (log.pos) contents) log seen

unfoldable pub drain_sized : Option ℕ → Option Bytes → Log → Seen → Drained
unfolding read_log
drain_sized none contents log seen = record { grew = false; log = log; seen = seen }
drain_sized (some size) contents log seen =
    if leb size (log.pos)
    then record {
      grew = false;
      log = if ltb size (log.pos) then record { pos = 0; pending = [] } else log;
      seen = seen;
    }
    else read_log size contents log seen

-- the function `drain`
unfoldable pub drain : LogFile → Log → Seen → Drained
unfolding drain_sized
drain file log seen = drain_sized (file.size) (file.contents) log seen

-- what stands behind the last line end or carriage return
unfoldable pub last_segment : Bytes → Bytes → Bytes
last_segment line [] = line
last_segment line (c ∷ s) =
    let fresh = last_segment [] s in
    let grown = last_segment (line ++ (c ∷ [])) s in
    if c == b'\n' || c == b'\r' then fresh else grown

unfoldable pub drop_breaks : Bytes → Bytes
drop_breaks [] = []
drop_breaks (c ∷ s) =
    let rest = drop_breaks s in if is_empty rest && (c == b'\n' || c == b'\r') then [] else c ∷ rest

-- The members that DrainServerLogs changes; `label` is the text of the log label, if it is shown.
pub record LogView : Type 0 where
  pub auth_url : Bytes
  pub out : Log
  pub err : Log
  pub label : Option Bytes

unfoldable pub latest_output : Bytes → Bytes → Bytes → Bytes
latest_output err_pending out_pending last =
    if not (is_empty err_pending)
    then err_pending
    else if not (is_empty out_pending)
    then out_pending
    else last

-- DrainServerLogs, for the two log files
unfoldable pub drain_server_logs : LogFile → LogFile → LogView → Bool × LogView
unfolding drain latest_output last_segment drop_breaks
drain_server_logs out_file err_file v =
    let first = drain out_file (v.out) (record { auth_url = v.auth_url; last = [] }) in
    let second = drain err_file (v.err) (first.seen) in
    let drained = record v { auth_url = second.seen.auth_url; out = first.log; err = second.log } in
    let last = latest_output (second.log.pending) (first.log.pending) (second.seen.last) in
    let text = drop_breaks (last_segment [] last) in
    if not (first.grew || second.grew)
    then (false, drained)
    else (true, if is_empty text then drained else record drained { label = some text })
