-- ===== src/Window/Growth.antt =====
-- When a draining of the logs finds output (DrainServerLogs, linux/src/main_window.cpp).
use harness_desktop.Base.{
  ℕ, ◌≡◌, refl, ◌∙◌, Bool, true, false, not, ◌||◌, Option, none, some, Bytes, leb, ltb,
  if◌then◌else◌, Bool-cases, [], inl, inr, arith,
}
use harness_desktop.Window.Logs.{
  Log, LogFile, Seen, drain, drain_sized, read_log, take_chunk, drain_server_logs,
}
use harness_desktop.Window.Polling.{PollState, Tick}

-- A log file is longer than what was read of it.
abbrev pub has_output : LogFile → Log → Bool
has_output file log = elim (file.size) [ none ↦ false | some n ↦ ltb (log.pos) n ]

grew-read_log :
    (size : ℕ) (contents : Option Bytes) (log : Log) (seen : Seen)
    → (read_log size contents log seen).grew ≡ true
unfolding read_log take_chunk
grew-read_log size none log seen = refl
grew-read_log size (some s) log seen = refl

grew-drain_sized :
    (size : Option ℕ) (contents : Option Bytes) (log : Log) (seen : Seen)
    → (drain_sized size contents log seen).grew
      ≡ has_output (record { size = size; contents = contents }) log
unfolding drain_sized
grew-drain_sized none contents log seen = refl
grew-drain_sized (some size) contents log seen = elim (Bool-cases (leb size (log.pos))) [
  | inl e ↦ let short : ltb (log.pos) size ≡ false = ground arith in rw (e, short) refl
  | inr e ↦
      let long : ltb (log.pos) size ≡ true = ground arith in
      rw (e, long) (grew-read_log size contents log seen)
]

grew-drain :
    (file : LogFile) (log : Log) (seen : Seen) → (drain file log seen).grew ≡ has_output file log
unfolding drain
grew-drain file log seen = grew-drain_sized (file.size) (file.contents) log seen

if-grew :
    {A : Type 0} (b : Bool) (x y : Bool × A)
    → x.0 ≡ false
    → y.0 ≡ true
    → (if not b then x else y).0 ≡ b
if-grew true x y h k = k
if-grew false x y h k = h

pub grew-drain_server_logs :
    (t : Tick) (s : PollState)
    → (drain_server_logs (t.out_file) (t.err_file) (s.logs)).0
      ≡ has_output (t.out_file) (s.logs.out) || has_output (t.err_file) (s.logs.err)
unfolding drain_server_logs
grew-drain_server_logs t s =
    let start : Seen = record { auth_url = s.logs.auth_url; last = [] } in
    let first = drain (t.out_file) (s.logs.out) start in
    let second = drain (t.err_file) (s.logs.err) (first.seen) in
    if-grew (first.grew || second.grew) _ _ refl refl ∙ (λ i.
      grew-drain (t.out_file) (s.logs.out) start i
      || grew-drain (t.err_file) (s.logs.err) (first.seen) i)
