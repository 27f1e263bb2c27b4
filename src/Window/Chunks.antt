-- ===== src/Window/Chunks.antt =====
-- The draining of a log in several polls (linux/src/main_window.cpp).
use harness_desktop.Base.{
  ℕ, ◌+◌, ◌≤◌, ◌<◌, ◌≡◌, refl, sym, subst, ap, ◌∙◌, true, false, List, [], ◌∷◌, ◌++◌, Option, none,
  some, Bytes, is_empty, starts_with, codes, drop, if◌then◌else◌, length, leb, append_assoc,
  length-append, Bool-cases, inl, inr, ◌==◌, arith,
}
use harness_desktop.Base.Find.{drop_self}
use harness_desktop.Window.Lines.{complete_lines, complete_lines-regrouped}
use harness_desktop.Window.Logs.{
  Log, Seen, strip_return, see_line, see_lines, kept_pending, LogFile, Drained, take_chunk,
  read_log, drain_sized, drain,
}

see_lines-append :
    (ls ms : List Bytes) (seen : Seen)
    → see_lines (ls ++ ms) seen ≡ see_lines ms (see_lines ls seen)
unfolding see_lines
see_lines-append [] ms seen = refl
see_lines-append (l ∷ ls) ms seen = see_lines-append ls ms (see_line l seen)

kept_pending-short :
    (pending : Bytes) (added : ℕ)
    → length pending + added ≤ 8192
    → kept_pending pending added ≡ pending
unfolding kept_pending
kept_pending-short pending added h = ground arith

length-complete_lines : (line s : Bytes) → length (complete_lines line s).1 ≤ length line + length s
unfolding complete_lines
length-complete_lines line [] = omega arith
length-complete_lines line (c ∷ s) = elim (Bool-cases (c == b'\n')) [
  | inl e ↦ rw e (omega (arith, length-complete_lines [] s))
  | inr e ↦
      rw e
        (omega (arith, length-complete_lines (line ++ (c ∷ [])) s, length-append {0} line (c ∷ [])))
]

abbrev drained_of : ℕ → List Bytes × Bytes → Seen → Drained
drained_of size r seen = record {
  grew = true;
  log = record { pos = size; pending = r.1 };
  seen = see_lines r.0 seen;
}

take_chunk-short :
    (size : ℕ) (chunk : Bytes) (log : Log) (seen : Seen)
    → length (log.pending) + length chunk ≤ 8192
    → take_chunk size chunk log seen
      ≡ drained_of size (complete_lines [] (log.pending ++ chunk)) seen
unfolding take_chunk
take_chunk-short size chunk log seen h =
    ap (λ kept. drained_of size (complete_lines [] (kept ++ chunk)) seen)
      (kept_pending-short (log.pending) (length chunk) h)

take_chunk-append :
    (m n : ℕ) (a b : Bytes) (log : Log) (seen : Seen)
    → length (log.pending) + (length a + length b) ≤ 8192
    → take_chunk n b (take_chunk m a log seen).log (take_chunk m a log seen).seen
      ≡ take_chunk n (a ++ b) log seen
take_chunk-append m n a b log seen h =
    let r = complete_lines [] (log.pending ++ a) in
    let first = take_chunk-short m a log seen (omega arith) in
    let left = length-complete_lines [] (log.pending ++ a) in
    let whole = length-append (log.pending) a in
    let both = length-append a b in
    let rest = complete_lines [] (r.1 ++ b) in
    ap (λ (d : Drained). take_chunk n b (d.log) (d.seen)) first
    ∙ (take_chunk-short n b (record { pos = m; pending = r.1 }) (see_lines r.0 seen) (omega arith)
        ∙ (ap (λ s. record { grew = true; log = record { pos = n; pending = rest.1 }; seen = s })
              (sym (see_lines-append r.0 rest.0 seen))
            ∙ (ap (λ x. drained_of n x seen) (sym (complete_lines-regrouped (log.pending ++ a) b))
                ∙ (ap (λ x. drained_of n (complete_lines [] x) seen)
                      (append_assoc (log.pending) a b)
                    ∙ sym (take_chunk-short n (a ++ b) log seen (omega arith))))))

abbrev pub file_of : Bytes → LogFile
file_of contents = record { size = some (length contents); contents = some contents }

abbrev pub read_up_to : Bytes → Bytes → Log
read_up_to before pending = record { pos = length before; pending = pending }

drain-grown :
    (before a pending : Bytes) (seen : Seen)
    → 0 < length a
    → drain (file_of (before ++ a)) (read_up_to before pending) seen
      ≡ take_chunk (length (before ++ a)) a (read_up_to before pending) seen
unfolding drain drain_sized read_log
drain-grown before a pending seen h =
    let longer : leb (length (before ++ a)) (length before) ≡ false =
      ground (arith, length-append {0} before a) in
    rw longer (
      ap (λ x. take_chunk (length (before ++ a)) x (read_up_to before pending) seen)
        (drop_self before a))

log-take_chunk :
    (size : ℕ) (chunk : Bytes) (log : Log) (seen : Seen)
    → (take_chunk size chunk log seen).log
      ≡ record { pos = size; pending = (take_chunk size chunk log seen).log.pending }
unfolding take_chunk
log-take_chunk size chunk log seen = refl

-- the second drain with the last line of the first one
drain_in_parts :
    (before a b pending : Bytes) (seen : Seen)
    → 0 < length a
    → 0 < length b
    → length pending + (length a + length b) ≤ 8192
    → drain
        (file_of (before ++ (a ++ b)))
        (drain (file_of (before ++ a)) (read_up_to before pending) seen).log
        (drain (file_of (before ++ a)) (read_up_to before pending) seen).seen
      ≡ drain (file_of (before ++ (a ++ b))) (read_up_to before pending) seen
drain_in_parts before a b pending seen ha hb h =
    let log = read_up_to before pending in
    let size = length (before ++ a) in
    let d = take_chunk size a log seen in
    let all = length (before ++ (a ++ b)) in
    let regroup = append_assoc before a b in
    let first = drain-grown before a pending seen ha in
    ap (λ (x : Drained). drain (file_of (before ++ (a ++ b))) (x.log) (x.seen)) first
    ∙ (ap (λ l. drain (file_of (before ++ (a ++ b))) l (d.seen)) (log-take_chunk size a log seen)
        ∙ (ap (λ x. drain (file_of x) (read_up_to (before ++ a) (d.log.pending)) (d.seen))
              (sym regroup)
            ∙ (drain-grown (before ++ a) b (d.log.pending) (d.seen) hb
                ∙ (ap
                      (λ x.
                        take_chunk (length x) b (read_up_to (before ++ a) (d.log.pending)) (d.seen))
                      regroup
                    ∙ (ap (λ l. take_chunk all b l (d.seen)) (sym (log-take_chunk size a log seen))
                        ∙ (take_chunk-append size all a b log seen h
                            ∙ sym (
                                drain-grown before (a ++ b) pending seen
                                  (omega (arith, length-append {0} a b)))))))))

abbrev seen_of : Bytes → Bytes → Seen
seen_of auth_url last = record { auth_url = auth_url; last = last }

auth_url-see_line :
    (line : Bytes) (seen seen' : Seen)
    → seen.auth_url ≡ seen'.auth_url
    → (see_line line seen).auth_url ≡ (see_line line seen').auth_url
unfolding see_line
auth_url-see_line line seen seen' h = elim (Bool-cases (is_empty (strip_return line))) [
  | inl e ↦ rw (e, see_line) h
  | inr e ↦
      rw (e, see_line)
        (ap
          (λ (a : Bytes).
            if starts_with (codes "dsh web: ") (strip_return line)
            then drop 9 (strip_return line)
            else a)
          h)
]

-- The last line of a drain has no influence on the address.
auth_url-see_lines :
    (ls : List Bytes) (seen seen' : Seen)
    → seen.auth_url ≡ seen'.auth_url
    → (see_lines ls seen).auth_url ≡ (see_lines ls seen').auth_url
unfolding see_lines
auth_url-see_lines [] seen seen' h = h
auth_url-see_lines (line ∷ ls) seen seen' h =
    auth_url-see_lines ls (see_line line seen) (see_line line seen')
      (auth_url-see_line line seen seen' h)

-- Two drains that differ in their last lines only.
abbrev pub Alike : Drained → Drained → Type 0
Alike d e = (d.grew ≡ e.grew) × (d.log ≡ e.log) × (d.seen.auth_url ≡ e.seen.auth_url)

Alike-read_log :
    (size : ℕ) (contents : Option Bytes) (log : Log) (auth_url l l' : Bytes)
    → Alike
        (read_log size contents log (seen_of auth_url l))
        (read_log size contents log (seen_of auth_url l'))
unfolding read_log take_chunk
Alike-read_log size none log auth_url l l' = (refl, refl, refl)
Alike-read_log size (some s) log auth_url l l' =
    let chunk = drop (log.pos) s in
    (
      refl,
      refl,
      auth_url-see_lines (complete_lines [] (kept_pending (log.pending) (length chunk) ++ chunk)).0
          (seen_of auth_url l) (seen_of auth_url l') refl,
    )

Alike-drain_sized :
    (size : Option ℕ) (contents : Option Bytes) (log : Log) (auth_url l l' : Bytes)
    → Alike
        (drain_sized size contents log (seen_of auth_url l))
        (drain_sized size contents log (seen_of auth_url l'))
unfolding drain_sized
Alike-drain_sized none contents log auth_url l l' = (refl, refl, refl)
Alike-drain_sized (some size) contents log auth_url l l' = elim (Bool-cases (leb size (log.pos))) [
  | inl e ↦ rw e (refl, refl, refl)
  | inr e ↦ rw e (Alike-read_log size contents log auth_url l l')
]

-- A log that grows by two parts and is drained behind each leaves the same tail, position and address as
-- one that is drained once behind both, whatever the last line was when the second drain began, if the
-- tail and the parts have at most 8192 bytes together and neither part is empty.
pub drain-drain :
    (before a b pending last : Bytes) (seen : Seen)
    → 0 < length a
    → 0 < length b
    → length pending + (length a + length b) ≤ 8192
    → let first = drain (file_of (before ++ a)) (read_up_to before pending) seen in
      Alike
        (drain
          (file_of (before ++ (a ++ b)))
          (first.log)
          (record { auth_url = first.seen.auth_url; last = last }))
        (drain (file_of (before ++ (a ++ b))) (read_up_to before pending) seen)
unfolding drain
drain-drain before a b pending last seen ha hb h =
    let first = drain (file_of (before ++ a)) (read_up_to before pending) seen in
    subst
      (Alike (
        drain (file_of (before ++ (a ++ b))) (first.log)
          (record { auth_url = first.seen.auth_url; last = last })))
      (drain_in_parts before a b pending seen ha hb h)
      (Alike-drain_sized (some (length (before ++ (a ++ b)))) (some (before ++ (a ++ b)))
        (first.log) (first.seen.auth_url) last (first.seen.last))
