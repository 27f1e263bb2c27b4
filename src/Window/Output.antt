-- ===== src/Window/Output.antt =====
-- The output of the bridge in chunks (linux/src/main_window.cpp).
use harness_desktop.Base.{
  ◌≡◌, refl, sym, ap, ◌∙◌, Bool, true, false, not, ◌&&◌, ◌==◌, List, [], ◌∷◌, ◌++◌, Bytes,
  append_assoc, is_empty, bytes_eq, codes, ltb, if-ap, arith,
}
use harness_desktop.Window.Lines.{complete_lines, complete_lines-regrouped}
use harness_desktop.Window.Bridge.{
  Bridge, Effect, shows_pairing, field_of, register, keep_token, on_line, and_then, on_lines,
  c_string, on_bridge_output,
}

on_lines-append :
    (pin : Bytes) (ls ms : List Bytes) (b : Bridge)
    → on_lines pin (ls ++ ms) b ≡ and_then (on_lines pin ls b) (on_lines pin ms)
unfolding on_lines
on_lines-append pin [] ms b = refl
on_lines-append pin (l ∷ ls) ms b =
    let first = on_line pin l b in
    let ih = on_lines-append pin ls ms first.0 in
    ap (λ (r : Bridge × List Effect). (r.0, first.1 ++ r.1)) ih ∙ (λ i. (
      (on_lines pin ms (on_lines pin ls first.0).0).0,
      sym
          (append_assoc first.1 (on_lines pin ls first.0).1
            (on_lines pin ms (on_lines pin ls first.0).0).1)
          i,
    ))

abbrev pub has_no_null : Bytes → Bool
has_no_null [] = true
has_no_null (c ∷ s) = not (c == 0) && has_no_null s

c_string_whole : (s : Bytes) → has_no_null s ≡ true → c_string s ≡ s
unfolding c_string
c_string_whole [] h = refl
c_string_whole (c ∷ s) h =
    let e : (c == 0) ≡ false = ground arith in
    let rest = c_string_whole s (ground arith) in rw (e, rest) refl

c_string-append : (s t : Bytes) → has_no_null s ≡ true → c_string (s ++ t) ≡ s ++ c_string t
unfolding c_string
c_string-append [] t h = refl
c_string-append (c ∷ s) t h =
    let e : (c == 0) ≡ false = ground arith in
    let rest = c_string-append s t (ground arith) in rw (e, rest) refl

-- the buffer set aside: no line changes it
abbrev set_buffer : Bytes → Bridge → Bridge
set_buffer s b = record b { buffer = s }

abbrev put_buffer : Bytes → Bridge × List Effect → Bridge × List Effect
put_buffer s r = (set_buffer s r.0, r.1)

set_buffer-register :
    (s : Bytes) (b : Bridge) → register (set_buffer s b) ≡ set_buffer s (register b)
unfolding register
set_buffer-register s b = if-ap (set_buffer s) (ltb 0 (b.timeout_id)) refl refl

set_buffer-keep_token :
    (s token : Bytes) (b : Bridge)
    → keep_token token (set_buffer s b) ≡ set_buffer s (keep_token token b)
unfolding keep_token
set_buffer-keep_token s token b = if-ap (set_buffer s) (not (is_empty token)) refl refl

set_buffer-on_line :
    (pin l s : Bytes) (b : Bridge) → on_line pin l (set_buffer s b) ≡ put_buffer s (on_line pin l b)
unfolding on_line
set_buffer-on_line pin l s b =
    let event = field_of l (codes "event") in
    let token = field_of l (codes "hostToken") in
    let ready = set_buffer-register s b in
    if-ap (put_buffer s) (is_empty l) refl (
      if-ap (put_buffer s) (bytes_eq event (codes "registered"))
        (λ i. (
          (ap (keep_token token) ready ∙ set_buffer-keep_token s token (register b)) i,
          shows_pairing (field_of l (codes "pin")) (b.device_id) (b.qr_png) ∷ [],
        ))
        (if-ap (put_buffer s) (bytes_eq event (codes "online"))
          (λ i. (ready i, shows_pairing pin (b.device_id) (b.qr_png) ∷ [])) refl))

set_buffer-on_lines :
    (pin : Bytes) (ls : List Bytes) (s : Bytes) (b : Bridge)
    → on_lines pin ls (set_buffer s b) ≡ put_buffer s (on_lines pin ls b)
unfolding on_lines
set_buffer-on_lines pin [] s b = refl
set_buffer-on_lines pin (l ∷ ls) s b =
    let first = on_line pin l b in
    let Rest : Bridge × List Effect → Bridge × List Effect =
      λ r. ((on_lines pin ls r.0).0, r.1 ++ (on_lines pin ls r.0).1) in
    ap Rest (set_buffer-on_line pin l s b)
    ∙ ap (λ (r : Bridge × List Effect). (r.0, first.1 ++ r.1))
        (set_buffer-on_lines pin ls s first.0)

on_lines-behind :
    (pin : Bytes) (ls : List Bytes) (x : List Bytes × Bytes) (b : Bridge)
    → on_lines pin (ls ++ x.0) (set_buffer x.1 b)
      ≡ and_then (on_lines pin ls b) (λ c. on_lines pin x.0 (set_buffer x.1 c))
on_lines-behind pin ls x b =
    on_lines-append pin ls x.0 (set_buffer x.1 b)
    ∙ ap (λ r. and_then r (on_lines pin x.0)) (set_buffer-on_lines pin ls x.1 b)

-- The events of the bridge's output do not depend on how it is cut into chunks: two chunks have the
-- effects and leave the state of one that holds both, if the first has no null byte.
pub on_bridge_output-append :
    (pin a c : Bytes) (b : Bridge)
    → has_no_null a ≡ true
    → on_bridge_output pin (a ++ c) b ≡ and_then (on_bridge_output pin a b) (on_bridge_output pin c)
unfolding on_bridge_output
on_bridge_output-append pin a c b h =
    let tail = c_string c in
    let r = complete_lines [] (b.buffer ++ a) in
    let Lines : List Bytes × Bytes → Bridge → Bridge × List Effect =
      λ x d. on_lines pin x.0 (set_buffer x.1 d) in
    let x = complete_lines [] (r.1 ++ tail) in
    let first = on_lines pin r.0 b in
    let whole =
      ap (λ s. Lines (complete_lines [] (b.buffer ++ s)) b) (c_string-append a c h)
      ∙ (ap (λ s. Lines (complete_lines [] s) b) (sym (append_assoc (b.buffer) a tail))
          ∙ (ap (λ y. Lines y b) (complete_lines-regrouped (b.buffer ++ a) tail)
              ∙ on_lines-behind pin r.0 x b)) in
    let Second : Bridge → Bridge × List Effect =
      λ d. Lines (complete_lines [] (d.buffer ++ tail)) d in
    let parts =
      ap (λ s. and_then (Lines (complete_lines [] (b.buffer ++ s)) b) Second) (c_string_whole a h)
      ∙ ap (λ y. and_then y Second) (set_buffer-on_lines pin r.0 r.1 b) in
    whole ∙ sym parts
