-- ===== src/Settings/Words.antt =====
-- SplitWhitespace (linux/src/settings.cpp).
use harness_desktop.Base.{
  ◌≡◌, refl, ◌∙◌, sym, false, List, [], ◌∷◌, ◌++◌, Bytes, if◌then◌else◌, All, All-append,
  Bool-cases, inl, inr, append_assoc, append-nil,
}
use harness_desktop.Settings.{is_blank, flush, split_from, split_whitespace}

-- A word: at least one byte, and no blank.
abbrev pub IsWord : Bytes → Type 0
IsWord [] = ⊥
IsWord (c ∷ s) = All (λ d. is_blank d ≡ false) (c ∷ s)

abbrev pub HasNoBlank : Bytes → Type 0
HasNoBlank = All (λ d. is_blank d ≡ false)

-- The text without its blanks, and the words put together.
abbrev pub without_blanks : Bytes → Bytes
without_blanks [] = []
without_blanks (c ∷ s) = if is_blank c then without_blanks s else c ∷ without_blanks s

abbrev pub joined : List Bytes → Bytes
joined [] = []
joined (w ∷ ws) = w ++ joined ws

joined-append : (vs ws : List Bytes) → joined (vs ++ ws) ≡ joined vs ++ joined ws
joined-append [] ws = refl
joined-append (v ∷ vs) ws = rw (joined-append vs ws) (sym (append_assoc v (joined vs) (joined ws)))

joined-flush : (cur : Bytes) (out : List Bytes) → joined (flush cur out) ≡ joined out ++ cur
joined-flush [] out = sym (append-nil (joined out))
joined-flush (c ∷ cur) out = simp (joined-append, append-nil)

joined-split_from :
    (s cur : Bytes) (out : List Bytes)
    → joined (split_from cur out s) ≡ joined out ++ (cur ++ without_blanks s)
unfolding split_from
joined-split_from [] cur out = rw append-nil (joined-flush cur out)
joined-split_from (c ∷ s) cur out = elim (Bool-cases (is_blank c)) [
  | inl e ↦ rw e (
      joined-split_from s [] (flush cur out)
      ∙ (rw (joined-flush cur out) (append_assoc (joined out) cur (without_blanks s))))
  | inr e ↦ rw e (joined-split_from s (cur ++ (c ∷ [])) out ∙ simp append_assoc)
]

IsWord-flush :
    (cur : Bytes) (out : List Bytes) → HasNoBlank cur → All IsWord out → All IsWord (flush cur out)
IsWord-flush [] out h hs = hs
IsWord-flush (c ∷ cur) out h hs = All-append IsWord out _ hs (h, tt)

IsWord-split_from :
    (s cur : Bytes) (out : List Bytes)
    → HasNoBlank cur
    → All IsWord out
    → All IsWord (split_from cur out s)
unfolding split_from
IsWord-split_from [] cur out h hs = IsWord-flush cur out h hs
IsWord-split_from (c ∷ s) cur out h hs = elim (Bool-cases (is_blank c)) [
  | inl e ↦ rw e (IsWord-split_from s [] (flush cur out) tt (IsWord-flush cur out h hs))
  | inr e ↦
      rw e (IsWord-split_from s (cur ++ (c ∷ [])) out (All-append _ cur (c ∷ []) h (e, tt)) hs)
]

-- Every part of a split is a word, and the words put together are the text without its blanks.
pub split_whitespace_sound :
    (s : Bytes) → All IsWord (split_whitespace s) × (joined (split_whitespace s) ≡ without_blanks s)
unfolding split_whitespace
split_whitespace_sound s = (IsWord-split_from s [] [] tt tt, joined-split_from s [] [])

-- Words with one blank between two of them, as a command line is written.
abbrev pub spaced_behind : List Bytes → Bytes
spaced_behind [] = []
spaced_behind (w ∷ ws) = b' ' ∷ (w ++ spaced_behind ws)

abbrev pub spaced : List Bytes → Bytes
spaced [] = []
spaced (w ∷ ws) = w ++ spaced_behind ws

split_from-word :
    (w cur : Bytes) (out : List Bytes) (s : Bytes)
    → HasNoBlank w
    → split_from cur out (w ++ s) ≡ split_from (cur ++ w) out s
unfolding split_from
split_from-word [] cur out s h = rw append-nil
split_from-word (c ∷ w) cur out s (hc, h) =
    rw hc (split_from-word w (cur ++ (c ∷ [])) out s h ∙ simp append_assoc)

flush-word : (w : Bytes) (out : List Bytes) → IsWord w → flush w out ≡ out ++ (w ∷ [])
flush-word [] out h = absurd h
flush-word (c ∷ w) out h = refl

HasNoBlank-word : (w : Bytes) → IsWord w → HasNoBlank w
HasNoBlank-word [] h = absurd h
HasNoBlank-word (c ∷ w) h = h

split_from-spaced :
    (ws : List Bytes) (w : Bytes) (out : List Bytes)
    → IsWord w
    → All IsWord ws
    → split_from w out (spaced_behind ws) ≡ out ++ (w ∷ ws)
split_from-spaced [] w out h hs = unfold split_from in flush-word w out h
split_from-spaced (v ∷ ws) w out h (hv, hs) =
    split_from_blank w out (v ++ spaced_behind ws)
    ∙ (split_from-word v [] (flush w out) (spaced_behind ws) (HasNoBlank-word v hv)
        ∙ (split_from-spaced ws v (flush w out) hv hs
            ∙ rw (flush-word w out h) (append_assoc out (w ∷ []) (v ∷ ws))))
  where
    split_from_blank :
        (cur : Bytes) (out : List Bytes) (s : Bytes)
        → split_from cur out (b' ' ∷ s) ≡ split_from [] (flush cur out) s
    split_from_blank cur out s = unfold split_from in refl

-- Words with one blank between them are split into the same words.
pub split_whitespace-spaced : (ws : List Bytes) → All IsWord ws → split_whitespace (spaced ws) ≡ ws
unfolding split_whitespace
split_whitespace-spaced [] h = refl
split_whitespace-spaced (w ∷ ws) (hw, h) =
    split_from-word w [] [] (spaced_behind ws) (HasNoBlank-word w hw)
    ∙ split_from-spaced ws w [] hw h
