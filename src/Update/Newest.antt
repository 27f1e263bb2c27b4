-- ===== src/Update/Newest.antt =====
-- Which installation LocalVersion (linux/src/update_manager.cpp) chooses.
use harness_desktop.Base.{
  ℕ, ◌≤◌, ◌<◌, ◌≡◌, refl, false, List, [], ◌∷◌, none, some, Bytes, is_empty, leb, if◌then◌else◌,
  Bool-cases, Option-cases, inl, inr, arith,
}
use harness_desktop.Update.{Package, newest, extract_version}

-- The package is there and has a version, with this modification time.
pub record IsCandidate (p : Package) (mtime : ℕ) : Type 0 where
  pub there : p.mtime ≡ some mtime
  pub versioned : is_empty (extract_version (p.text)) ≡ false

-- `p` is in the list, and no candidate of the list is newer than `mtime`.
pub data IsIn (p : Package) : List Package → Type 0 where
  here : {ps : List Package} → IsIn p (p ∷ ps)
  later : {q : Package} {ps : List Package} → IsIn p ps → IsIn p (q ∷ ps)

abbrev pub NoneNewer : ℕ → List Package → Type 0
NoneNewer mtime ps = (q : Package) (t : ℕ) → IsIn q ps → IsCandidate q t → t ≤ mtime

-- What the loop returns: the version of a candidate that none is newer than, or the version that it
-- started with when each candidate is older.
pub data Newest (best : ℕ) (version : Bytes) (ps : List Package) : Bytes → Type 0 where
  chosen :
      (p : Package) (mtime : ℕ)
      → IsIn p ps
      → IsCandidate p mtime
      → best ≤ mtime
      → NoneNewer mtime ps
      → Newest best version ps (extract_version (p.text))
  unchanged :
      ((q : Package) (t : ℕ) → IsIn q ps → IsCandidate q t → t < best)
      → Newest best version ps version

Newest-skip :
    (best : ℕ) (version : Bytes) (p : Package) (ps : List Package) {r : Bytes}
    → ((t : ℕ) → IsCandidate p t → t < best)
    → Newest best version ps r
    → Newest best version (p ∷ ps) r
Newest-skip best version p ps h (chosen q t i c le top) = chosen q t (later i) c le (all p h)
  where
    all : (p : Package) → ((t : ℕ) → IsCandidate p t → t < best) → NoneNewer t (p ∷ ps)
    all p h q' t' here c' = let l = h t' c' in omega arith
    all p h q' t' (later i') c' = top q' t' i' c'
Newest-skip best version p ps h (unchanged older) = unchanged all
  where
    all : (q : Package) (t : ℕ) → IsIn q (p ∷ ps) → IsCandidate q t → t < best
    all q t here c = h t c
    all q t (later i) c = older q t i c

candidate_mtime : {p : Package} {s t : ℕ} → IsCandidate p s → p.mtime ≡ some t → s ≡ t
candidate_mtime c e = let there = c.there in cc

Newest-take :
    (best m : ℕ) (version : Bytes) (p : Package) (ps : List Package) {r : Bytes}
    → IsCandidate p m
    → best ≤ m
    → Newest m (extract_version (p.text)) ps r
    → Newest best version (p ∷ ps) r
Newest-take best m version p ps cp b (chosen q t i c le top) =
    chosen q t (later i) c (omega arith) all
  where
    all : NoneNewer t (p ∷ ps)
    all q' t' here c' = let e = candidate_mtime c' (cp.there) in omega arith
    all q' t' (later i') c' = top q' t' i' c'
Newest-take best m version p ps cp b (unchanged older) = chosen p m here cp b all
  where
    all : NoneNewer m (p ∷ ps)
    all q' t' here c' = let e = candidate_mtime c' (cp.there) in omega arith
    all q' t' (later i') c' = let l = older q' t' i' c' in omega arith

no_member : {q : Package} (t best : ℕ) → IsIn q [] → t < best
no_member t best i = elim i [ ]

newest-there :
    (best m : ℕ) (version : Bytes) (p : Package) (ps : List Package)
    → p.mtime ≡ some m
    → newest best version (p ∷ ps) ≡ (
        if is_empty (extract_version (p.text))
        then newest best version ps
        else if leb best m
        then newest m (extract_version (p.text)) ps
        else newest best version ps)
unfolding newest
newest-there best m version p ps e = rw e refl

newest-missing :
    (best : ℕ) (version : Bytes) (p : Package) (ps : List Package)
    → p.mtime ≡ none
    → newest best version (p ∷ ps) ≡ newest best version ps
unfolding newest
newest-missing best version p ps e = rw e refl

-- The loop of LocalVersion returns the version of a package that is there, has a version and is not
-- older than `best` and than any other such package, or, when all of them are older than `best`, the
-- version that it started with.
pub Newest-newest :
    (best : ℕ) (version : Bytes) (ps : List Package)
    → Newest best version ps (newest best version ps)
Newest-newest best version [] = unfold newest in unchanged (λ q t i c. no_member t best i)
Newest-newest best version (p ∷ ps) =
    let others = Newest-newest best version ps in
    elim (Option-cases (p.mtime)) [
      | inl e ↦
          rw (newest-missing best version p ps e)
            (Newest-skip best version p ps (λ t c. let there = c.there in cc) others)
      | inr (m, e) ↦
          rw (newest-there best m version p ps e)
            (elim (Bool-cases (is_empty (extract_version (p.text)))) [
              | inl v ↦
                  rw v (
                    Newest-skip best version p ps (λ t c. let versioned = c.versioned in cc) others)
              | inr v ↦ rw v (elim (Bool-cases (leb best m)) [
                | inl l ↦ rw l (
                    Newest-take best m version p ps (record { there = e; versioned = v })
                      (ground arith) (Newest-newest m (extract_version (p.text)) ps))
                | inr l ↦ rw l (
                    Newest-skip best version p ps
                      (λ t c. let same = candidate_mtime c e in ground arith) others)
              ])
            ])
    ]
