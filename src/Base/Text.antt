-- ===== src/Base/Text.antt =====
-- Byte strings (std::string) and the operations of the standard library that the program calls.
use Prim.Native.Nat.{ℕ, suc, ◌+◌}
use Prim.Native.Char.{code}
use Prim.Native.String.{String}
use mathlib.Core.Path.{◌≡◌, refl}
use mathlib.Core.Bool.{Bool, true, false, ◌&&◌}
use mathlib.Core.Logic.{◌↔◌}
use mathlib.Core.Option
use mathlib.Core.Option.{Option, none, some}
use mathlib.Core.List.{List, [], ◌∷◌}
use native.Mathlib.Omega.{arith}
use harness_desktop.Base.Tests.{◌==◌, if◌then◌else◌}
use harness_desktop.Base.Lists.{take, drop}

abbrev pub Bytes : Type 0
Bytes = List ℕ

-- The code points of a literal; these are its bytes when the text is ASCII.
abbrev pub codes : String → Bytes
codes String.[] = []
codes (String.◌∷◌ c s) = code c ∷ codes s

-- operator== of std::string
unfoldable pub bytes_eq : Bytes → Bytes → Bool
bytes_eq [] [] = true
bytes_eq [] (b ∷ t) = false
bytes_eq (a ∷ s) [] = false
bytes_eq (a ∷ s) (b ∷ t) = a == b && bytes_eq s t

pub bytes_eq_iff : (s t : Bytes) → (bytes_eq s t ≡ true) ↔ (s ≡ t)
unfolding bytes_eq
bytes_eq_iff [] [] = (λ _. refl, λ _. refl)
bytes_eq_iff [] (b ∷ t) = (λ h. cc, λ h. cc)
bytes_eq_iff (a ∷ s) [] = (λ h. cc, λ h. cc)
bytes_eq_iff (a ∷ s) (b ∷ t) =
    let ih = bytes_eq_iff s t in (λ h. ground (arith, ih), λ h. ground (arith, ih))

pub bytes_eq_self : (s : Bytes) → bytes_eq s s ≡ true
bytes_eq_self s = (bytes_eq_iff s s).1 refl

-- s.empty()
abbrev pub is_empty : Bytes → Bool
is_empty [] = true
is_empty (c ∷ s) = false

-- s.rfind(p, 0) == 0, s.compare(0, p.size(), p) == 0
unfoldable pub starts_with : Bytes → Bytes → Bool
starts_with [] s = true
starts_with (b ∷ p) [] = false
starts_with (b ∷ p) (c ∷ s) = b == c && starts_with p s

-- s.find(p): the first position at which `p` stands; none is npos.
unfoldable pub find? : Bytes → Bytes → Option ℕ
unfolding starts_with
find? p [] = if is_empty p then some 0 else none
find? p (c ∷ s) =
    let later = Option.map suc (find? p s) in if starts_with p (c ∷ s) then some 0 else later

-- s.find(p, pos), for pos at most the length
unfoldable pub find_from? : Bytes → ℕ → Bytes → Option ℕ
unfolding find?
find_from? p pos s = Option.map (λ i. pos + i) (find? p (drop pos s))

-- s.substr(pos, n)
abbrev pub substr : ℕ → ℕ → Bytes → Bytes
substr pos n s = take n (drop pos s)

-- s.find(p) != npos
unfoldable pub contains : Bytes → Bytes → Bool
unfolding find?
contains p s = elim (find? p s) [ none ↦ false | some i ↦ true ]
