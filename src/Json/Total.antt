-- ===== src/Json/Total.antt =====
-- Parse (linux/src/json.cpp) on any text: it ends within the fuel handed out, and the objects of a
-- value that it returns have no key twice.
use harness_desktop.Base.{ℕ, zero, suc, ◌+◌, ◌*◌, ◌<◌, [], ◌∷◌, Bytes, length, arith}
use harness_desktop.Base.Outcome.{ok, failed, Ends, holds, rejected, Ends-bind}
use harness_desktop.Json.Value.{Value, Items, Members, object, no_items, no_members}
use harness_desktop.Json.Scan.{skip_ws}
use harness_desktop.Json.Parser.{
  parse_value, parse_object, object_loop, parse_array, array_loop, finish_parse, parse,
}
use harness_desktop.Json.WellFormed.{IsWellFormed, AreWellFormed, Reads}
use harness_desktop.Json.Rounds.{
  IsWellFormed-nil, Ends-value_step, Ends-object_step, Ends-object_round, Ends-array_step,
  Ends-array_round,
}

module _ {D : Type 0} (strtod : Bytes → D) where
  mutual
    Ends-parse_value :
        (f : ℕ) (s : Bytes) → 3 * length s < f → Ends (Reads (length s)) (parse_value strtod f s)
    Ends-parse_value zero s h = absurd (omega arith)
    Ends-parse_value (suc f) s h =
        Ends-value_step strtod f s (λ r l. Ends-parse_object f r (omega arith))
          (λ r l. Ends-parse_array f r (omega arith))

    Ends-parse_object :
        (f : ℕ) (s : Bytes)
        → 3 * length s + 2 < f
        → Ends (Reads (length s)) (parse_object strtod f s)
    Ends-parse_object zero s h = absurd (omega arith)
    Ends-parse_object (suc f) s h =
        Ends-object_step strtod f s
          λ t l. Ends-object_loop f no_members t (IsWellFormed-nil D) (omega arith)

    Ends-object_loop :
        (f : ℕ) (obj : Members D) (s : Bytes)
        → IsWellFormed (object obj)
        → 3 * length s + 1 < f
        → Ends (Reads (length s)) (object_loop strtod f obj s)
    Ends-object_loop zero obj s w h = absurd (omega arith)
    Ends-object_loop (suc f) obj s w h =
        Ends-object_round strtod f obj s w (λ t l. Ends-parse_value f t (omega arith))
          λ ms t wms l. Ends-object_loop f ms t wms (omega arith)

    Ends-parse_array :
        (f : ℕ) (s : Bytes)
        → 3 * length s + 2 < f
        → Ends (Reads (length s)) (parse_array strtod f s)
    Ends-parse_array zero s h = absurd (omega arith)
    Ends-parse_array (suc f) s h =
        Ends-array_step strtod f s λ t l. Ends-array_loop f no_items t tt (omega arith)

    Ends-array_loop :
        (f : ℕ) (arr : Items D) (s : Bytes)
        → AreWellFormed arr
        → 3 * length s + 1 < f
        → Ends (Reads (length s)) (array_loop strtod f arr s)
    Ends-array_loop zero arr s w h = absurd (omega arith)
    Ends-array_loop (suc f) arr s w h =
        Ends-array_round strtod f arr s w (Ends-parse_value f s (omega arith))
          λ xs t wxs l. Ends-array_loop f xs t wxs (omega arith)

  Ends-finish_parse :
      (v : Value D) (rest : Bytes) → IsWellFormed v → Ends IsWellFormed (finish_parse strtod v rest)
  unfolding finish_parse
  Ends-finish_parse v rest w =
      elim (skip_ws rest) as (λ t. Ends IsWellFormed (elim t [ [] ↦ ok v | _ ∷ _ ↦ failed ])) [
        | [] ↦ holds w
        | c ∷ t ↦ rejected
      ]

  -- On every text Parse either fails or returns a value in which no object has a key twice; the fuel
  -- that it is given never runs out.
  pub parse-Ends : (text : Bytes) → Ends IsWellFormed (parse strtod text)
  unfolding parse
  parse-Ends text =
      Ends-bind _ (Ends-parse_value (3 * length text + 3) text (omega arith))
        λ (v, rest) r. Ends-finish_parse v rest r.0
