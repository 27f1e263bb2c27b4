-- ===== src/Update/Examples.antt =====
-- The theorems on linux/src/update_manager.cpp at concrete inputs.
use harness_desktop.Base.{
  ◌≡◌, refl, true, List, [], ◌∷◌, some, none, Bytes, codes, find?, starts_with, arith,
}
use harness_desktop.Base.Outcome.{ok}
use harness_desktop.Base.Find.{occurs_first}
use harness_desktop.Util.Version.Rounds.{IsComponent, dotted, values, newer}
use harness_desktop.Update.{Package, newest, update_available, version_key}
use harness_desktop.Update.Extract.{announced, update_available-dotted}
use harness_desktop.Update.Newest.{Newest, Newest-newest}

abbrev pre : Bytes
pre = codes "{\"name\": \"dsh\", "

pre_first : occurs_first version_key pre ≡ true
unfolding starts_with
pre_first = refl

abbrev packages : List Package
packages =
    record { mtime = some 5; text = announced pre (codes ": ") (codes "1.2") [] }
    ∷ record { mtime = none; text = [] }
    ∷ record { mtime = some 7; text = announced pre (codes ": ") (codes "1.1") [] }
    ∷ []

newest_run : newest 0 [] packages ≡ codes "1.1"
unfolding newest find? starts_with
newest_run = refl

Newest-newest_example : Newest 0 [] packages (newest 0 [] packages)
Newest-newest_example = Newest-newest 0 [] packages

IsComponent-2 : IsComponent (codes "2")
IsComponent-2 = record { digits = (refl, tt); some_digit = omega arith; fits = omega arith }

update_available-dotted_example :
    update_available 4
      (dotted (codes "2" ∷ []))
      (announced pre (codes ":") (dotted (codes "2" ∷ codes "2" ∷ [])) [])
    ≡ ok (newer (values (codes "2" ∷ codes "2" ∷ [])) (values (codes "2" ∷ [])))
update_available-dotted_example =
    update_available-dotted (codes "2") (codes "2") (codes "2" ∷ []) [] pre (codes ":") [] 4
      (IsComponent-2, (IsComponent-2, tt)) (IsComponent-2, tt) pre_first refl (omega arith)
