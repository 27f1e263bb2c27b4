-- ===== src/Util/Examples.antt =====
-- VersionNewer of linux/src/util.cpp on small versions, and its theorems at concrete inputs.
use harness_desktop.Base.{◌≡◌, refl, true, [], ◌∷◌, codes, arith}
use harness_desktop.Base.Outcome.{ok, out_of_fuel}
use harness_desktop.Util.Version.{version_newer}
use harness_desktop.Util.Version.Rounds.{IsComponent, newer, values}
use harness_desktop.Util.Version.Order.{version_newer-dotted}
use harness_desktop.Util.Version.Suffix.{version_newer-suffix_hangs}

IsComponent-10 : IsComponent (codes "10")
IsComponent-10 = record {
  digits = (refl, (refl, tt));
  some_digit = omega arith;
  fits = omega arith;
}

IsComponent-9 : IsComponent (codes "9")
IsComponent-9 = record { digits = (refl, tt); some_digit = omega arith; fits = omega arith }

newer_run : version_newer 9 (codes "10.9-1") (codes "10.9") ≡ ok true
unfolding version_newer
newer_run = refl

version_newer-dotted_example :
    version_newer 4 (codes "10.9") (codes "9")
    ≡ ok (newer (values (codes "10" ∷ codes "9" ∷ [])) (values (codes "9" ∷ [])))
version_newer-dotted_example =
    version_newer-dotted (codes "10" ∷ codes "9" ∷ []) (codes "9" ∷ [])
      (IsComponent-10, (IsComponent-9, tt)) (IsComponent-9, tt) 4 (omega arith)

version_newer-suffix_hangs_example :
    version_newer 1000 (codes "10.9-beta") (codes "10.9") ≡ out_of_fuel
version_newer-suffix_hangs_example =
    version_newer-suffix_hangs (codes "10") (codes "9" ∷ []) (codes "beta") [] IsComponent-10
      (IsComponent-9, tt) (refl, refl) tt 1000
