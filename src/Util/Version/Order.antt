-- ===== src/Util/Version/Order.antt =====
-- What VersionNewer (linux/src/util.cpp) computes on versions of digit components.
use harness_desktop.Base.{
  ℕ, zero, suc, ◌+◌, ◌<◌, ◌≡◌, refl, ◌∙◌, List, [], ◌∷◌, Bytes, All, length, arith,
}
use harness_desktop.Base.Outcome.{ok}
use harness_desktop.Util.Version.{version_newer}
use harness_desktop.Util.Version.Rounds.{
  value, IsComponent, dotted, newer, values, round, is_empty-component, is_empty-component_right,
  component_nil, skip_nil, skip_rest, component_front,
}

-- On two versions of components with points between them, each of them one digit or more that spell at
-- most the greatest int, VersionNewer returns, and returns whether the first is greater component by
-- component, a missing component counting as 0. A round for each component and one more are enough.
pub version_newer-dotted :
    (xs ys : List Bytes)
    → All IsComponent xs
    → All IsComponent ys
    → (f : ℕ) → length xs + length ys < f
    → version_newer f (dotted xs) (dotted ys) ≡ ok (newer (values xs) (values ys))
version_newer-dotted xs ys hx hy zero h = absurd (omega arith)
version_newer-dotted [] [] hx hy (suc f) h = unfold version_newer in refl
version_newer-dotted [] (y ∷ ys) hx hy (suc f) h =
    round f 0 (value 0 y) [] _ [] _ (is_empty-component_right y _ [] hy.0) component_nil
      (component_front y ys hy.0)
    ∙ rw skip_nil (
        rw (skip_rest ys hy.1) (ground (arith, version_newer-dotted [] ys tt hy.1 f (omega arith))))
version_newer-dotted (x ∷ xs) [] hx hy (suc f) h =
    round f (value 0 x) 0 _ [] _ [] (is_empty-component x _ [] hx.0) (component_front x xs hx.0)
      component_nil
    ∙ rw skip_nil (
        rw (skip_rest xs hx.1) (ground (arith, version_newer-dotted xs [] hx.1 tt f (omega arith))))
version_newer-dotted (x ∷ xs) (y ∷ ys) hx hy (suc f) h =
    round f (value 0 x) (value 0 y) _ _ _ _ (is_empty-component x _ _ hx.0)
      (component_front x xs hx.0) (component_front y ys hy.0)
    ∙ rw (skip_rest xs hx.1) (
        rw (skip_rest ys hy.1)
          (ground (arith, version_newer-dotted xs ys hx.1 hy.1 f (omega arith))))
