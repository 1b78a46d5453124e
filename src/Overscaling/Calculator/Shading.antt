-- ===== src/Overscaling/Calculator/Shading.antt =====
-- The shaded MPPTs of `OverscalingCalculator`, and the limits that follow from their number.
use flux_dtu.Base.{
  ℕ, suc, ◌+◌, ◌≤◌, ◌≡◌, refl, Bool, false, ◌&&◌, ◌||◌, not, List, [], ◌∷◌, arith, max, ltb,
  if◌then◌else◌, length, Bool-cases, inl, inr,
}
use flux_dtu.Float.{Float, clamp}
use flux_dtu.Overscaling.Calculator.{
  count_shaded_from, count_shaded_mppts, has_compensable_shading, calculate_overscaled_limit,
  calculate_overscaled_limit_for_expected_output, bound_flags, no_flags,
  collect_limit_bound_channels,
}

module _ {F : Type 0} ⦃fl : Float F⦄ where
  -- Does some MPPT lie below the expected power, and does some other not?
  abbrev pub any_shaded : List F → F → Bool
  any_shaded [] x = false
  any_shaded (p ∷ ps) x = fl.lt p x || any_shaded ps x

  abbrev pub any_unshaded : List F → F → Bool
  any_unshaded [] x = false
  any_unshaded (p ∷ ps) x = not (fl.lt p x) || any_unshaded ps x

  abbrev shaded_count : List F → F → ℕ
  shaded_count [] x = 0
  shaded_count (p ∷ ps) x = let rest = shaded_count ps x in if fl.lt p x then suc rest else rest

  count_shaded_from-eq-add :
      (count : ℕ) (sum : F) (ps : List F) (x : F)
      → (count_shaded_from count sum ps x).0 ≡ count + shaded_count ps x
  unfolding count_shaded_from
  count_shaded_from-eq-add count sum [] x = omega arith
  count_shaded_from-eq-add count sum (p ∷ ps) x = elim (Bool-cases (fl.lt p x)) [
    | inl h ↦
        rw (h, count_shaded_from)
          (omega (arith, count_shaded_from-eq-add (count + 1) (fl.add sum p) ps x))
    | inr h ↦ rw (h, count_shaded_from) (count_shaded_from-eq-add count sum ps x)
  ]

  count_shaded_mppts-eq : (ps : List F) (x : F) → (count_shaded_mppts ps x).0 ≡ shaded_count ps x
  unfolding count_shaded_mppts
  count_shaded_mppts-eq ps x = omega (arith, count_shaded_from-eq-add 0 (fl.of_nat 0) ps x)

  shaded_count_lem :
      (ps : List F) (x : F)
      → (shaded_count ps x ≤ length ps)
        × (any_shaded ps x ≡ ltb 0 (shaded_count ps x))
        × (any_unshaded ps x ≡ ltb (shaded_count ps x) (length ps))
  shaded_count_lem [] x = (omega arith, refl, refl)
  shaded_count_lem (p ∷ ps) x = ground (arith, shaded_count_lem ps x)

  -- `hasCompensableShading` is true exactly when at least one MPPT is below the expected power and
  -- at least one is not.
  pub has_compensable_shading-eq-any :
      (ps : List F) (x : F) → has_compensable_shading ps x ≡ (any_shaded ps x && any_unshaded ps x)
  unfolding has_compensable_shading
  has_compensable_shading-eq-any ps x =
      ground (arith, shaded_count_lem ps x, count_shaded_mppts-eq ps x)

  -- The overscaled limit is never below the expected output, and never above the largest of the
  -- expected output, the current limit and the inverter's maximum.
  pub calculate_overscaled_limit_range :
      (current expected : ℕ) (ps : List F) (max_power : ℕ) (t t' : F)
      → let r = calculate_overscaled_limit current expected ps max_power t t' in
        (expected ≤ r) × (r ≤ max expected (max current max_power))
  unfolding calculate_overscaled_limit
  calculate_overscaled_limit_range current expected ps max_power t t' = ground arith

  -- With an output cap the limit does not depend on the current one: it is never below the cap,
  -- and never above the larger of the cap and the inverter's maximum.
  pub calculate_overscaled_limit_for_expected_output_range :
      (expected : ℕ) (ps : List F) (max_power : ℕ) (t : F)
      → let r = calculate_overscaled_limit_for_expected_output expected ps max_power t in
        (expected ≤ r) × (r ≤ max expected max_power)
  unfolding calculate_overscaled_limit_for_expected_output
  calculate_overscaled_limit_for_expected_output_range expected ps max_power t = ground arith

  length-bound_flags : (x : F) (ps : List F) → length (bound_flags x ps) ≡ length ps
  unfolding bound_flags
  length-bound_flags x [] = refl
  length-bound_flags x (p ∷ ps) = omega (arith, length-bound_flags x ps)

  length-no_flags : (ps : List F) → length (no_flags ps) ≡ length ps
  unfolding no_flags
  length-no_flags [] = refl
  length-no_flags (p ∷ ps) = omega (arith, length-no_flags ps)

  -- There is one flag for each channel, so the sizes that the callers compare never differ.
  pub length-collect_limit_bound_channels :
      (current : ℕ) (ps : List F) (t : F)
      → length (collect_limit_bound_channels current ps t) ≡ length ps
  unfolding collect_limit_bound_channels
  length-collect_limit_bound_channels current [] t = refl
  length-collect_limit_bound_channels current (p ∷ ps) t = ground (
    arith,
    length-no_flags (p ∷ ps),
    length-bound_flags
        (fl.mul (fl.div (fl.of_nat current) (fl.of_nat (length (p ∷ ps))))
          (clamp t (fl.of_nat 0) (fl.of_nat 1)))
        (p ∷ ps),
  )
