-- ===== src/Dpl/Solar/Reduction.antt =====
-- What a reduction and a standby of a solar inverter come to.
use flux_dtu.Base.{
  ℕ, ◌+◌, ◌-◌, ◌≤◌, ◌<◌, min, max, ◌≡◌, ◌⊎◌, refl, Bool, true, some, arith, ltb, if◌then◌else◌,
  sub16,
}
use flux_dtu.Float.{Float}
use flux_dtu.Dpl.State.{Inverter, Env}
use flux_dtu.Dpl.Readings.{
  get_expected_output_ac_watts, get_current_output_ac_watts, get_expected_limit_watts,
  get_configured_max_power_watts, is_using_assumed_output, is_using_restored_state,
  has_stats_at_or_after, get_measured_output_ac_watts,
}
use flux_dtu.Dpl.Solar.{apply_reduction, get_max_reduction_watts, standby}
use flux_dtu.Dpl.Overscaling.{set_ac_output_and_limit, set_ac_output, scale_limit}
use flux_dtu.Dpl.Targets.{
  set_target_power_limit_watts, set_target_power_state, set_expected_output_ac_watts,
}
use flux_dtu.Dpl.Overscaling.Bounds.{set_ac_output_and_limit_output, set_ac_output_and_limit_on}

module _ {F : Type 0} ⦃fl : Float F⦄ where
  -- A solar inverter grants at least what `getMaxReductionWatts` promises, up to the request, and
  -- never more than the request.
  pub solar_reduction_grant :
      (e : Env) (reduction : ℕ) (allow : Bool) (s : Inverter F)
      → let granted = (apply_reduction e reduction allow s).1 in
        (min reduction (get_max_reduction_watts e allow s) ≤ granted) × (granted ≤ reduction)
  unfolding apply_reduction get_max_reduction_watts
  solar_reduction_grant e reduction allow s = ground arith

  -- A reduction takes exactly the granted power off the expected output, which stays at or above
  -- the lower limit if anything is granted, and never stops the inverter. This is for an expected
  -- output within the configured range, which fits 16 bits.
  pub solar_reduction_effect :
      (e : Env) (reduction : ℕ) (allow : Bool) (s : Inverter F)
      → get_expected_output_ac_watts e s ≤ get_configured_max_power_watts e s
      → get_configured_max_power_watts e s < 65_536
      → let s' = (apply_reduction e reduction allow s).0 in
        let granted = (apply_reduction e reduction allow s).1 in
        (get_expected_output_ac_watts e s' + granted ≡ get_expected_output_ac_watts e s)
        × (0 < granted → s.config.lower_power_limit ≤ get_expected_output_ac_watts e s')
        × ((s' ≡ s) ⊎ (s'.target_power_state ≡ some true))
  unfolding apply_reduction
  solar_reduction_effect e reduction allow s h1 h2 =
      let expected = get_expected_output_ac_watts e s in
      let limit = get_expected_limit_watts e s in
      let low = s.config.lower_power_limit in
      let actual = min reduction (expected - low) in
      let target = if ltb actual limit then limit - actual else low in
      ground (
        arith,
        set_ac_output_and_limit_output e (sub16 expected actual) target s,
        set_ac_output_and_limit_on e (sub16 expected actual) target s,
      )

  current_output-set_ac_output :
      (e : Env) (output limit : ℕ) (s : Inverter F)
      → get_current_output_ac_watts e (set_ac_output_and_limit e output limit s)
        ≡ get_current_output_ac_watts e s
  unfolding set_ac_output_and_limit set_target_power_state set_target_power_limit_watts
      set_expected_output_ac_watts get_current_output_ac_watts is_using_assumed_output
      is_using_restored_state has_stats_at_or_after get_measured_output_ac_watts
  current_output-set_ac_output e output limit s = refl

  -- `standby` answers the difference between the current output and the lower limit where that is
  -- not negative. Where the output is below the lower limit, the difference wraps: the answer is
  -- the difference plus 2 ^ 16. The two powers fit 16 bits.
  pub solar_standby_answer :
      (e : Env) (s : Inverter F)
      → s.config.lower_power_limit < 65_536
      → get_current_output_ac_watts e s < 65_536
      → let answer = (standby e s).1 in
        let current = get_current_output_ac_watts e s in
        let low = s.config.lower_power_limit in
        (low ≤ current → answer + low ≡ current) × (current < low → answer + low ≡ current + 65_536)
  unfolding standby set_ac_output
  solar_standby_answer e s h1 h2 =
      let low = s.config.lower_power_limit in
      let output = max (min low (get_configured_max_power_watts e s)) low in
      ground (arith, current_output-set_ac_output e output (scale_limit e output s) s)
