-- ===== src/Dpl/Battery/Reduction.antt =====
-- What a reduction of a battery-powered inverter comes to.
use flux_dtu.Base.{
  ℕ, ◌+◌, ◌≤◌, ◌<◌, ◌-◌, sub16, min, ◌≡◌, ◌⊎◌, Bool, true, false, ◌&&◌, some, arith,
}
use flux_dtu.Float.{Float}
use flux_dtu.Dpl.State.{Inverter, Env, battery}
use flux_dtu.Dpl.Readings.{
  get_expected_output_ac_watts, get_expected_limit_watts, get_configured_max_power_watts,
}
use flux_dtu.Dpl.Battery.Setters.{
  set_ac_output_and_limit_output, set_ac_output_and_limit_limit, standby_output, standby_state,
}
use flux_dtu.Dpl.Battery.{apply_reduction, get_max_reduction_watts}

module _ {F : Type 0} ⦃fl : Float F⦄ where
  -- `applyReduction` grants exactly what `getMaxReductionWatts` promises, up to the request, on
  -- every branch.
  pub apply_reduction-eq-min :
      (e : Env) (reduction : ℕ) (allow : Bool) (s : Inverter F)
      → (apply_reduction e reduction allow s).1 ≡ min reduction (get_max_reduction_watts e allow s)
  unfolding apply_reduction get_max_reduction_watts
  apply_reduction-eq-min e reduction allow s = ground arith

  -- A reduction either takes exactly the granted power off the expected output, and at least as
  -- much off the limit, which stays at or above the lower limit if anything is granted; or, where
  -- standby is allowed by the caller and the configuration, it stops the inverter, with an expected
  -- output of 0. This is for a battery-powered inverter whose expected output is within its
  -- configured range and whose limit fits 16 bits.
  pub apply_reduction_effect :
      (e : Env) (reduction : ℕ) (allow : Bool) (s : Inverter F)
      → s.config.power_source ≡ battery
      → s.config.lower_power_limit ≤ get_configured_max_power_watts e s
      → get_expected_output_ac_watts e s ≤ get_configured_max_power_watts e s
      → get_configured_max_power_watts e s < 65_536
      → get_expected_limit_watts e s < 65_536
      → let s' = (apply_reduction e reduction allow s).0 in
        let granted = (apply_reduction e reduction allow s).1 in
        ((get_expected_output_ac_watts e s' + granted ≡ get_expected_output_ac_watts e s)
          × (get_expected_limit_watts e s' + granted ≤ get_expected_limit_watts e s)
          × (0 < granted → s.config.lower_power_limit ≤ get_expected_limit_watts e s'))
        ⊎ ((allow && s.config.allow_standby ≡ true)
            × (s'.target_power_state ≡ some false)
            × (get_expected_output_ac_watts e s' ≡ 0))
  unfolding apply_reduction
  apply_reduction_effect e reduction allow s src h1 h2 h3 h4 =
      let expected = get_expected_output_ac_watts e s in
      let limit = get_expected_limit_watts e s in
      let all = min limit expected - s.config.lower_power_limit in
      let part = sub16 expected reduction in
      let part_limit = sub16 limit reduction in
      let rest = sub16 expected all in
      let rest_limit = sub16 limit all in
      ground (
        arith,
        set_ac_output_and_limit_output e part part_limit s,
        set_ac_output_and_limit_limit e part part_limit s,
        set_ac_output_and_limit_output e rest rest_limit s,
        set_ac_output_and_limit_limit e rest rest_limit s,
        standby_output e s,
        standby_state e s,
      )
