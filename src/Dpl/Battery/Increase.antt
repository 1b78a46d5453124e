-- ===== src/Dpl/Battery/Increase.antt =====
-- What an increase of a battery-powered inverter comes to.
use flux_dtu.Base.{ℕ, ◌+◌, ◌≤◌, ◌<◌, min, max, ◌≡◌, ◌⊎◌, ◌&&◌, arith, ltb, ◌==◌, if◌then◌else◌, u16}
use flux_dtu.Float.{Float}
use flux_dtu.Dpl.State.{Inverter, Env}
use flux_dtu.Dpl.Readings.{
  get_expected_output_ac_watts, get_current_output_ac_watts, get_expected_limit_watts,
  get_configured_max_power_watts,
}
use flux_dtu.Dpl.Battery.{apply_increase, get_max_increase_watts, set_ac_output}
use flux_dtu.Dpl.Battery.Setters.{
  set_ac_output_and_limit_output, set_ac_output_and_limit_limit, reasserted_output,
  reasserted_limit,
}

module _ {F : Type 0} ⦃fl : Float F⦄ where
  -- `applyIncrease` grants what `getMaxIncreaseWatts` promises, up to the request, but nothing
  -- where the inverter would have to start for less than its lower limit.
  pub apply_increase-eq-min :
      (e : Env) (increase : ℕ) (s : Inverter F)
      → (apply_increase e increase s).1 ≡ (
          if get_expected_output_ac_watts e s == 0
            && get_current_output_ac_watts e s == 0
            && ltb increase s.config.lower_power_limit
          then 0
          else min increase (get_max_increase_watts e s))
  unfolding apply_increase get_max_increase_watts
  apply_increase-eq-min e increase s = ground arith

  max_increase-le :
      (e : Env) (s : Inverter F)
      → get_expected_output_ac_watts e s ≤ get_configured_max_power_watts e s
      → get_expected_output_ac_watts e s + get_max_increase_watts e s
        ≤ get_configured_max_power_watts e s
  unfolding get_max_increase_watts
  max_increase-le e s h = ground arith

  -- An increase grants nothing and leaves the object as it was, or it makes the expected output the sum of the old one
  -- and the granted power, at least the lower limit, with a limit within the configured range.
  -- This is for an inverter whose expected output is within its configured range and whose limit
  -- fits 16 bits.
  pub apply_increase_effect :
      (e : Env) (increase : ℕ) (s : Inverter F)
      → s.config.lower_power_limit ≤ get_configured_max_power_watts e s
      → get_expected_output_ac_watts e s ≤ get_configured_max_power_watts e s
      → get_configured_max_power_watts e s < 65_536
      → get_expected_limit_watts e s < 65_536
      → let s' = (apply_increase e increase s).0 in
        let granted = (apply_increase e increase s).1 in
        ((s' ≡ s) × (granted ≡ 0))
        ⊎ ((get_expected_output_ac_watts e s'
              ≡ max (get_expected_output_ac_watts e s + granted) s.config.lower_power_limit)
            × (s.config.lower_power_limit ≤ get_expected_limit_watts e s')
            × (get_expected_limit_watts e s' ≤ get_configured_max_power_watts e s))
  unfolding apply_increase set_ac_output
  apply_increase_effect e increase s h1 h2 h3 h4 =
      let granted = min increase (get_max_increase_watts e s) in
      let output = u16 (get_expected_output_ac_watts e s + granted) in
      let limit = u16 (get_expected_limit_watts e s + granted) in
      let start = u16 (0 + granted) in
      ground (
        arith,
        max_increase-le e s,
        set_ac_output_and_limit_output e output limit s,
        set_ac_output_and_limit_limit e output limit s,
        set_ac_output_and_limit_output e start start s,
        set_ac_output_and_limit_limit e start start s,
        reasserted_output e start start s,
        reasserted_limit e start start s,
      )
