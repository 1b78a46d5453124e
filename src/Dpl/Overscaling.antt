-- ===== src/Dpl/Overscaling.antt =====
-- src/PowerLimiterOverscalingInverter.cpp: what the solar and the smart-buffer inverters share.
pub mod Bounds
use flux_dtu.Base.{
  ℕ, ◌+◌, ◌-◌, ◌*◌, ◌/◌, Bool, true, false, ◌&&◌, not, Option, none, some, List, [], ◌∷◌, min, max,
  ltb, leb, ◌==◌, if◌then◌else◌, length, u16,
}
use flux_dtu.Float.{Float, clamp}
use flux_dtu.Hoymiles.Device.{get_channels_dc, get_mppts, get_channels_dc_by_mppt}
use flux_dtu.Overscaling.Calculator.{
  has_limit_bound_channel, calculate_max_per_channel_output, has_compensable_shading,
  calculate_per_channel_overscaled_limit, calculate_overscaled_limit,
  calculate_overscaled_limit_for_expected_output, calculate_max_compensated_output,
}
use flux_dtu.Dpl.State.{Inverter, Env}
use flux_dtu.Dpl.Readings.{
  is_eligible, is_producing, get_expected_output_ac_watts, get_current_limit_watts,
  get_expected_limit_watts, get_inverter_max_power_watts, get_configured_max_power_watts,
}
use flux_dtu.Dpl.Targets.{
  set_target_power_limit_watts, set_target_power_state, set_expected_output_ac_watts,
}

-- The test `overScaledLimit <= newExpectedOutputWatts`, and the log behind it.
raised_limit : (overscaled expected : ℕ) → ℕ
raised_limit overscaled expected = if leb overscaled expected then expected else overscaled

module _ {F : Type 0} where
  -- the sizes of the two vectors of the channel table
  abbrev pub dc_total_chnls : Inverter F → ℕ
  dc_total_chnls s = length (get_channels_dc s.device.channel_meta_data)

  abbrev pub dc_total_mppts : Inverter F → ℕ
  dc_total_mppts s = length (get_mppts s.device.channel_meta_data)

  unfoldable pub overscaling_enabled : Inverter F → Bool
  overscaling_enabled s = s.config.use_overscaling && not s.device.supports_power_distribution_logic

  unfoldable pub uses_per_channel_limit_model : Inverter F → Bool
  uses_per_channel_limit_model s =
      if not (overscaling_enabled s)
      then false
      else ltb 1 (dc_total_chnls s) && ltb (dc_total_mppts s) (dc_total_chnls s)

module _ {F : Type 0} ⦃fl : Float F⦄ where
  abbrev pub per_channel_limit_binding_threshold : F
  per_channel_limit_binding_threshold = fl.rational 95 100

  unfoldable pub calculate_required_output_threshold : Env → (limit_watts : ℕ) → Inverter F → F
  calculate_required_output_threshold e limit s =
      if fl.le (fl.of_nat limit)
        (fl.mul_double (fl.of_nat (get_inverter_max_power_watts e s)) (fl.rational 15 100))
      then fl.rational 80 100
      else fl.rational 97 100

  scaled_by_efficiency : Option F → Option F → F
  scaled_by_efficiency none power = fl.of_nat 0
  scaled_by_efficiency (some efficiency) none = fl.of_nat 0
  scaled_by_efficiency (some efficiency) (some power) =
      fl.mul power (clamp (fl.div efficiency (fl.of_nat 100)) (fl.of_nat 0) (fl.of_nat 1))

  unfoldable pub calculate_dc_channel_power_ac : Inverter F → (channel : ℕ) → F
  unfolding scaled_by_efficiency
  calculate_dc_channel_power_ac s channel =
      scaled_by_efficiency s.device.statistics.efficiency (s.device.statistics.dc_power channel)

  add_channel_powers : Inverter F → F → List ℕ → F
  add_channel_powers s sum [] = sum
  add_channel_powers s sum (c ∷ cs) =
      add_channel_powers s (fl.add sum (calculate_dc_channel_power_ac s c)) cs

  unfoldable pub calculate_mppt_power_ac : Inverter F → (mppt : ℕ) → F
  unfolding add_channel_powers
  calculate_mppt_power_ac s mppt =
      add_channel_powers s (fl.of_nat 0) (get_channels_dc_by_mppt mppt s.device.channel_meta_data)

  powers_of : (ℕ → F) → List ℕ → List F
  powers_of power [] = []
  powers_of power (c ∷ cs) = power c ∷ powers_of power cs

  unfoldable pub collect_channel_data : Inverter F → List F
  unfolding powers_of
  collect_channel_data s =
      powers_of (calculate_dc_channel_power_ac s) (get_channels_dc s.device.channel_meta_data)

  unfoldable pub collect_mppt_data : Inverter F → List F
  unfolding powers_of
  collect_mppt_data s = powers_of (calculate_mppt_power_ac s) (get_mppts s.device.channel_meta_data)

  unfoldable pub is_per_channel_limit_binding : Env → (limit_watts : ℕ) → Inverter F → Bool
  is_per_channel_limit_binding e limit s =
      if not (uses_per_channel_limit_model s)
      then false
      else if not (is_producing e s)
      then false
      else has_limit_bound_channel limit (collect_channel_data s)
          per_channel_limit_binding_threshold

  unfoldable pub has_compensable_limit_headroom : Env → (limit_watts : ℕ) → Inverter F → Bool
  has_compensable_limit_headroom e limit s =
      let channels = collect_channel_data s in
      let mppts = collect_mppt_data s in
      if not (overscaling_enabled s)
      then false
      else if not (is_producing e s)
      then false
      else if ltb limit (dc_total_chnls s * 10)
      then false
      else if uses_per_channel_limit_model s
      then if leb (length channels) 1
        then false
        else if not (has_limit_bound_channel limit channels per_channel_limit_binding_threshold)
        then false
        else ltb (get_expected_output_ac_watts e s) (
            calculate_max_per_channel_output limit channels (get_inverter_max_power_watts e s)
              per_channel_limit_binding_threshold)
      else if leb (length mppts) 1
      then false
      else has_compensable_shading mppts (
          fl.mul (fl.of_nat (limit / length mppts)) (calculate_required_output_threshold e limit s))

  unfoldable pub scale_limit : Env → (new_expected_output_watts : ℕ) → Inverter F → ℕ
  unfolding raised_limit
  scale_limit e output s =
      let current = get_current_limit_watts e s in
      if not (overscaling_enabled s)
      then output
      else if not (is_producing e s)
      then output
      else if ltb current (dc_total_chnls s * 10)
      then output
      else if uses_per_channel_limit_model s
      then raised_limit
          (calculate_per_channel_overscaled_limit current output (collect_channel_data s)
            (get_inverter_max_power_watts e s) per_channel_limit_binding_threshold)
          output
      else if leb (dc_total_mppts s) 1
      then output
      else raised_limit
          (calculate_overscaled_limit current output (collect_mppt_data s)
            (get_inverter_max_power_watts e s) (calculate_required_output_threshold e current s)
            (calculate_required_output_threshold e output s))
          output

  unfoldable pub scale_limit_for_output_cap : Env → (expected_output_watts : ℕ) → Inverter F → ℕ
  scale_limit_for_output_cap e output s =
      let current = get_current_limit_watts e s in
      if not (overscaling_enabled s)
      then output
      else if not (is_producing e s)
      then output
      else if ltb current (dc_total_chnls s * 10)
      then output
      else if uses_per_channel_limit_model s
      then calculate_per_channel_overscaled_limit current output (collect_channel_data s)
          (get_inverter_max_power_watts e s) per_channel_limit_binding_threshold
      else if leb (dc_total_mppts s) 1
      then output
      else calculate_overscaled_limit_for_expected_output output (collect_mppt_data s)
          (get_inverter_max_power_watts e s) (calculate_required_output_threshold e output s)

  unfoldable pub get_max_overscaled_output_watts : Env → (limit_watts : ℕ) → Inverter F → ℕ
  get_max_overscaled_output_watts e limit s =
      let top = get_configured_max_power_watts e s in
      if not (overscaling_enabled s)
      then top
      else if not (is_producing e s)
      then top
      else if ltb limit (dc_total_chnls s * 10)
      then top
      else if uses_per_channel_limit_model s
      then min
          (calculate_max_per_channel_output limit (collect_channel_data s)
            (get_inverter_max_power_watts e s) per_channel_limit_binding_threshold)
          top
      else if leb (dc_total_mppts s) 1
      then top
      else min
          (calculate_max_compensated_output (collect_mppt_data s) (get_inverter_max_power_watts e s)
            (fl.mul (fl.of_nat (limit / length (collect_mppt_data s)))
              (calculate_required_output_threshold e limit s)))
          top

  unfoldable pub set_ac_output_and_limit :
      Env → (expected_output_watts target_limit_watts : ℕ) → Inverter F → Inverter F
  set_ac_output_and_limit e output limit s =
      let low = s.config.lower_power_limit in
      let output' = max (min output (get_configured_max_power_watts e s)) low in
      let limit' = max (min limit (get_inverter_max_power_watts e s)) low in
      set_target_power_state true
        (set_target_power_limit_watts limit' (set_expected_output_ac_watts output' s))

  unfoldable pub set_ac_output : Env → (expected_output_watts : ℕ) → Inverter F → Inverter F
  set_ac_output e output s =
      let output' =
        max (min output (get_configured_max_power_watts e s)) s.config.lower_power_limit in
      set_ac_output_and_limit e output' (scale_limit e output' s) s

  -- The limit that goes with a raised output. `max_increase` is what the virtual
  -- `getMaxIncreaseWatts` answers.
  unfoldable pub apply_increase : Env → (max_increase increase : ℕ) → Inverter F → Inverter F × ℕ
  apply_increase e max_increase increase s =
      let expected = get_expected_output_ac_watts e s in
      let actual = min increase max_increase in
      let output = u16 (expected + actual) in
      let limit =
        if overscaling_enabled s
        then max (scale_limit e output s) (get_expected_limit_watts e s)
        else u16 (get_expected_limit_watts e s + actual) in
      if not (is_eligible e s)
      then (s, 0)
      else if increase == 0
      then (s, 0)
      else if not (is_producing e s) && ltb increase s.config.lower_power_limit
      then (s, 0)
      else if not (is_producing e s) && expected == 0
      then (set_ac_output e actual s, actual)
      else (set_ac_output_and_limit e output limit s, actual)
