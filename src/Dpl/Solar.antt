-- ===== src/Dpl/Solar.antt =====
-- src/PowerLimiterSolarInverter.cpp.
pub mod Reduction
use flux_dtu.Base.{
  ℕ, ◌+◌, ◌-◌, Bool, true, false, ◌&&◌, ◌||◌, not, min, max, ltb, leb, ◌==◌, if◌then◌else◌, sub16,
}
use flux_dtu.Float.{Float}
use flux_dtu.Dpl.State.{Inverter, Env}
use flux_dtu.Dpl.Readings.{
  is_eligible, is_producing, has_pending_target, is_using_assumed_output,
  get_expected_output_ac_watts, get_current_output_ac_watts, get_measured_output_ac_watts,
  get_expected_limit_watts, get_inverter_max_power_watts, get_configured_max_power_watts,
}
use flux_dtu.Dpl.Targets.{
  set_target_power_limit_watts, set_target_power_state, set_expected_output_ac_watts,
}
use flux_dtu.Dpl.Overscaling.{
  overscaling_enabled, is_per_channel_limit_binding, has_compensable_limit_headroom,
  scale_limit_for_output_cap, get_max_overscaled_output_watts, set_ac_output_and_limit,
  set_ac_output,
}

abbrev pub production_limit_binding_margin_watts : ℕ
production_limit_binding_margin_watts = 20

module _ {F : Type 0} ⦃fl : Float F⦄ where
  unfoldable pub is_production_limit_binding : Env → (expected_limit_watts : ℕ) → Inverter F → Bool
  is_production_limit_binding e limit s =
      fl.le (fl.of_nat limit) (
        fl.add (fl.of_nat (get_measured_output_ac_watts s))
          (fl.of_nat production_limit_binding_margin_watts))
      || is_per_channel_limit_binding e limit s

  unfoldable pub get_max_reduction_watts : Env → (allow_standby : Bool) → Inverter F → ℕ
  get_max_reduction_watts e allow s =
      let low = min (get_expected_limit_watts e s) (get_expected_output_ac_watts e s) in
      if not (is_eligible e s)
      then 0
      else if not (is_producing e s)
      then 0
      else if leb low s.config.lower_power_limit
      then 0
      else low - s.config.lower_power_limit

  -- the last part, where the inverter may be raised
  possible_increase : Env → Inverter F → ℕ
  possible_increase e s =
      let expected = get_expected_output_ac_watts e s in
      let limit = get_expected_limit_watts e s in
      let top = get_configured_max_power_watts e s in
      let max_limit =
        if overscaling_enabled s || s.device.supports_power_distribution_logic
        then get_inverter_max_power_watts e s
        else top in
      let overscaled = get_max_overscaled_output_watts e limit s in
      if leb max_limit limit
      then 0
      else if overscaling_enabled s
      then if leb overscaled expected then 0 else min (top - expected) (overscaled - expected)
      else min (top - expected) (max_limit - limit)

  unfoldable pub get_max_increase_watts : Env → Inverter F → ℕ
  unfolding possible_increase
  get_max_increase_watts e s =
      let limit = get_expected_limit_watts e s in
      if not (is_eligible e s)
      then 0
      else if not (is_producing e s)
      then 0
      else if leb (get_configured_max_power_watts e s) (get_expected_output_ac_watts e s)
      then 0
      else if not (is_production_limit_binding e limit s)
          && (has_pending_target s
              || is_using_assumed_output s
              || not (has_compensable_limit_headroom e limit s))
      then 0
      else possible_increase e s

  unfoldable pub get_max_non_probing_increase_watts : Env → Inverter F → ℕ
  get_max_non_probing_increase_watts e s =
      let limit = get_expected_limit_watts e s in
      if not (is_eligible e s)
      then 0
      else if not (is_producing e s)
      then 0
      else if has_pending_target s || is_using_assumed_output s
      then 0
      else if not (is_production_limit_binding e limit s)
          && not (has_compensable_limit_headroom e limit s)
      then 0
      else get_max_increase_watts e s

  unfoldable pub apply_reduction :
      Env → (reduction : ℕ) (allow_standby : Bool) → Inverter F → Inverter F × ℕ
  apply_reduction e reduction allow s =
      let expected = get_expected_output_ac_watts e s in
      let low = s.config.lower_power_limit in
      let actual = min reduction (expected - low) in
      let limit = get_expected_limit_watts e s in
      let target_limit = if ltb actual limit then limit - actual else low in
      if not (is_eligible e s)
      then (s, 0)
      else if reduction == 0
      then (s, 0)
      else if leb expected low
      then (s, 0)
      else (set_ac_output_and_limit e (sub16 expected actual) target_limit s, actual)

  unfoldable pub cap_output_limit : Env → (output_limit_watts : ℕ) → Inverter F → Inverter F × Bool
  cap_output_limit e cap s =
      let current = get_expected_output_ac_watts e s in
      let output =
        max (min (max cap current) (get_configured_max_power_watts e s))
          s.config.lower_power_limit in
      let target =
        if overscaling_enabled s then scale_limit_for_output_cap e output s else output in
      if not (is_eligible e s)
        || not (is_producing e s)
        || has_pending_target s
        || is_using_assumed_output s
      then (s, false)
      else if leb (get_expected_limit_watts e s) target
      then (s, false)
      else (
        set_target_power_state true
            (set_target_power_limit_watts target (set_expected_output_ac_watts current s)),
        true,
      )

  -- The difference is a `uint16_t`, and wraps below 0.
  unfoldable pub standby : Env → Inverter F → Inverter F × ℕ
  standby e s =
      let s' = set_ac_output e s.config.lower_power_limit s in
      (s', sub16 (get_current_output_ac_watts e s') s.config.lower_power_limit)
