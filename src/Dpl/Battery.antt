-- ===== src/Dpl/Battery.antt =====
-- src/PowerLimiterBatteryInverter.cpp.
pub mod Setters
pub mod Reduction
pub mod Increase
use flux_dtu.Base.{
  ℕ, ◌-◌, Bool, true, false, ◌&&◌, not, min, max, ltb, leb, ◌==◌, if◌then◌else◌, u16, ◌+◌, sub16,
}
use flux_dtu.Float.{Float}
use flux_dtu.Dpl.State.{Inverter, Env}
use flux_dtu.Dpl.Readings.{
  is_eligible, is_producing, get_expected_output_ac_watts, get_current_output_ac_watts,
  get_expected_limit_watts, get_configured_max_power_watts,
}
use flux_dtu.Dpl.Targets.{
  set_target_power_limit_watts, set_target_power_state, set_expected_output_ac_watts,
  reassert_target_power_state,
}

module _ {F : Type 0} ⦃fl : Float F⦄ where
  unfoldable pub set_ac_output_and_limit :
      Env → (expected_output_watts target_limit_watts : ℕ) → Inverter F → Inverter F
  set_ac_output_and_limit e output limit s =
      let top = get_configured_max_power_watts e s in
      let low = s.config.lower_power_limit in
      set_target_power_state true (
        set_target_power_limit_watts (max (min limit top) low)
          (set_expected_output_ac_watts (max (min output top) low) s))

  unfoldable pub set_ac_output : Env → (expected_output_watts : ℕ) → Inverter F → Inverter F
  set_ac_output e output s = set_ac_output_and_limit e output output s

  unfoldable pub standby : Env → Inverter F → Inverter F × ℕ
  standby e s =
      let s' = set_expected_output_ac_watts 0 (set_target_power_state false s) in
      (s', get_current_output_ac_watts e s')

  unfoldable pub get_max_reduction_watts : Env → (allow_standby : Bool) → Inverter F → ℕ
  get_max_reduction_watts e allow s =
      let expected = get_expected_output_ac_watts e s in
      let current = get_current_output_ac_watts e s in
      let low = min (get_expected_limit_watts e s) expected in
      if not (is_eligible e s)
      then 0
      else if not (is_producing e s) && expected == 0 && current == 0
      then 0
      else if allow && s.config.allow_standby
      then max expected current
      else if leb low s.config.lower_power_limit
      then 0
      else low - s.config.lower_power_limit

  unfoldable pub get_max_increase_watts : Env → Inverter F → ℕ
  get_max_increase_watts e s =
      let expected = get_expected_output_ac_watts e s in
      let current = get_current_output_ac_watts e s in
      let top = get_configured_max_power_watts e s in
      let baseline = max (get_expected_limit_watts e s) expected in
      if not (is_eligible e s)
      then 0
      else if expected == 0 && current == 0
      then top
      else if leb top baseline
      then 0
      else top - baseline

  unfoldable pub apply_reduction :
      Env → (reduction : ℕ) (allow_standby : Bool) → Inverter F → Inverter F × ℕ
  apply_reduction e reduction allow s =
      let expected = get_expected_output_ac_watts e s in
      let limit = get_expected_limit_watts e s in
      let reducible = max expected (get_current_output_ac_watts e s) in
      let low = min limit expected in
      let without_standby = low - s.config.lower_power_limit in
      let may_stand_by = allow && s.config.allow_standby in
      let stand_by : Inverter F × ℕ = ((standby e s).0, min reduction reducible) in
      if not (is_eligible e s)
      then (s, 0)
      else if reduction == 0
      then (s, 0)
      else if not (is_producing e s) && reducible == 0
      then (s, 0)
      else if leb low s.config.lower_power_limit
      then if may_stand_by then stand_by else (s, 0)
      else if leb reduction without_standby
      then (
        set_ac_output_and_limit e (sub16 expected reduction) (sub16 limit reduction) s,
        reduction,
      )
      else if may_stand_by
      then stand_by
      else (
        set_ac_output_and_limit e (sub16 expected without_standby) (sub16 limit without_standby) s,
        without_standby,
      )

  unfoldable pub apply_increase : Env → (increase : ℕ) → Inverter F → Inverter F × ℕ
  apply_increase e increase s =
      let expected = get_expected_output_ac_watts e s in
      let starts_from_zero = expected == 0 && get_current_output_ac_watts e s == 0 in
      let limit = get_expected_limit_watts e s in
      let actual = min increase (get_max_increase_watts e s) in
      if not (is_eligible e s)
      then (s, 0)
      else if increase == 0
      then (s, 0)
      else if starts_from_zero && ltb increase s.config.lower_power_limit
      then (s, 0)
      else if starts_from_zero
      then (reassert_target_power_state (set_ac_output e (u16 (0 + actual)) s), actual)
      else (set_ac_output_and_limit e (u16 (expected + actual)) (u16 (limit + actual)) s, actual)
