-- ===== src/Dpl/SmartBuffer.antt =====
-- src/PowerLimiterSmartBufferInverter.cpp.
use flux_dtu.Base.{ℕ, ◌-◌, Bool, false, ◌&&◌, not, min, leb, ◌==◌, if◌then◌else◌}
use flux_dtu.Float.{Float}
use flux_dtu.Dpl.State.{Inverter, Env}
use flux_dtu.Dpl.Readings.{
  is_eligible, is_producing, get_expected_output_ac_watts, get_current_output_ac_watts,
  get_expected_limit_watts, get_inverter_max_power_watts, get_configured_max_power_watts,
}
use flux_dtu.Dpl.Targets.{set_target_power_state, set_expected_output_ac_watts}
use flux_dtu.Dpl.Overscaling.{overscaling_enabled, set_ac_output}

module _ {F : Type 0} ⦃fl : Float F⦄ where
  unfoldable pub get_max_reduction_watts : Env → (allow_standby : Bool) → Inverter F → ℕ
  get_max_reduction_watts e allow s =
      let low = min (get_expected_limit_watts e s) (get_expected_output_ac_watts e s) in
      if not (is_eligible e s)
      then 0
      else if not (is_producing e s)
      then 0
      else if allow && s.config.allow_standby
      then get_current_output_ac_watts e s
      else if leb low s.config.lower_power_limit
      then 0
      else low - s.config.lower_power_limit

  unfoldable pub get_max_increase_watts : Env → Inverter F → ℕ
  get_max_increase_watts e s =
      let expected = get_expected_output_ac_watts e s in
      let limit = get_expected_limit_watts e s in
      let top = get_configured_max_power_watts e s in
      let max_power = get_inverter_max_power_watts e s in
      if not (is_eligible e s)
      then 0
      else if not (is_producing e s)
      then top
      else if leb top expected
      then 0
      else if leb max_power limit
      then 0
      else if overscaling_enabled s
      then min (top - expected) (max_power - limit)
      else if leb top limit
      then 0
      else top - limit

  unfoldable pub standby : Env → Inverter F → Inverter F × ℕ
  standby e s =
      let s' = set_expected_output_ac_watts 0 (set_target_power_state false s) in
      (s', get_current_output_ac_watts e s')

  unfoldable pub apply_reduction :
      Env → (reduction : ℕ) (allow_standby : Bool) → Inverter F → Inverter F × ℕ
  apply_reduction e reduction allow s =
      let expected = get_expected_output_ac_watts e s in
      let low = min (get_expected_limit_watts e s) expected in
      let without_standby = low - s.config.lower_power_limit in
      let may_stand_by = allow && s.config.allow_standby in
      let stand_by : Inverter F × ℕ = ((standby e s).0, min reduction expected) in
      if not (is_eligible e s)
      then (s, 0)
      else if reduction == 0
      then (s, 0)
      else if leb low s.config.lower_power_limit
      then if may_stand_by then stand_by else (s, 0)
      else if leb reduction without_standby
      then (set_ac_output e (low - reduction) s, reduction)
      else if may_stand_by
      then stand_by
      else (set_ac_output e s.config.lower_power_limit s, without_standby)
