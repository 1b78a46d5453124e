-- ===== src/Dpl/Restore.antt =====
-- src/PowerLimiterInverter.cpp: the runtime state that is persisted before a restart of the
-- controller, and restored after it.
pub mod RoundTrip
use flux_dtu.Base.{ℕ, Bool, true, false, ◌||◌, not, some, min, ltb, ◌==◌, if◌then◌else◌}
use flux_dtu.Float.{Float}
use flux_dtu.Dpl.State.{Inverter, Env, RuntimeState}
use flux_dtu.Dpl.Readings.{
  is_producing, is_reachable, is_using_assumed_output, is_using_restored_state,
  has_restored_limit_pending_feedback, get_current_output_ac_watts, get_expected_output_ac_watts,
  get_current_limit_watts, get_expected_limit_watts, get_inverter_max_power_watts, get_grid_voltage,
  clamp_limit_to_configured_bounds,
}

module _ {F : Type 0} ⦃fl : Float F⦄ where
  unfoldable pub has_fresh_runtime_state_for_persistence : Env → Inverter F → Bool
  has_fresh_runtime_state_for_persistence e s =
      if is_using_restored_state e s
      then false
      else if has_restored_limit_pending_feedback s
      then false
      else if get_inverter_max_power_watts e s == 0
      then false
      else if get_current_limit_watts e s == 0
      then false
      else ltb 0 s.device.statistics.last_update || is_using_assumed_output s

  usable_voltage : F → F
  usable_voltage v = if not (fl.is_finite v) || fl.lt v (fl.of_nat 0) then fl.of_nat 0 else v

  unfoldable pub get_runtime_state_for_persistence : Env → Inverter F → RuntimeState F
  unfolding usable_voltage
  get_runtime_state_for_persistence e s =
      let output = get_current_output_ac_watts e s in
      let expected = get_expected_output_ac_watts e s in
      record {
        serial = s.config.serial;
        output_ac_watts = output;
        expected_output_ac_watts = expected;
        power_limit_watts = get_expected_limit_watts e s;
        max_power_watts = get_inverter_max_power_watts e s;
        grid_voltage = usable_voltage (get_grid_voltage e s);
        reachable = is_reachable e s;
        producing = is_producing e s || ltb 0 output || ltb 0 expected;
      }

  -- the object while the restored state is put in place: `clampLimitToConfiguredBounds` reads it
  restoring : RuntimeState F → (restore_millis : ℕ) → Inverter F → Inverter F
  restoring r millis s = record s {
    restored_runtime_state = r;
    restored_state_millis = some millis;
    restored_limit_millis = some millis;
  }

  unfoldable pub restore_runtime_state :
      Env → RuntimeState F → (restore_millis : ℕ) → Inverter F → Inverter F
  unfolding restoring
  restore_runtime_state e r millis s =
      let s' = restoring r millis s in
      let limit =
        clamp_limit_to_configured_bounds e s' (min r.power_limit_watts r.max_power_watts) in
      let output = min r.output_ac_watts r.max_power_watts in
      let expected = min r.expected_output_ac_watts r.max_power_watts in
      if not (r.serial == s.config.serial)
      then s
      else if r.max_power_watts == 0 || r.power_limit_watts == 0
      then s
      else record s' {
        restored_runtime_state = record r {
          power_limit_watts = limit;
          output_ac_watts = output;
          expected_output_ac_watts = expected;
          producing = if ltb 0 output || ltb 0 expected then true else r.producing;
        };
        expected_output_ac_watts = expected;
      }
