-- ===== src/Examples/Limits.antt =====
-- Limits put in bounds, timestamps and the restored state.
use flux_dtu.Base.{ℕ, ◌≡◌, ◌||◌, refl, true, false, arith, min, ltb}
use flux_dtu.Float.{fixed}
use flux_dtu.Hoymiles.Device.{get_max_power}
use flux_dtu.Dpl.State.{Inverter, battery, RuntimeState}
use flux_dtu.Dpl.Readings.{
  has_pending_target, is_producing, is_reachable, is_solar_powered, get_current_output_ac_watts,
  get_expected_output_ac_watts, get_inverter_max_power_watts,
}
use flux_dtu.Dpl.Restore.{get_runtime_state_for_persistence, restore_runtime_state}
use flux_dtu.Dpl.Restore.RoundTrip.{restore-persist}
use flux_dtu.Examples.Samples.{now, quiet, inverter}
use flux_dtu.Examples.Powers.{sample, sample_limit}

abbrev stored : RuntimeState ℕ
stored = record {
  serial = 7;
  output_ac_watts = 2000;
  expected_output_ac_watts = 300;
  power_limit_watts = 900;
  max_power_watts = 1000;
  grid_voltage = 230_000;
  reachable = true;
  producing = false;
}

-- the object after a restart of the controller: no telemetry yet
abbrev started : Inverter ℕ
started =
    let statistics = quiet.statistics in
    inverter battery (record quiet { statistics = record statistics { last_update = 0 } })

started_is_not_solar : is_solar_powered started ≡ false
started_is_not_solar = refl

started_has_no_target : has_pending_target started ≡ false
unfolding has_pending_target
started_has_no_target = refl

sample_power : get_inverter_max_power_watts now sample ≡ 1000
unfolding get_inverter_max_power_watts get_max_power
sample_power = refl

restore-persist_example :
    let top = get_inverter_max_power_watts now sample in
    let s' =
      restore_runtime_state now (get_runtime_state_for_persistence now sample) 999_000 started in
    (get_current_output_ac_watts now s' ≡ min (get_current_output_ac_watts now sample) top)
    × (get_expected_output_ac_watts now s' ≡ min (get_expected_output_ac_watts now sample) top)
    × (is_reachable now s' ≡ is_reachable now sample)
    × (is_producing now s'
        ≡ is_producing now sample
          || ltb 0 (get_current_output_ac_watts now sample)
          || ltb 0 (get_expected_output_ac_watts now sample))
restore-persist_example =
    restore-persist now now now 999_000 sample started refl started_is_not_solar
      started_has_no_target refl refl (omega arith) (omega (arith, sample_power))
      (omega (arith, sample_limit))
