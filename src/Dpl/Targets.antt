-- ===== src/Dpl/Targets.antt =====
-- src/PowerLimiterInverter.cpp and its header: the setters of the target state, and what is
-- recorded of a command that succeeded.
use flux_dtu.Base.{
  ℕ, Bool, true, false, none, some, List, [], ◌∷◌, ◌++◌, add32, has_value, if◌then◌else◌,
}
use flux_dtu.Dpl.State.{Inverter, TargetDispatchEvent}

abbrev pub target_effect_assumption_millis : ℕ
target_effect_assumption_millis = 2000

module _ {F : Type 0} where
  unfoldable pub set_target_power_limit_watts : ℕ → Inverter F → Inverter F
  set_target_power_limit_watts power s = record s {
    target_power_limit_watts = some power;
    last_target_power_limit_watts = some power;
  }

  unfoldable pub set_target_power_state : Bool → Inverter F → Inverter F
  set_target_power_state enable s = record s { target_power_state = some enable }

  unfoldable pub set_expected_output_ac_watts : ℕ → Inverter F → Inverter F
  set_expected_output_ac_watts power s = record s { expected_output_ac_watts = power }

  unfoldable pub reassert_target_power_state : Inverter F → Inverter F
  reassert_target_power_state s =
      if has_value s.target_power_state then record s { force_power_state_command = true } else s

  unfoldable pub record_target_dispatch_event : TargetDispatchEvent → Inverter F → Inverter F
  record_target_dispatch_event event s = record s {
    target_dispatch_events = s.target_dispatch_events ++ (event ∷ []);
  }

  unfoldable pub record_successful_target_command :
      (command_millis assumed_output_ac_watts : ℕ) (keep : Bool) → Inverter F → Inverter F
  record_successful_target_command millis assumed keep s = record s {
    next_update_attempt_millis = none;
    restored_state_millis = none;
    assumed_output_ac_watts = some assumed;
    keep_assumed_output = keep;
    assumed_output_valid_after_millis =
        some (add32 millis (if keep then 0 else target_effect_assumption_millis));
  }

  -- the lambda `reset` of `update`, which also answers `false`
  unfoldable pub reset : Inverter F → Inverter F
  reset s = record s {
    target_power_state = none;
    target_power_limit_watts = none;
    force_power_state_command = false;
    allow_parallel_startup_commands = false;
    update_start_millis = none;
    in_flight_power_limit_watts = none;
    in_flight_power_limit_expected_output = none;
    in_flight_power_state = none;
    in_flight_power_state_expected_output = none;
  }

  unfoldable pub consume_target_dispatch_events : Inverter F → Inverter F × List TargetDispatchEvent
  consume_target_dispatch_events s =
      (record s { target_dispatch_events = [] }, s.target_dispatch_events)
