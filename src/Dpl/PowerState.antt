-- ===== src/Dpl/PowerState.antt =====
-- `PowerLimiterInverter::update`: its lambdas `updateFailure`, `startupFromAssumedStandby` and
-- `switchPowerState`, with the tests and events that the limit commands share with them.
use flux_dtu.Base.{
  ℕ, ◌+◌, Bool, true, false, ◌&&◌, ◌||◌, not, Option, none, some, ltb, leb, ◌==◌, if◌then◌else◌,
  has_value, value_or, same, u8, add32,
}
use flux_dtu.Float.{Float}
use flux_dtu.Hoymiles.Device.{
  is_pending, is_ok, suppress_next_request, send_power_control_request,
  send_restart_control_request,
}
use flux_dtu.Dpl.Clock.{millis_at_or_after}
use flux_dtu.Dpl.State.{Inverter, TargetDispatchEvent, power_limit, power_state, Env}
use flux_dtu.Dpl.Readings.{
  is_battery_powered, is_using_assumed_output, is_producing, get_current_output_ac_watts,
  get_expected_output_ac_watts,
}
use flux_dtu.Dpl.Targets.{record_target_dispatch_event, record_successful_target_command, reset}

abbrev pub failed_update_retry_backoff_millis : ℕ
failed_update_retry_backoff_millis = 3000

abbrev pub is_target : Bool → Option Bool → Bool
is_target b none = false
is_target b (some c) = same b c

abbrev pub event :
    (power_limit_command : Bool) (expected sent : ℕ) (on completed : Bool) → TargetDispatchEvent
event limit expected sent on completed = record {
  kind = if limit then power_limit else power_state;
  target_setpoint_watts = if limit then expected else if on then expected else 0;
  expected_output_ac_watts = expected;
  sent_millis = sent;
  power_on = on;
  completed = completed;
}

module _ {F : Type 0} ⦃fl : Float F⦄ where
  -- the part of `updateFailure` on many failures in a row
  unfoldable pub escalate : ℕ → Inverter F → Inverter F
  escalate timeouts s =
      if leb 20 timeouts
      then record s { restart_triggered = true }
      else if leb 10 timeouts
      then record s { device = (send_restart_control_request (suppress_next_request s.device)).0 }
      else s

  unfoldable pub update_failure : Env → Inverter F → Inverter F
  update_failure e s =
      let timeouts = u8 (s.update_timeouts + 1) in
      reset (
        escalate timeouts (record s {
          update_timeouts = timeouts;
          next_update_attempt_millis = some (add32 e.millis failed_update_retry_backoff_millis);
        }))

  unfoldable pub startup_from_assumed_standby : Env → Inverter F → Bool
  startup_from_assumed_standby e s =
      is_target true s.target_power_state
      && is_using_assumed_output s
      && get_current_output_ac_watts e s == 0

  -- A successful power command is recorded; in either case it is no longer in flight.
  unfoldable pub record_power_acknowledgement :
      (ok acknowledged : Bool) (expected millis : ℕ) → Inverter F → Inverter F
  record_power_acknowledgement false acknowledged expected millis s = record s {
    in_flight_power_state = none;
    in_flight_power_state_expected_output = none;
  }
  record_power_acknowledgement true acknowledged expected millis s =
      let recorded =
        record_target_dispatch_event (event false expected millis acknowledged true)
          (record_successful_target_command millis expected false s) in
      record recorded {
        in_flight_power_state = none;
        in_flight_power_state_expected_output = none;
        target_power_state =
            if is_target acknowledged s.target_power_state then none else s.target_power_state;
      }

  -- `switchPowerState` where a command in flight was replied to; the second part tells whether the
  -- lambda goes on.
  unfoldable pub power_state_acknowledged :
      Env → (transition_on ok : Bool) → Inverter F → Inverter F × Bool
  power_state_acknowledged e on ok s =
      let acknowledged = value_or s.in_flight_power_state (value_or s.target_power_state false) in
      let expected = value_or s.in_flight_power_state_expected_output s.expected_output_ac_watts in
      let s' =
        record_power_acknowledgement ok acknowledged expected
          s.device.power_command.last_update_command s in
      if not ok
      then (s', true)
      else if not (has_value s'.target_power_state)
      then (s', false)
      else (record s' { update_start_millis = some e.millis }, is_target on s'.target_power_state)

  -- The reply came after the update began, and belongs to a command of this object.
  unfoldable pub power_reply_arrived : Inverter F → Bool
  power_reply_arrived s =
      let last = s.device.power_command.last_update_command in
      ltb 0 last
      && millis_at_or_after last (value_or s.update_start_millis 0)
      && has_value s.in_flight_power_state

  unfoldable pub acknowledge_power_state :
      Env → (transition_on : Bool) → Inverter F → Inverter F × Bool
  acknowledge_power_state e on s =
      if power_reply_arrived s
      then power_state_acknowledged e on (is_ok s.device.power_command.last_power_command_success) s
      else (s, true)

  -- is a power command needed to reach the target `on`?
  unfoldable pub should_send_power_state : Env → Bool → Inverter F → Bool
  should_send_power_state e on s =
      not (same (is_producing e s) on)
      || (is_battery_powered s
          && not on
          && (ltb 0 (get_current_output_ac_watts e s)
              || ltb 0 (get_expected_output_ac_watts e s)
              || is_using_assumed_output s))
      || s.force_power_state_command
      || (on && startup_from_assumed_standby e s)

  -- the request, and what is recorded of it if it was queued
  unfoldable pub dispatch_power_state : Bool → Inverter F → Inverter F
  dispatch_power_state on s =
      let (d, queued) = send_power_control_request on true (suppress_next_request s.device) in
      let s' = record s { device = d } in
      if not queued
      then s'
      else record_target_dispatch_event (event false s.expected_output_ac_watts 0 on false)
          (record s' {
            in_flight_power_state = some on;
            in_flight_power_state_expected_output = some s.expected_output_ac_watts;
          })

  -- `switchPowerState` from there on, where the target is `on`
  unfoldable pub reach_power_state :
      Env → (allow_new_dispatch on : Bool) → Inverter F → Inverter F × Bool
  reach_power_state e allow on s =
      if should_send_power_state e on s
      then if not allow then (s, true) else (dispatch_power_state on s, true)
      else (record s { target_power_state = none }, false)

  unfoldable pub switch_power_state :
      Env → (allow_new_dispatch transition_on : Bool) → Inverter F → Inverter F × Bool
  switch_power_state e allow on s =
      if not (is_target on s.target_power_state)
      then (s, false)
      else if is_pending s.device.power_command.last_power_command_success
      then (s, true)
      else let (s', goes_on) = acknowledge_power_state e on s in
        if not goes_on then (s', false) else reach_power_state e allow on s'
