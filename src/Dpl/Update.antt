-- ===== src/Dpl/Update.antt =====
-- `PowerLimiterInverter::update`: one round of the state machine that brings the inverter to its
-- target state. Each lambda of the source is a function; a pair's second part is the value that
-- the lambda, or `update`, returns. The counter `millis()` does not advance within one call.
pub mod Idle
pub mod Progress
pub mod Backoff
pub mod Commands
pub mod Consistency
use flux_dtu.Base.{
  ℕ, ◌+◌, ◌*◌, ◌/◌, Bool, true, false, ◌&&◌, ◌||◌, not, Option, none, some, ltb, leb, ◌==◌,
  if◌then◌else◌, has_value, value_or, same, u8, add32, sub32,
}
use flux_dtu.Float.{Float}
use flux_dtu.Hoymiles.Device.{
  is_pending, is_ok, relativ_non_persistent, suppress_next_request,
  send_active_power_control_request, send_power_control_request, send_restart_control_request,
}
use flux_dtu.Dpl.Clock.{millis_at_or_after}
use flux_dtu.Dpl.State.{Inverter, TargetDispatchEvent, power_limit, power_state, Env}
use flux_dtu.Dpl.Readings.{
  Eligibility, current_limit_unknown, eligible, is_battery_powered, is_using_assumed_output,
  has_restored_limit_pending_feedback, get_inverter_max_power_watts, is_producing,
  get_current_output_ac_watts, get_expected_output_ac_watts, get_eligibility,
}
use flux_dtu.Dpl.Targets.{record_target_dispatch_event, record_successful_target_command, reset}
use flux_dtu.Dpl.PowerState.{
  event, is_target, startup_from_assumed_standby, switch_power_state, update_failure,
}

abbrev pub update_timeout_millis : ℕ
update_timeout_millis = 30_000

abbrev is_limit : ℕ → Option ℕ → Bool
is_limit w none = false
is_limit w (some v) = v == w

module _ {F : Type 0} ⦃fl : Float F⦄ where
  -- A reply to a limit command: what is recorded of it, success or not.
  unfoldable pub record_limit_acknowledgement :
      (ok : Bool) (acknowledged expected millis : ℕ) → Inverter F → Inverter F
  record_limit_acknowledgement ok acknowledged expected millis s =
      let recorded =
        if ok
        then record_target_dispatch_event (event true expected millis false true) (
            record_successful_target_command millis expected false
              (record s { restored_limit_millis = none }))
        else s in
      record recorded {
        in_flight_power_limit_watts = none;
        in_flight_power_limit_expected_output = none;
        target_power_limit_watts =
            if is_limit acknowledged s.target_power_limit_watts
            then none
            else s.target_power_limit_watts;
      }

  unfoldable pub dispatch_limit : Env → ℕ → Inverter F → Inverter F
  dispatch_limit e target s =
      let relative =
        fl.div (fl.of_nat (target * 100)) (fl.of_nat (get_inverter_max_power_watts e s)) in
      let (d, queued) =
        send_active_power_control_request relative relativ_non_persistent
          (suppress_next_request s.device) in
      let s' = record s { device = d } in
      if not queued
      then s'
      else record_target_dispatch_event (event true s.expected_output_ac_watts 0 false false)
          (record s' {
            in_flight_power_limit_watts = some target;
            in_flight_power_limit_expected_output = some s.expected_output_ac_watts;
          })

  -- the end of `updateLimit`, where a limit is still to be sent
  unfoldable pub send_limit : Env → Bool → Inverter F → Inverter F × Bool
  send_limit e allow s =
      if not allow
      then (s, true)
      else (dispatch_limit e (value_or s.target_power_limit_watts 0) s, true)

  -- `updateLimit` after the acknowledged command
  unfoldable pub after_limit_acknowledgement :
      Env → (allow ok : Bool) → Inverter F → Inverter F × Bool
  after_limit_acknowledgement e allow ok s =
      if not ok
      then (update_failure e s, false)
      else if not (has_value s.target_power_limit_watts)
      then (s, false)
      else send_limit e allow (record s { update_start_millis = some e.millis })

  unfoldable pub limit_acknowledged : Env → (allow ok : Bool) → Inverter F → Inverter F × Bool
  limit_acknowledged e allow ok s =
      let acknowledged =
        value_or s.in_flight_power_limit_watts (value_or s.target_power_limit_watts 0) in
      let expected = value_or s.in_flight_power_limit_expected_output s.expected_output_ac_watts in
      after_limit_acknowledgement e allow ok (
        record_limit_acknowledgement ok acknowledged expected
          s.device.system_config_para.last_update_command s)

  unfoldable pub limit_reply_arrived : Inverter F → Bool
  limit_reply_arrived s =
      let last = s.device.system_config_para.last_update_command in
      ltb 0 last
      && millis_at_or_after last (value_or s.update_start_millis 0)
      && has_value s.in_flight_power_limit_watts

  unfoldable pub update_limit : Env → (allow_new_dispatch : Bool) → Inverter F → Inverter F × Bool
  update_limit e allow s =
      if not (has_value s.target_power_limit_watts)
      then (s, false)
      else if is_pending s.device.system_config_para.last_limit_command_success
      then (s, true)
      else if limit_reply_arrived s
      then limit_acknowledged e allow (is_ok s.device.system_config_para.last_limit_command_success)
          s
      else send_limit e allow s

  -- may a start command be sent while the limit command is still pending?
  unfoldable pub parallel_startup_allowed : Env → Inverter F → Bool
  parallel_startup_allowed e s =
      startup_from_assumed_standby e s
      || (s.allow_parallel_startup_commands
          && is_target true s.target_power_state
          && not (is_producing e s))

  -- the end of `update`: the start command, after the limit
  unfoldable pub finish_cycle : Env → (allow limit_pending : Bool) → Inverter F → Inverter F × Bool
  finish_cycle e allow limit_pending s =
      let (s', starting) = switch_power_state e allow true s in
      if starting
      then (s', true)
      else if limit_pending
      then (s', true)
      else (reset (record s' { update_timeouts = 0 }), false)

  -- `update` once its guards have passed: stop, then limit, then start
  unfoldable pub update_cycle : Env → Bool → Inverter F → Inverter F × Bool
  update_cycle e allow s =
      let (s1, stopping) = switch_power_state e allow false s in
      if stopping
      then (s1, true)
      else let (s2, limit_pending) = update_limit e allow s1 in
        if limit_pending && not (parallel_startup_allowed e s1)
        then (s2, true)
        else finish_cycle e allow limit_pending s2

  -- `update` from the test for a requested change on
  unfoldable pub update_requested : Env → Bool → Inverter F → Inverter F × Bool
  update_requested e allow s =
      if not (has_value s.target_power_state) && not (has_value s.target_power_limit_watts)
      then (reset s, false)
      else let start = value_or s.update_start_millis e.millis in
        let s' = record s { update_start_millis = some start } in
        if ltb update_timeout_millis (sub32 e.millis start)
        then (update_failure e s', false)
        else update_cycle e allow s'

  -- an inverter whose limit is not known is given its lower limit
  unfoldable pub bootstrap : Inverter F → Inverter F
  bootstrap s =
      if has_value s.target_power_limit_watts
      then s
      else if has_restored_limit_pending_feedback s
      then s
      else record s { target_power_limit_watts = some s.config.lower_power_limit }

  unfoldable pub update_eligible : Env → Bool → Eligibility → Inverter F → Inverter F × Bool
  update_eligible e allow eligible s = update_requested e allow s
  update_eligible e allow current_limit_unknown s = update_requested e allow (bootstrap s)
  update_eligible e allow _ s = (reset s, false)

  unfoldable pub update : Env → (allow_new_dispatch : Bool) → Inverter F → Inverter F × Bool
  update e allow s =
      if not (has_value s.target_power_state)
        && is_pending s.device.power_command.last_power_command_success
      then (s, true)
      else update_eligible e allow (get_eligibility e s) s
