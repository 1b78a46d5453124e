-- ===== src/Dpl/Update/Progress.antt =====
-- How an update goes on: the reply to a limit command, the assumption that follows from it, and the
-- order of the limit and the start.
use flux_dtu.Base.{
  ℕ, ◌≤◌, ◌≡◌, refl, Bool, true, false, none, some, arith, has_value, value_or, add32, sub32,
  if◌then◌else◌,
}
use flux_dtu.Float.{Float}
use flux_dtu.Hoymiles.Device.{cmd_ok, cmd_pending, is_pending}
use flux_dtu.Dpl.State.{Inverter, Env}
use flux_dtu.Dpl.Readings.{
  get_eligibility, eligible, is_using_assumed_output, is_using_restored_state,
  has_stats_at_or_after, get_current_output_ac_watts, get_measured_output_ac_watts,
}
use flux_dtu.Dpl.Targets.{
  record_target_dispatch_event, record_successful_target_command, reset,
  target_effect_assumption_millis,
}
use flux_dtu.Dpl.PowerState.{switch_power_state}
use flux_dtu.Dpl.Update.{
  finish_cycle, update_cycle, update_requested, update_limit, limit_reply_arrived,
  limit_acknowledged, record_limit_acknowledgement, after_limit_acknowledgement,
  parallel_startup_allowed, update_eligible, update, update_timeout_millis,
}
use flux_dtu.Dpl.Update.Backoff.{switch_power_state-no_target}

module _ {F : Type 0} ⦃fl : Float F⦄ where
  -- After a command that succeeded, its expected output counts as the current output until
  -- telemetry arrives that was taken 2 s after the command or later; from then on the measured
  -- output counts. A restored state no longer does.
  pub assumed_output_until_settled :
      (e : Env) (millis watts : ℕ) (s : Inverter F)
      → let s' = record_successful_target_command millis watts false s in
        let settled = has_stats_at_or_after s (add32 millis target_effect_assumption_millis) in
        get_current_output_ac_watts e s'
        ≡ (if settled then get_measured_output_ac_watts s else watts)
  unfolding record_successful_target_command get_current_output_ac_watts is_using_assumed_output
      is_using_restored_state has_stats_at_or_after get_measured_output_ac_watts
  assumed_output_until_settled e millis watts s = ground arith

  update_limit_succeeded :
      (e : Env) (allow : Bool) (s : Inverter F) {w : ℕ}
      → s.target_power_limit_watts ≡ some w
      → s.in_flight_power_limit_watts ≡ some w
      → s.target_power_state ≡ none
      → s.device.system_config_para.last_limit_command_success ≡ cmd_ok
      → limit_reply_arrived s ≡ true
      → let s' = (update_limit e allow s).0 in
        ((update_limit e allow s).1 ≡ false)
        × (s'.target_power_state ≡ none)
        × (s'.next_update_attempt_millis ≡ none)
        × (s'.restored_limit_millis ≡ none)
        × (s'.assumed_output_ac_watts
            ≡ some (value_or s.in_flight_power_limit_expected_output s.expected_output_ac_watts))
  unfolding update_limit limit_acknowledged after_limit_acknowledgement record_limit_acknowledgement
      record_target_dispatch_event record_successful_target_command
  update_limit_succeeded e allow s h1 h2 h3 h4 h5 = ground arith

  finish_cycle-idle :
      (e : Env) (allow : Bool) (s : Inverter F)
      → s.target_power_state ≡ none
      → finish_cycle e allow false s ≡ (reset (record s { update_timeouts = 0 }), false)
  unfolding finish_cycle
  finish_cycle-idle e allow s h = rw (switch_power_state-no_target e allow true s h)

  update_cycle-limit_succeeded :
      (e : Env) (allow : Bool) (s : Inverter F) {w : ℕ}
      → s.target_power_limit_watts ≡ some w
      → s.in_flight_power_limit_watts ≡ some w
      → s.target_power_state ≡ none
      → s.device.system_config_para.last_limit_command_success ≡ cmd_ok
      → limit_reply_arrived s ≡ true
      → let s' = (update_cycle e allow s).0 in
        ((update_cycle e allow s).1 ≡ false)
        × (s'.update_timeouts ≡ 0)
        × (s'.next_update_attempt_millis ≡ none)
        × (s'.restored_limit_millis ≡ none)
        × (s'.assumed_output_ac_watts
            ≡ some (value_or s.in_flight_power_limit_expected_output s.expected_output_ac_watts))
  unfolding update_cycle reset
  update_cycle-limit_succeeded e allow s h1 h2 h3 h4 h5 =
      let (answer, state, retry, limit, assumed) =
        update_limit_succeeded e allow s h1 h2 h3 h4 h5 in
      let s2 = (update_limit e allow s).0 in
      rw
        (
          switch_power_state-no_target e allow false s h3,
          answer,
          finish_cycle-idle e allow s2 state,
        )
        (refl, refl, retry, limit, assumed)

  -- The reply that a limit command succeeded ends the update: `update` answers `false`, the failure
  -- counter is 0, no pause is kept, a restored limit is given up, and the command's expected output
  -- is assumed to be the current output. This is for an eligible inverter with no power state as
  -- its target and no unanswered power command, whose target limit is the one in flight, and an
  -- update that has not timed out.
  pub update-limit_succeeded :
      (e : Env) (allow : Bool) (s : Inverter F) {w start : ℕ}
      → get_eligibility e s ≡ eligible
      → s.target_power_limit_watts ≡ some w
      → s.in_flight_power_limit_watts ≡ some w
      → s.target_power_state ≡ none
      → is_pending s.device.power_command.last_power_command_success ≡ false
      → s.update_start_millis ≡ some start
      → sub32 e.millis start ≤ update_timeout_millis
      → s.device.system_config_para.last_limit_command_success ≡ cmd_ok
      → limit_reply_arrived s ≡ true
      → let s' = (update e allow s).0 in
        ((update e allow s).1 ≡ false)
        × (s'.update_timeouts ≡ 0)
        × (s'.next_update_attempt_millis ≡ none)
        × (s'.restored_limit_millis ≡ none)
        × (s'.assumed_output_ac_watts
            ≡ some (value_or s.in_flight_power_limit_expected_output s.expected_output_ac_watts))
  unfolding update update_eligible update_requested limit_reply_arrived
  update-limit_succeeded e allow s h1 h2 h3 h4 h5 h6 h7 h8 h9 =
      let s' = record s { update_start_millis = some (value_or s.update_start_millis e.millis) } in
      ground (arith, update_cycle-limit_succeeded e allow s' h2 h3 h4 h8)

  update_cycle-waits :
      (e : Env) (allow : Bool) (s : Inverter F)
      → s.target_power_state ≡ some true
      → has_value s.target_power_limit_watts ≡ true
      → s.device.system_config_para.last_limit_command_success ≡ cmd_pending
      → parallel_startup_allowed e s ≡ false
      → update_cycle e allow s ≡ (s, true)
  unfolding update_cycle switch_power_state update_limit
  update_cycle-waits e allow s h1 h2 h3 h4 = ground arith

  -- A start waits for the limit: while the limit command is unanswered, `update` answers `true` and
  -- sends nothing, though the inverter is to be started, unless a start in parallel is allowed. This
  -- is for an eligible inverter and an update that has not timed out.
  pub start_waits_for_limit :
      (e : Env) (allow : Bool) (s : Inverter F) {start : ℕ}
      → get_eligibility e s ≡ eligible
      → s.target_power_state ≡ some true
      → has_value s.target_power_limit_watts ≡ true
      → s.update_start_millis ≡ some start
      → sub32 e.millis start ≤ update_timeout_millis
      → s.device.system_config_para.last_limit_command_success ≡ cmd_pending
      → parallel_startup_allowed e s ≡ false
      → update e allow s ≡ (s, true)
  unfolding update update_eligible update_requested
  start_waits_for_limit e allow s h1 h2 h3 h4 h5 h6 h7 =
      ground (arith, update_cycle-waits e allow s h2 h3 h6 h7)
