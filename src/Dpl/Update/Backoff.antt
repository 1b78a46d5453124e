-- ===== src/Dpl/Update/Backoff.antt =====
-- Failed and timed-out updates: the counter, the escalation and the pause before the next attempt.
use flux_dtu.Base.{
  ℕ, ◌+◌, ◌≤◌, ◌<◌, ◌≡◌, refl, Bool, true, false, Option, none, some, arith, has_value, value_or,
  u8, add32, sub32, leb, ltb, ◌&&◌, ◌||◌, if◌then◌else◌,
}
use flux_dtu.Float.{Float}
use flux_dtu.Hoymiles.Device.{cmd_nok, is_pending}
use flux_dtu.Hoymiles.Device.Requests.{restarts, is_restart, send_restart_control_request_count}
use flux_dtu.Dpl.Clock.{millis_at_or_after}
use flux_dtu.Dpl.State.{Inverter, Env}
use flux_dtu.Dpl.Readings.{get_eligibility, eligible, in_command_backoff, is_eligible}
use flux_dtu.Dpl.Targets.{reset}
use flux_dtu.Dpl.PowerState.{
  escalate, update_failure, switch_power_state, failed_update_retry_backoff_millis,
}
use flux_dtu.Dpl.Update.{
  finish_cycle, update_cycle, update_requested, update_limit, limit_reply_arrived,
  limit_acknowledged, after_limit_acknowledgement, update_eligible, update, update_timeout_millis,
}

-- the time of the next attempt after a failure at the time of `e`
abbrev retry_at : Env → Option ℕ
retry_at e = some (add32 e.millis failed_update_retry_backoff_millis)

module _ {F : Type 0} ⦃fl : Float F⦄ where
  escalate_keeps :
      (timeouts : ℕ) (s : Inverter F)
      → let s' = escalate timeouts s in
        (s'.update_timeouts ≡ s.update_timeouts)
        × (s'.next_update_attempt_millis ≡ s.next_update_attempt_millis)
  unfolding escalate
  escalate_keeps timeouts s = ground arith

  escalate_effect :
      (timeouts : ℕ) (s : Inverter F)
      → let s' = escalate timeouts s in
        (s'.restart_triggered ≡ (leb 20 timeouts || s.restart_triggered))
        × (restarts s'.device
            ≡ restarts s.device
              + (if leb 10 timeouts && ltb timeouts 20 && s.device.enable_commands then 1 else 0))
  unfolding escalate
  escalate_effect timeouts s =
      ground (arith, send_restart_control_request_count is_restart s.device)

  -- An update that is still pending after 30 s is given up: `update` answers `false`, the counter of
  -- such updates grows by one, modulo 256, and the next attempt is put off by 3 s. The controller is
  -- restarted exactly where the counter is now 20 or more; a restart command for the inverter is
  -- queued exactly where it is at least 10 and below 20, and commands are enabled. This is for an
  -- eligible inverter with a power state as its target.
  pub update_timed_out :
      (e : Env) (allow : Bool) (s : Inverter F) {start : ℕ}
      → get_eligibility e s ≡ eligible
      → has_value s.target_power_state ≡ true
      → s.update_start_millis ≡ some start
      → update_timeout_millis < sub32 e.millis start
      → let s' = (update e allow s).0 in
        let timeouts = u8 (s.update_timeouts + 1) in
        ((update e allow s).1 ≡ false)
        × (s'.update_timeouts ≡ timeouts)
        × (s'.next_update_attempt_millis ≡ some (add32 e.millis failed_update_retry_backoff_millis))
        × (s'.restart_triggered ≡ (leb 20 timeouts || s.restart_triggered))
        × (restarts s'.device
            ≡ restarts s.device
              + (if leb 10 timeouts && ltb timeouts 20 && s.device.enable_commands then 1 else 0))
  unfolding update update_eligible update_requested update_failure reset
  update_timed_out e allow s h1 h2 h3 h4 =
      let timeouts = u8 (s.update_timeouts + 1) in
      let s1 = record s {
        update_start_millis = some (value_or s.update_start_millis e.millis);
        update_timeouts = timeouts;
        next_update_attempt_millis = retry_at e;
      } in
      ground (arith, escalate_effect timeouts s1, escalate_keeps timeouts s1)

  -- For 3 s after a failed update the inverter is not eligible.
  pub update_failure-not_eligible :
      (e e' : Env) (s : Inverter F) (d : ℕ)
      → e.millis < 4_294_967_296
      → d < failed_update_retry_backoff_millis
      → e'.millis ≡ add32 e.millis d
      → is_eligible e' (update_failure e s) ≡ false
  unfolding is_eligible get_eligibility update_failure escalate reset in_command_backoff
      millis_at_or_after
  update_failure-not_eligible e e' s d h1 h2 h3 = ground arith

  update_limit_failed :
      (e : Env) (allow : Bool) (s : Inverter F)
      → has_value s.target_power_limit_watts ≡ true
      → s.device.system_config_para.last_limit_command_success ≡ cmd_nok
      → limit_reply_arrived s ≡ true
      → let s' = (update_limit e allow s).0 in
        ((update_limit e allow s).1 ≡ false)
        × (s'.next_update_attempt_millis ≡ retry_at e)
        × (s'.target_power_state ≡ none)
  unfolding update_limit limit_acknowledged after_limit_acknowledgement update_failure escalate
      reset
  update_limit_failed e allow s h1 h2 h3 = ground arith

  pub switch_power_state-no_target :
      (e : Env) (allow on : Bool) (s : Inverter F)
      → s.target_power_state ≡ none
      → switch_power_state e allow on s ≡ (s, false)
  unfolding switch_power_state
  switch_power_state-no_target e allow on s h = rw h

  finish_cycle-no_target :
      (e : Env) (allow : Bool) (s : Inverter F)
      → s.target_power_state ≡ none
      → let s' = (finish_cycle e allow false s).0 in
        ((finish_cycle e allow false s).1 ≡ false)
        × (s'.update_timeouts ≡ 0)
        × (s'.next_update_attempt_millis ≡ s.next_update_attempt_millis)
  unfolding finish_cycle reset
  finish_cycle-no_target e allow s h =
      rw (switch_power_state-no_target e allow true s h) (refl, refl, refl)

  update_cycle-failed_limit :
      (e : Env) (allow : Bool) (s : Inverter F)
      → s.target_power_state ≡ none
      → has_value s.target_power_limit_watts ≡ true
      → s.device.system_config_para.last_limit_command_success ≡ cmd_nok
      → limit_reply_arrived s ≡ true
      → let s' = (update_cycle e allow s).0 in
        ((update_cycle e allow s).1 ≡ false)
        × (s'.update_timeouts ≡ 0)
        × (s'.next_update_attempt_millis ≡ retry_at e)
  unfolding update_cycle
  update_cycle-failed_limit e allow s h1 h2 h3 h4 =
      let (answer, retry, target) = update_limit_failed e allow s h2 h3 h4 in
      rw (switch_power_state-no_target e allow false s h1, answer)
        (ground (arith, finish_cycle-no_target e allow (update_limit e allow s).0))

  -- When the reply to a limit command reports a failure, `updateFailure` counts it, but the rest of
  -- the same call resets the counter: after the call it is 0, whatever it was, and the next attempt
  -- is put off by 3 s. So failed limit commands never add up to an escalation. This is for an
  -- eligible inverter with a limit and no power state as its target, no unanswered power command,
  -- and an update that has not timed out.
  pub update-failed_limit :
      (e : Env) (allow : Bool) (s : Inverter F) {start : ℕ}
      → get_eligibility e s ≡ eligible
      → s.target_power_state ≡ none
      → has_value s.target_power_limit_watts ≡ true
      → is_pending s.device.power_command.last_power_command_success ≡ false
      → s.update_start_millis ≡ some start
      → sub32 e.millis start ≤ update_timeout_millis
      → s.device.system_config_para.last_limit_command_success ≡ cmd_nok
      → limit_reply_arrived s ≡ true
      → let s' = (update e allow s).0 in
        ((update e allow s).1 ≡ false)
        × (s'.update_timeouts ≡ 0)
        × (s'.next_update_attempt_millis ≡ some (add32 e.millis failed_update_retry_backoff_millis))
  unfolding update update_eligible update_requested limit_reply_arrived
  update-failed_limit e allow s h1 h2 h3 h4 h5 h6 h7 h8 =
      let s' = record s { update_start_millis = some (value_or s.update_start_millis e.millis) } in
      ground (arith, update_cycle-failed_limit e allow s' h2 h3 h7)
