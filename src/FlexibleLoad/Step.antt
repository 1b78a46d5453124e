-- ===== src/FlexibleLoad/Step.antt =====
-- src/FlexibleLoad.cpp: `loopLoad`, one round for one load, and `loop`, one for all of them.
use flux_dtu.Base.{Bool, ◌&&◌, ◌||◌, not, ◌==◌, if◌then◌else◌}
use flux_dtu.Float.{Float}
use flux_dtu.FlexibleLoad.State.{
  LoadState, disabled, off, waiting_for_start, starting, running_min_time, running, cooldown,
  no_reason, battery_soc, not_blocked, power_limiter_disabled, load_disabled, mqtt_topic_missing,
  start_delay, start_slot_busy, cooling_down, emergency_stop, StopReason, emergency_grid_power,
  battery_support_budget_exhausted, grid_power_above_stop_limit, Runtime,
}
use flux_dtu.FlexibleLoad.Power.{should_stop_for_grid_charger_limit, should_stop_for_grid_power}
use flux_dtu.FlexibleLoad.Commands.{
  is_empty, has_passed, is_running, set_state, can_publish, publish_periodic_command, stop_load,
  reset_run_accounting, start_load,
}
use flux_dtu.FlexibleLoad.Judgement.{
  Turn, get_start_block_reason, handle_bms_charge_current_limit_stop,
  handle_grid_charger_limit_stop, has_battery_support_budget_exceeded, has_start_reason,
  is_battery_soc, is_bms_stop_candidate, is_idle_state, is_waiting, update_battery_support_energy,
}

module _ {F : Type 0} ⦃fl : Float F⦄ where
  unfoldable pub loop_disabled : Turn F → Runtime F → Runtime F
  loop_disabled t rt =
      let e = t.readings in
      let rt' = if is_running rt then stop_load e StopReason.load_disabled t.config rt else rt in
      if is_running rt && not (can_publish e t.config)
      then rt'
      else set_state e disabled (record (reset_run_accounting rt') {
        current_start_block_reason =
            if not e.power_limiter_enabled
            then power_limiter_disabled
            else if not t.config.enabled
            then load_disabled
            else mqtt_topic_missing;
      })

  unfoldable pub loop_emergency : Turn F → Runtime F → Runtime F
  loop_emergency t rt =
      let e = t.readings in
      let rt' : Runtime F = record rt {
        current_start_block_reason = emergency_stop;
        start_candidate_since = 0;
        start_candidate_reason = no_reason;
        stop_candidate_since = 0;
        grid_charger_limit_stop_candidate_since = 0;
        bms_charge_limit_stop_candidate_since = 0;
      } in
      if is_running rt
      then stop_load e emergency_grid_power t.config rt'
      else publish_periodic_command e t.config
          (if is_waiting rt.current_state then set_state e off rt' else rt')

  -- The load is to start as soon as its delay has passed and a start is free.
  unfoldable pub is_start_due : Turn F → Runtime F → Bool
  is_start_due t rt =
      has_start_reason t.readings t.config
      && not (rt.start_candidate_since == 0)
      && is_battery_soc rt.start_candidate_reason
      && has_passed t.readings.now rt.start_candidate_since t.config.start_delay

  unfoldable pub loop_idle : Turn F → Runtime F → Runtime F
  loop_idle t rt =
      let e = t.readings in
      let c = t.config in
      let blocked : Runtime F = record rt {
        current_start_block_reason = get_start_block_reason e c;
      } in
      if not (has_start_reason e c)
      then publish_periodic_command e c (
          set_state e off
            (record blocked { start_candidate_since = 0; start_candidate_reason = no_reason }))
      else if rt.start_candidate_since == 0 || not (is_battery_soc rt.start_candidate_reason)
      then publish_periodic_command e c (
          set_state e waiting_for_start (record blocked {
            start_candidate_since = e.now;
            start_candidate_reason = battery_soc;
            current_start_block_reason = start_delay;
          }))
      else if not (has_passed e.now rt.start_candidate_since c.start_delay)
      then (record blocked { current_start_block_reason = start_delay })
      else if not t.can_start
      then publish_periodic_command e c
          (record blocked { current_start_block_reason = start_slot_busy })
      else start_load e battery_soc c blocked

  unfoldable pub loop_starting : Turn F → Runtime F → Runtime F
  loop_starting t rt =
      let e = t.readings in
      let c = t.config in
      let open_rt : Runtime F = record rt { current_start_block_reason = not_blocked } in
      let next =
        if has_passed e.now rt.load_started_millis c.min_runtime
        then running
        else running_min_time in
      publish_periodic_command e c (
        if not (has_passed e.now rt.load_started_millis c.startup_grace)
        then open_rt
        else set_state e next (record open_rt { last_battery_energy_update = e.now }))

  -- the load after its energy was counted, where it runs
  unfoldable pub accounted : Turn F → Runtime F → Runtime F
  accounted t rt =
      update_battery_support_energy t (record rt { current_start_block_reason = not_blocked })

  unfoldable pub loop_running_min_time : Turn F → Runtime F → Runtime F
  loop_running_min_time t rt =
      let e = t.readings in
      let rt1 = accounted t rt in
      let rt2 = handle_bms_charge_current_limit_stop t rt1 in
      let rt3 = handle_grid_charger_limit_stop t rt2 in
      publish_periodic_command e t.config (
        if is_bms_stop_candidate t rt1
        then rt2
        else if should_stop_for_grid_charger_limit e t.config
        then rt3
        else if has_passed e.now rt.load_started_millis t.config.min_runtime
        then set_state e running (record rt3 { stop_candidate_since = 0 })
        else rt3)

  unfoldable pub loop_grid_power : Turn F → Runtime F → Runtime F
  loop_grid_power t rt =
      let e = t.readings in
      if not (should_stop_for_grid_power e t.config t.measured t.load_sum)
      then publish_periodic_command e t.config (record rt { stop_candidate_since = 0 })
      else if rt.stop_candidate_since == 0
      then publish_periodic_command e t.config (record rt { stop_candidate_since = e.now })
      else if has_passed e.now rt.stop_candidate_since t.config.stop_delay
      then stop_load e grid_power_above_stop_limit t.config rt
      else publish_periodic_command e t.config rt

  unfoldable pub loop_running : Turn F → Runtime F → Runtime F
  loop_running t rt =
      let e = t.readings in
      let rt1 = accounted t rt in
      let rt2 = handle_bms_charge_current_limit_stop t rt1 in
      let rt3 = handle_grid_charger_limit_stop t rt2 in
      if is_bms_stop_candidate t rt1
      then publish_periodic_command e t.config rt2
      else if has_battery_support_budget_exceeded t.config rt2
      then stop_load e battery_support_budget_exhausted t.config rt2
      else if should_stop_for_grid_charger_limit e t.config
      then publish_periodic_command e t.config rt3
      else loop_grid_power t rt3

  unfoldable pub loop_cooldown : Turn F → Runtime F → Runtime F
  loop_cooldown t rt =
      let e = t.readings in
      let open_rt : Runtime F = record rt { current_start_block_reason = cooling_down } in
      publish_periodic_command e t.config (
        if has_passed e.now rt.state_changed_millis t.config.min_off_time
        then set_state e off (reset_run_accounting open_rt)
        else open_rt)

  -- the switch
  unfoldable pub loop_state : LoadState → Turn F → Runtime F → Runtime F
  loop_state disabled t rt = loop_idle t rt
  loop_state off t rt = loop_idle t rt
  loop_state waiting_for_start t rt = loop_idle t rt
  loop_state starting t rt = loop_starting t rt
  loop_state running_min_time t rt = loop_running_min_time t rt
  loop_state running t rt = loop_running t rt
  loop_state cooldown t rt = loop_cooldown t rt

  abbrev pub is_off_duty : Turn F → Bool
  is_off_duty t =
      not t.readings.power_limiter_enabled || not t.config.enabled || is_empty t.config.mqtt_topic

  -- the runtime after `loopLoad`
  unfoldable pub loop_load : Turn F → Runtime F → Runtime F
  loop_load t rt =
      if is_off_duty t
      then loop_disabled t rt
      else if t.readings.is_emergency_stop_active
      then loop_emergency t rt
      else loop_state rt.current_state t rt

  -- what `loopLoad` returns: whether it started the load
  unfoldable pub is_started : Turn F → Runtime F → Bool
  is_started t rt =
      not (is_off_duty t)
      && not t.readings.is_emergency_stop_active
      && is_idle_state rt.current_state
      && is_start_due t rt
      && t.can_start
      && can_publish t.readings t.config
