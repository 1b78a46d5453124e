-- ===== src/FlexibleLoad/States.antt =====
-- The state that each part of a round leaves a load in.
use flux_dtu.Base.{◌≡◌, refl, true, false, ◌&&◌, ◌||◌, not, arith, ◌==◌, if◌then◌else◌, ◌⊎◌}
use flux_dtu.Float.{Float}
use flux_dtu.FlexibleLoad.State.{
  off, waiting_for_start, starting, cooldown, StartReason, StartBlockReason, StopReason, LoadConfig,
  Readings, Runtime,
}
use flux_dtu.FlexibleLoad.Commands.{
  has_passed, set_state, can_publish, publish_command, publish_periodic_command,
  get_periodic_command_payload, stop_load, stopped, start_load, started, reset_run_accounting,
  is_running,
}
use flux_dtu.FlexibleLoad.Command.{publish_if-state}
use flux_dtu.FlexibleLoad.Judgement.{
  Turn, update_battery_support_energy, handle_grid_charger_limit_stop,
  handle_bms_charge_current_limit_stop, get_start_block_reason, has_start_reason, is_battery_soc,
  is_waiting,
}
use flux_dtu.FlexibleLoad.Step.{
  accounted, is_off_duty, loop_state, loop_load, loop_disabled, loop_emergency, loop_idle,
  loop_running, loop_grid_power,
}

module _ {F : Type 0} where
  pub publish_periodic_command-state :
      (e : Readings F) (c : LoadConfig F) (rt : Runtime F)
      → (publish_periodic_command e c rt).current_state ≡ rt.current_state
  unfolding publish_periodic_command
  publish_periodic_command-state e c rt =
      publish_if-state (get_periodic_command_payload rt.current_state) e c rt

  pub stop_load-state :
      (e : Readings F) (reason : StopReason) (c : LoadConfig F) (rt : Runtime F)
      → (stop_load e reason c rt).current_state
        ≡ (if can_publish e c then cooldown else rt.current_state)
  unfolding stop_load stopped set_state publish_command
  stop_load-state e reason c rt = ground arith

module _ {F : Type 0} ⦃fl : Float F⦄ where
  pub start_load-state :
      (e : Readings F) (why : StartReason) (c : LoadConfig F) (rt : Runtime F)
      → (start_load e why c rt).current_state
        ≡ (if can_publish e c then starting else rt.current_state)
  unfolding start_load started set_state publish_command reset_run_accounting
  start_load-state e why c rt = ground arith

  pub handle_grid-state :
      (t : Turn F) (rt : Runtime F)
      → ((handle_grid_charger_limit_stop t rt).current_state ≡ rt.current_state)
        ⊎ ((handle_grid_charger_limit_stop t rt).current_state ≡ cooldown)
  unfolding handle_grid_charger_limit_stop
  handle_grid-state t rt =
      ground (arith, stop_load-state t.readings StopReason.grid_charger_power_limited t.config rt)

  pub handle_bms-state :
      (t : Turn F) (rt : Runtime F)
      → ((handle_bms_charge_current_limit_stop t rt).current_state ≡ rt.current_state)
        ⊎ ((handle_bms_charge_current_limit_stop t rt).current_state ≡ cooldown)
  unfolding handle_bms_charge_current_limit_stop
  handle_bms-state t rt =
      ground
        (arith, stop_load-state t.readings StopReason.bms_charge_current_below_limit t.config rt)

  pub loop_emergency-state :
      (t : Turn F) (rt : Runtime F)
      → (loop_emergency t rt).current_state ≡ (
          if is_running rt
          then if can_publish t.readings t.config then cooldown else rt.current_state
          else if is_waiting rt.current_state
          then off
          else rt.current_state)
  unfolding loop_emergency set_state
  loop_emergency-state t rt =
      let rt' : Runtime F = record rt {
        current_start_block_reason = StartBlockReason.emergency_stop;
        start_candidate_since = 0;
        start_candidate_reason = StartReason.no_reason;
        stop_candidate_since = 0;
        grid_charger_limit_stop_candidate_since = 0;
        bms_charge_limit_stop_candidate_since = 0;
      } in
      ground (
        arith,
        stop_load-state t.readings StopReason.emergency_grid_power t.config rt',
        publish_periodic_command-state t.readings t.config
            (if is_waiting rt.current_state then set_state t.readings off rt' else rt'),
      )

  pub loop_grid_power-state :
      (t : Turn F) (rt : Runtime F)
      → ((loop_grid_power t rt).current_state ≡ rt.current_state)
        ⊎ ((loop_grid_power t rt).current_state ≡ cooldown)
  unfolding loop_grid_power
  loop_grid_power-state t rt =
      let e = t.readings in
      let c = t.config in
      ground (
        arith,
        stop_load-state e StopReason.grid_power_above_stop_limit c rt,
        publish_periodic_command-state e c rt,
        publish_periodic_command-state e c (record rt { stop_candidate_since = 0 }),
        publish_periodic_command-state e c (record rt { stop_candidate_since = e.now }),
      )

  pub accounted-state :
      (t : Turn F) (rt : Runtime F) → (accounted t rt).current_state ≡ rt.current_state
  unfolding accounted update_battery_support_energy
  accounted-state t rt = refl

  pub loop_running-state :
      (t : Turn F) (rt : Runtime F)
      → ((loop_running t rt).current_state ≡ rt.current_state)
        ⊎ ((loop_running t rt).current_state ≡ cooldown)
  unfolding loop_running
  loop_running-state t rt =
      let e = t.readings in
      let c = t.config in
      let rt1 = accounted t rt in
      let rt2 = handle_bms_charge_current_limit_stop t rt1 in
      let rt3 = handle_grid_charger_limit_stop t rt2 in
      ground (
        arith,
        accounted-state t rt,
        handle_bms-state t rt1,
        handle_grid-state t rt2,
        publish_periodic_command-state e c rt2,
        publish_periodic_command-state e c rt3,
        stop_load-state e StopReason.battery_support_budget_exhausted c rt2,
        loop_grid_power-state t rt3,
      )

  pub loop_idle-state :
      (t : Turn F) (rt : Runtime F)
      → (loop_idle t rt).current_state ≡ (
          if not (has_start_reason t.readings t.config)
          then off
          else if rt.start_candidate_since == 0 || not (is_battery_soc rt.start_candidate_reason)
          then waiting_for_start
          else if has_passed t.readings.now rt.start_candidate_since t.config.start_delay
              && t.can_start
              && can_publish t.readings t.config
          then starting
          else rt.current_state)
  unfolding loop_idle set_state
  loop_idle-state t rt =
      let e = t.readings in
      let c = t.config in
      let blocked : Runtime F = record rt {
        current_start_block_reason = get_start_block_reason e c;
      } in
      let state = λ (x : Runtime F). publish_periodic_command-state e c x in
      ground (
        arith,
        state (
            set_state e off (record blocked {
              start_candidate_since = 0;
              start_candidate_reason = StartReason.no_reason;
            })),
        state (
            set_state e waiting_for_start (record blocked {
              start_candidate_since = e.now;
              start_candidate_reason = StartReason.battery_soc;
              current_start_block_reason = StartBlockReason.start_delay;
            })),
        state (record blocked { current_start_block_reason = StartBlockReason.start_slot_busy }),
        start_load-state e StartReason.battery_soc c blocked,
      )

  pub loop_load-off_duty :
      (t : Turn F) (rt : Runtime F) → is_off_duty t ≡ true → loop_load t rt ≡ loop_disabled t rt
  unfolding loop_load
  loop_load-off_duty t rt p = rw p refl

  pub loop_load-emergency :
      (t : Turn F) (rt : Runtime F)
      → is_off_duty t ≡ false
      → t.readings.is_emergency_stop_active ≡ true
      → loop_load t rt ≡ loop_emergency t rt
  unfolding loop_load
  loop_load-emergency t rt p q = rw (p, q) refl

  pub loop_load-state :
      (t : Turn F) (rt : Runtime F)
      → is_off_duty t ≡ false
      → t.readings.is_emergency_stop_active ≡ false
      → loop_load t rt ≡ loop_state rt.current_state t rt
  unfolding loop_load
  loop_load-state t rt p q = rw (p, q) refl
