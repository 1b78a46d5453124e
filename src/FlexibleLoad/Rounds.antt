-- ===== src/FlexibleLoad/Rounds.antt =====
-- The last command agrees with the state after each part of a round.
use flux_dtu.Base.{◌≡◌, true, ◌||◌, not, arith, ◌==◌, if◌then◌else◌}
use flux_dtu.Float.{Float}
use flux_dtu.FlexibleLoad.State.{
  off, starting, cooldown, StartReason, StartBlockReason, StopReason, Runtime,
}
use flux_dtu.FlexibleLoad.Commands.{
  is_running, set_state, publish_command, stopped, stop_load, reset_run_accounting, has_passed,
}
use flux_dtu.FlexibleLoad.Judgement.{
  Turn, update_battery_support_energy, handle_bms_charge_current_limit_stop, is_waiting,
  is_idle_state, get_start_block_reason, has_start_reason, is_battery_soc, is_bms_stop_candidate,
  has_battery_support_budget_exceeded,
}
use flux_dtu.FlexibleLoad.Step.{
  accounted, loop_disabled, loop_emergency, loop_idle, loop_starting, loop_grid_power, loop_running,
  loop_cooldown,
}
use flux_dtu.FlexibleLoad.Power.{should_stop_for_grid_power, should_stop_for_grid_charger_limit}
use flux_dtu.FlexibleLoad.Command.{
  Follows, publish_periodic_command-Follows, stop_load-Follows, if-Follows, start_load-Follows,
  handle_grid-Follows, handle_bms-Follows,
}

module _ {F : Type 0} ⦃fl : Float F⦄ where
  pub loop_disabled-Follows :
      (t : Turn F) (rt : Runtime F) → Follows rt → Follows (loop_disabled t rt)
  unfolding loop_disabled reset_run_accounting set_state stop_load publish_command stopped
  loop_disabled-Follows t rt p = record { agreed = ground (arith, p.agreed) }

  pub loop_cooldown-Follows :
      (t : Turn F) (rt : Runtime F)
      → rt.current_state ≡ cooldown
      → Follows rt
      → Follows (loop_cooldown t rt)
  unfolding loop_cooldown reset_run_accounting set_state
  loop_cooldown-Follows t rt s p =
      publish_periodic_command-Follows t.readings t.config _
        (record { agreed = ground (arith, s, p.agreed) })

  pub loop_emergency-Follows :
      (t : Turn F) (rt : Runtime F) → Follows rt → Follows (loop_emergency t rt)
  unfolding loop_emergency set_state
  loop_emergency-Follows t rt p =
      let rt' : Runtime F = record rt {
        current_start_block_reason = StartBlockReason.emergency_stop;
        start_candidate_since = 0;
        start_candidate_reason = StartReason.no_reason;
        stop_candidate_since = 0;
        grid_charger_limit_stop_candidate_since = 0;
        bms_charge_limit_stop_candidate_since = 0;
      } in
      let p' : Follows rt' = record { agreed = p.agreed } in
      if-Follows (is_running rt) _ _
        (stop_load-Follows t.readings StopReason.emergency_grid_power t.config rt' p')
        (publish_periodic_command-Follows t.readings t.config
          (if is_waiting rt.current_state then set_state t.readings off rt' else rt')
          (record { agreed = ground (arith, p.agreed) }))

  pub loop_idle-Follows :
      (t : Turn F) (rt : Runtime F)
      → is_idle_state rt.current_state ≡ true
      → Follows rt
      → Follows (loop_idle t rt)
  unfolding loop_idle set_state
  loop_idle-Follows t rt s p =
      let e = t.readings in
      let c = t.config in
      let blocked : Runtime F = record rt {
        current_start_block_reason = get_start_block_reason e c;
      } in
      if-Follows (not (has_start_reason e c)) _ _
        (publish_periodic_command-Follows e c _ (record { agreed = ground (arith, s, p.agreed) }))
        (if-Follows
          (rt.start_candidate_since == 0 || not (is_battery_soc rt.start_candidate_reason)) _ _
          (publish_periodic_command-Follows e c _ (record { agreed = ground (arith, s, p.agreed) }))
          (if-Follows (not (has_passed e.now rt.start_candidate_since c.start_delay)) _ _
            (record { agreed = p.agreed })
            (if-Follows (not t.can_start) _ _
              (publish_periodic_command-Follows e c _ (record { agreed = p.agreed }))
              (start_load-Follows e StartReason.battery_soc c blocked
                (record { agreed = p.agreed })))))

  pub loop_starting-Follows :
      (t : Turn F) (rt : Runtime F)
      → rt.current_state ≡ starting
      → Follows rt
      → Follows (loop_starting t rt)
  unfolding loop_starting set_state
  loop_starting-Follows t rt s p =
      publish_periodic_command-Follows t.readings t.config _
        (record { agreed = ground (arith, s, p.agreed) })

  pub accounted-Follows : (t : Turn F) (rt : Runtime F) → Follows rt → Follows (accounted t rt)
  unfolding accounted update_battery_support_energy
  accounted-Follows t rt p = record { agreed = p.agreed }

  pub loop_grid_power-Follows :
      (t : Turn F) (rt : Runtime F) → Follows rt → Follows (loop_grid_power t rt)
  unfolding loop_grid_power
  loop_grid_power-Follows t rt p =
      let e = t.readings in
      let c = t.config in
      if-Follows (not (should_stop_for_grid_power e c t.measured t.load_sum)) _ _
        (publish_periodic_command-Follows e c _ (record { agreed = p.agreed }))
        (if-Follows (rt.stop_candidate_since == 0) _ _
          (publish_periodic_command-Follows e c _ (record { agreed = p.agreed }))
          (if-Follows (has_passed e.now rt.stop_candidate_since c.stop_delay) _ _
            (stop_load-Follows e StopReason.grid_power_above_stop_limit c rt p)
            (publish_periodic_command-Follows e c rt p)))

  pub loop_running-Follows :
      (t : Turn F) (rt : Runtime F) → Follows rt → Follows (loop_running t rt)
  unfolding loop_running
  loop_running-Follows t rt p =
      let e = t.readings in
      let c = t.config in
      let rt1 = accounted t rt in
      let rt2 = handle_bms_charge_current_limit_stop t rt1 in
      let p2 = handle_bms-Follows t rt1 (accounted-Follows t rt p) in
      let p3 = handle_grid-Follows t rt2 p2 in
      if-Follows (is_bms_stop_candidate t rt1) _ _ (publish_periodic_command-Follows e c rt2 p2) (
        if-Follows (has_battery_support_budget_exceeded c rt2) _ _
          (stop_load-Follows e StopReason.battery_support_budget_exhausted c rt2 p2)
          (if-Follows (should_stop_for_grid_charger_limit e c) _ _
            (publish_periodic_command-Follows e c _ p3) (loop_grid_power-Follows t _ p3)))
