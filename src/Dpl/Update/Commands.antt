-- ===== src/Dpl/Update/Commands.antt =====
-- Which commands one call of `update` hands to the radio's `enqueCommand`.
use flux_dtu.Base.{
  ℕ, ◌+◌, ◌≤◌, ◌≡◌, refl, Bool, true, false, Option, some, arith, value_or, if◌then◌else◌, ◌*◌,
}
use flux_dtu.Float.{Float}
use flux_dtu.Hoymiles.Device.{Device, relativ_non_persistent, is_ok}
use flux_dtu.Hoymiles.Device.Requests.{
  limits, starts, stops, restarts, is_limit_command, is_start, is_stop, is_restart,
  send_power_control_request_count, send_active_power_control_request_count,
  send_active_power_control_request-limits, send_restart_control_request_count,
}
use flux_dtu.Dpl.State.{Inverter, Env}
use flux_dtu.Dpl.Readings.{get_inverter_max_power_watts}
use flux_dtu.Dpl.Targets.{record_target_dispatch_event, record_successful_target_command, reset}
use flux_dtu.Dpl.PowerState.{
  is_target, escalate, update_failure, acknowledge_power_state, dispatch_power_state,
  reach_power_state, switch_power_state, power_state_acknowledged, record_power_acknowledgement,
}
use flux_dtu.Dpl.Update.{
  record_limit_acknowledgement, dispatch_limit, send_limit, after_limit_acknowledgement,
  limit_acknowledged, update_limit, finish_cycle, update_cycle, update_requested, bootstrap,
  update_eligible, update,
}

module _ {F : Type 0} where
  -- What is handed to the radio: at most one limit command, start or stop and restart.
  pub record IsOneRound (allow : Bool) (target : Option Bool) (d d' : Device F) : Type 0 where
    pub limits_le : limits d' ≤ limits d + 1
    pub powers_le : starts d' + stops d' ≤ starts d + stops d + 1
    pub restarts_le : restarts d' ≤ restarts d + 1
    pub limits_ge : limits d ≤ limits d'
    pub starts_ge : starts d ≤ starts d'
    pub stops_ge : stops d ≤ stops d'
    pub held_limits : allow ≡ false → limits d' ≡ limits d
    pub held_powers : allow ≡ false → starts d' + stops d' ≡ starts d + stops d
    pub stop_alone : stops d' ≡ stops d + 1 → (limits d' ≡ limits d) × (restarts d' ≡ restarts d)
    pub stop_wanted : is_target false target ≡ false → stops d' ≡ stops d

module _ {F : Type 0} ⦃fl : Float F⦄ where
  update_failure_counts :
      (e : Env) (s : Inverter F)
      → let d = s.device in
        let d' = (update_failure e s).device in
        (limits d' ≡ limits d)
        × (starts d' ≡ starts d)
        × (stops d' ≡ stops d)
        × (restarts d' ≤ restarts d + 1)
  unfolding update_failure escalate reset
  update_failure_counts e s = ground (
    arith,
    send_restart_control_request_count is_limit_command s.device,
    send_restart_control_request_count is_start s.device,
    send_restart_control_request_count is_stop s.device,
    send_restart_control_request_count is_restart s.device,
  )

  acknowledge_power_state-device :
      (e : Env) (on : Bool) (s : Inverter F) → (acknowledge_power_state e on s).0.device ≡ s.device
  unfolding acknowledge_power_state power_state_acknowledged record_power_acknowledgement
      record_target_dispatch_event record_successful_target_command
  acknowledge_power_state-device e on s = ground arith

  dispatch_power_state_counts :
      (on : Bool) (s : Inverter F)
      → let d = s.device in
        let d' = (dispatch_power_state on s).device in
        (limits d' ≡ limits d)
        × (restarts d' ≡ restarts d)
        × (starts d ≤ starts d')
        × (stops d ≤ stops d')
        × (starts d' ≤ starts d + (if on then 1 else 0))
        × (stops d' ≤ stops d + (if on then 0 else 1))
  unfolding dispatch_power_state record_target_dispatch_event
  dispatch_power_state_counts on s = ground (
    arith,
    send_power_control_request_count is_limit_command on true s.device,
    send_power_control_request_count is_restart on true s.device,
    send_power_control_request_count is_start on true s.device,
    send_power_control_request_count is_stop on true s.device,
  )

  dispatch_limit_counts :
      (e : Env) (target : ℕ) (s : Inverter F)
      → let d = s.device in
        let d' = (dispatch_limit e target s).device in
        (limits d ≤ limits d')
        × (limits d' ≤ limits d + 1)
        × (restarts d' ≡ restarts d)
        × (starts d' ≡ starts d)
        × (stops d' ≡ stops d)
  unfolding dispatch_limit record_target_dispatch_event
  dispatch_limit_counts e target s =
      let relative =
        fl.div (fl.of_nat (target * 100)) (fl.of_nat (get_inverter_max_power_watts e s)) in
      ground (
        arith,
        send_active_power_control_request-limits relative relativ_non_persistent s.device,
        send_active_power_control_request_count is_restart relative relativ_non_persistent s.device
            (λ l t b. refl),
        send_active_power_control_request_count is_start relative relativ_non_persistent s.device
            (λ l t b. refl),
        send_active_power_control_request_count is_stop relative relativ_non_persistent s.device
            (λ l t b. refl),
      )

  reach_power_state_counts :
      (e : Env) (allow on : Bool) (s : Inverter F)
      → let d = s.device in
        let d' = (reach_power_state e allow on s).0.device in
        let answer = (reach_power_state e allow on s).1 in
        (limits d' ≡ limits d)
        × (restarts d' ≡ restarts d)
        × (starts d ≤ starts d')
        × (stops d ≤ stops d')
        × (starts d' ≤ starts d + (if on then 1 else 0))
        × (stops d' ≤ stops d + (if on then 0 else 1))
        × (allow ≡ false → starts d' + stops d' ≡ starts d + stops d)
        × (answer ≡ false → starts d' + stops d' ≡ starts d + stops d)
  unfolding reach_power_state
  reach_power_state_counts e allow on s = ground (arith, dispatch_power_state_counts on s)

  switch_power_state_counts :
      (e : Env) (allow on : Bool) (s : Inverter F)
      → let d = s.device in
        let d' = (switch_power_state e allow on s).0.device in
        let answer = (switch_power_state e allow on s).1 in
        (limits d' ≡ limits d)
        × (restarts d' ≡ restarts d)
        × (starts d ≤ starts d')
        × (stops d ≤ stops d')
        × (starts d' ≤ starts d + (if on then 1 else 0))
        × (stops d' ≤ stops d + (if on then 0 else 1))
        × (allow ≡ false → starts d' + stops d' ≡ starts d + stops d)
        × (answer ≡ false → starts d' + stops d' ≡ starts d + stops d)
        × (is_target on s.target_power_state ≡ false → stops d' ≡ stops d)
  unfolding switch_power_state
  switch_power_state_counts e allow on s =
      let s' = (acknowledge_power_state e on s).0 in
      ground (arith, acknowledge_power_state-device e on s, reach_power_state_counts e allow on s')

  record_limit_acknowledgement-device :
      (ok : Bool) (acknowledged expected last : ℕ) (s : Inverter F)
      → (record_limit_acknowledgement ok acknowledged expected last s).device ≡ s.device
  unfolding record_limit_acknowledgement record_target_dispatch_event
      record_successful_target_command
  record_limit_acknowledgement-device ok acknowledged expected last s = ground arith

  send_limit_counts :
      (e : Env) (allow : Bool) (s : Inverter F)
      → let d = s.device in
        let d' = (send_limit e allow s).0.device in
        (starts d' ≡ starts d)
        × (stops d' ≡ stops d)
        × (limits d ≤ limits d')
        × (limits d' ≤ limits d + 1)
        × (restarts d' ≡ restarts d)
        × (allow ≡ false → limits d' ≡ limits d)
  unfolding send_limit
  send_limit_counts e allow s =
      ground (arith, dispatch_limit_counts e (value_or s.target_power_limit_watts 0) s)

  limit_acknowledged_counts :
      (e : Env) (allow ok : Bool) (s : Inverter F)
      → let d = s.device in
        let d' = (limit_acknowledged e allow ok s).0.device in
        (starts d' ≡ starts d)
        × (stops d' ≡ stops d)
        × (limits d ≤ limits d')
        × (limits d' ≤ limits d + 1)
        × (restarts d' ≤ restarts d + 1)
        × (allow ≡ false → limits d' ≡ limits d)
  unfolding limit_acknowledged after_limit_acknowledgement
  limit_acknowledged_counts e allow ok s =
      let acknowledged =
        value_or s.in_flight_power_limit_watts (value_or s.target_power_limit_watts 0) in
      let expected = value_or s.in_flight_power_limit_expected_output s.expected_output_ac_watts in
      let last = s.device.system_config_para.last_update_command in
      let s' = record_limit_acknowledgement ok acknowledged expected last s in
      ground (
        arith,
        record_limit_acknowledgement-device ok acknowledged expected last s,
        update_failure_counts e s',
        send_limit_counts e allow (record s' { update_start_millis = some e.millis }),
      )

  update_limit_counts :
      (e : Env) (allow : Bool) (s : Inverter F)
      → let d = s.device in
        let d' = (update_limit e allow s).0.device in
        (starts d' ≡ starts d)
        × (stops d' ≡ stops d)
        × (limits d ≤ limits d')
        × (limits d' ≤ limits d + 1)
        × (restarts d' ≤ restarts d + 1)
        × (allow ≡ false → limits d' ≡ limits d)
  unfolding update_limit
  update_limit_counts e allow s = ground (
    arith,
    limit_acknowledged_counts e allow (is_ok s.device.system_config_para.last_limit_command_success)
        s,
    send_limit_counts e allow s,
  )

  -- `IsOneRound` for the state machine itself
  update_cycle_counts :
      (e : Env) (allow : Bool) (s : Inverter F)
      → IsOneRound allow s.target_power_state s.device (update_cycle e allow s).0.device
  unfolding update_cycle finish_cycle reset
  update_cycle_counts e allow s =
      let s1 = (switch_power_state e allow false s).0 in
      let s2 = (update_limit e allow s1).0 in
      ground (
        arith,
        switch_power_state_counts e allow false s,
        update_limit_counts e allow s1,
        switch_power_state_counts e allow true s2,
      )

  update_requested_counts :
      (e : Env) (allow : Bool) (s : Inverter F)
      → IsOneRound allow s.target_power_state s.device (update_requested e allow s).0.device
  unfolding update_requested reset
  update_requested_counts e allow s =
      let start = value_or s.update_start_millis e.millis in
      let s' = record s { update_start_millis = some start } in
      ground (arith, update_failure_counts e s', update_cycle_counts e allow s')

  -- In one call of `update` at most one limit command, one start or stop, and one restart is handed
  -- to the radio's `enqueCommand`. Without the permission to dispatch, no limit, start or stop is. A
  -- stop goes alone. A stop is only sent where standby is the target.
  pub update-IsOneRound :
      (e : Env) (allow : Bool) (s : Inverter F)
      → IsOneRound allow s.target_power_state s.device (update e allow s).0.device
  unfolding update update_eligible bootstrap reset
  update-IsOneRound e allow s =
      let s' = record s { target_power_limit_watts = some s.config.lower_power_limit } in
      ground (arith, update_requested_counts e allow s, update_requested_counts e allow s')
