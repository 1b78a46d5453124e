-- ===== src/Dpl/Update/Consistency.antt =====
-- What holds of the object between any two calls, and that `update` keeps it.
use flux_dtu.Base.{
  ℕ, ◌≡◌, refl, Bool, true, false, some, arith, ◌||◌, has_value, value_or, Bool-cases,
  if◌then◌else◌, inl, inr,
}
use flux_dtu.Float.{Float}
use flux_dtu.Hoymiles.Device.{is_ok}
use flux_dtu.Dpl.State.{Inverter, Env, solar}
use flux_dtu.Dpl.Targets.{record_target_dispatch_event, record_successful_target_command, reset}
use flux_dtu.Dpl.PowerState.{
  is_target, escalate, update_failure, record_power_acknowledgement, power_state_acknowledged,
  acknowledge_power_state, dispatch_power_state, reach_power_state, switch_power_state,
}
use flux_dtu.Dpl.Update.{
  record_limit_acknowledgement, dispatch_limit, send_limit, after_limit_acknowledgement,
  limit_acknowledged, update_limit, finish_cycle, update_cycle, update_requested, bootstrap,
  update_eligible, update,
}
use flux_dtu.Dpl.Update.Idle.{update_requested-IsIdle}

module _ {F : Type 0} where
  -- A command in flight has its expected output and belongs to an update under way; an assumed
  -- output has its time; a solar inverter is never to be stopped.
  pub record IsPaired (s : Inverter F) : Type 0 where
    pub limit_paired :
        has_value s.in_flight_power_limit_watts ≡ has_value s.in_flight_power_limit_expected_output
    pub state_paired :
        has_value s.in_flight_power_state ≡ has_value s.in_flight_power_state_expected_output
    pub limit_started :
        has_value s.in_flight_power_limit_watts ≡ true → has_value s.update_start_millis ≡ true
    pub state_started :
        has_value s.in_flight_power_state ≡ true → has_value s.update_start_millis ≡ true
    pub assumption_timed :
        has_value s.assumed_output_ac_watts ≡ has_value s.assumed_output_valid_after_millis
    pub solar_on : s.config.power_source ≡ solar → is_target false s.target_power_state ≡ false

  abbrev pub pending : Inverter F → Bool
  pending s = has_value s.target_power_limit_watts || has_value s.target_power_state

  -- Inside a call of `update`: a target has its update under way.
  record IsRunning (s : Inverter F) : Type 0 where
    paired : IsPaired s
    started : pending s ≡ true → has_value s.update_start_millis ≡ true

  -- Between two calls: an update under way has a target.
  pub record IsConsistent (s : Inverter F) : Type 0 where
    pub paired : IsPaired s
    pub has_target : has_value s.update_start_millis ≡ true → pending s ≡ true

  IsRunning-reset : (s : Inverter F) → IsPaired s → IsRunning (reset s)
  unfolding reset
  IsRunning-reset s h = ground arith

  IsRunning-start :
      (t : ℕ) (s : Inverter F) → IsRunning s → IsRunning (record s { update_start_millis = some t })
  IsRunning-start t s h = ground arith

  IsConsistent-idle : (s : Inverter F) → IsPaired s → IsConsistent (reset s)
  unfolding reset
  IsConsistent-idle s h = ground arith

module _ {F : Type 0} ⦃fl : Float F⦄ where
  update_failure-IsRunning :
      (e : Env) (s : Inverter F) → IsPaired s → IsRunning (update_failure e s)
  unfolding update_failure escalate reset
  update_failure-IsRunning e s h = ground arith

  acknowledge_power_state-IsRunning :
      (e : Env) (on : Bool) (s : Inverter F)
      → IsRunning s
      → let s' = (acknowledge_power_state e on s).0 in
        let goes_on = (acknowledge_power_state e on s).1 in
        IsRunning s'
        × (s'.target_power_limit_watts ≡ s.target_power_limit_watts)
        × (goes_on ≡ true
            → is_target on s.target_power_state ≡ true
            → is_target on s'.target_power_state ≡ true)
  unfolding acknowledge_power_state power_state_acknowledged record_power_acknowledgement
      record_target_dispatch_event record_successful_target_command
  acknowledge_power_state-IsRunning e on s h = ground arith

  dispatch_power_state-IsRunning :
      (on : Bool) (s : Inverter F)
      → IsRunning s
      → has_value s.update_start_millis ≡ true
      → let s' = dispatch_power_state on s in
        IsRunning s'
        × (s'.target_power_limit_watts ≡ s.target_power_limit_watts)
        × (s'.target_power_state ≡ s.target_power_state)
  unfolding dispatch_power_state record_target_dispatch_event
  dispatch_power_state-IsRunning on s h st = ground arith

  switch_power_state-IsRunning :
      (e : Env) (allow on : Bool) (s : Inverter F)
      → IsRunning s
      → let s' = (switch_power_state e allow on s).0 in
        let answer = (switch_power_state e allow on s).1 in
        IsRunning s'
        × (s'.target_power_limit_watts ≡ s.target_power_limit_watts)
        × (answer ≡ true → has_value s'.target_power_state ≡ true)
  unfolding switch_power_state reach_power_state
  switch_power_state-IsRunning e allow on s h =
      let s' = (acknowledge_power_state e on s).0 in
      ground
        (arith, acknowledge_power_state-IsRunning e on s h, dispatch_power_state-IsRunning on s')

  record_limit_acknowledgement-IsRunning :
      (ok : Bool) (acknowledged expected last : ℕ) (s : Inverter F)
      → IsRunning s
      → IsRunning (record_limit_acknowledgement ok acknowledged expected last s)
  unfolding record_limit_acknowledgement record_target_dispatch_event
      record_successful_target_command
  record_limit_acknowledgement-IsRunning ok acknowledged expected last s h = ground arith

  dispatch_limit-IsRunning :
      (e : Env) (target : ℕ) (s : Inverter F)
      → IsRunning s
      → has_value s.update_start_millis ≡ true
      → let s' = dispatch_limit e target s in
        IsRunning s' × (s'.target_power_limit_watts ≡ s.target_power_limit_watts)
  unfolding dispatch_limit record_target_dispatch_event
  dispatch_limit-IsRunning e target s h st = ground arith

  send_limit-IsRunning :
      (e : Env) (allow : Bool) (s : Inverter F)
      → IsRunning s
      → has_value s.target_power_limit_watts ≡ true
      → let s' = (send_limit e allow s).0 in
        IsRunning s' × (has_value s'.target_power_limit_watts ≡ true)
  unfolding send_limit
  send_limit-IsRunning e allow s h t =
      ground (arith, dispatch_limit-IsRunning e (value_or s.target_power_limit_watts 0) s h)

  after_limit_acknowledgement-IsRunning :
      (e : Env) (allow ok : Bool) (s : Inverter F)
      → IsRunning s
      → let s' = (after_limit_acknowledgement e allow ok s).0 in
        IsRunning s'
        × ((after_limit_acknowledgement e allow ok s).1 ≡ true
            → has_value s'.target_power_limit_watts ≡ true)
  unfolding after_limit_acknowledgement
  after_limit_acknowledgement-IsRunning e allow false s h =
      (update_failure-IsRunning e s h.paired, λ p. cc)
  after_limit_acknowledgement-IsRunning e allow true s h =
      elim (Bool-cases (has_value s.target_power_limit_watts)) [
        | inr empty ↦ rw empty (h, λ p. cc)
        | inl more ↦
            let s' = record s { update_start_millis = some e.millis } in
            let (running, limit) =
              send_limit-IsRunning e allow s' (IsRunning-start e.millis s h) more in
            rw more (running, λ p. limit)
      ]

  update_limit-IsRunning :
      (e : Env) (allow : Bool) (s : Inverter F)
      → IsRunning s
      → let s' = (update_limit e allow s).0 in
        IsRunning s'
        × ((update_limit e allow s).1 ≡ true → has_value s'.target_power_limit_watts ≡ true)
  unfolding update_limit limit_acknowledged
  update_limit-IsRunning e allow s h =
      let acknowledged =
        value_or s.in_flight_power_limit_watts (value_or s.target_power_limit_watts 0) in
      let expected = value_or s.in_flight_power_limit_expected_output s.expected_output_ac_watts in
      let last = s.device.system_config_para.last_update_command in
      let ok = is_ok s.device.system_config_para.last_limit_command_success in
      let s' = record_limit_acknowledgement ok acknowledged expected last s in
      ground (
        arith,
        after_limit_acknowledgement-IsRunning e allow ok s',
        record_limit_acknowledgement-IsRunning ok acknowledged expected last s h,
        send_limit-IsRunning e allow s h,
      )

  finish_waiting :
      (waiting : Bool) (s : Inverter F)
      → IsRunning s
      → (waiting ≡ true → has_value s.target_power_limit_watts ≡ true)
      → let end : Inverter F × Bool =
          if waiting then (s, true) else (reset (record s { update_timeouts = 0 }), false) in
        IsRunning end.0 × (end.1 ≡ true → pending end.0 ≡ true)
  finish_waiting true s h w = (h, λ p. ground (arith, w refl))
  finish_waiting false s h w =
      (IsRunning-reset (record s { update_timeouts = 0 }) (ground arith), λ p. cc)

  finish_cycle-IsRunning :
      (e : Env) (allow waiting : Bool) (s : Inverter F)
      → IsRunning s
      → (waiting ≡ true → has_value s.target_power_limit_watts ≡ true)
      → let s' = (finish_cycle e allow waiting s).0 in
        IsRunning s' × ((finish_cycle e allow waiting s).1 ≡ true → pending s' ≡ true)
  unfolding finish_cycle
  finish_cycle-IsRunning e allow waiting s h w =
      let s' = (switch_power_state e allow true s).0 in
      let (running, same, starting) = switch_power_state-IsRunning e allow true s h in
      elim (Bool-cases (switch_power_state e allow true s).1) [
        | inl yes' ↦ rw yes' (running, λ p. ground (arith, starting yes'))
        | inr no' ↦ rw no' (finish_waiting waiting s' running (λ p. rw same (w p)))
      ]

  update_cycle-IsRunning :
      (e : Env) (allow : Bool) (s : Inverter F)
      → IsRunning s
      → let s' = (update_cycle e allow s).0 in
        IsRunning s' × ((update_cycle e allow s).1 ≡ true → pending s' ≡ true)
  unfolding update_cycle
  update_cycle-IsRunning e allow s h =
      let s1 = (switch_power_state e allow false s).0 in
      let (s2, waiting) = update_limit e allow s1 in
      ground (
        arith,
        switch_power_state-IsRunning e allow false s h,
        update_limit-IsRunning e allow s1,
        finish_cycle-IsRunning e allow waiting s2,
      )

  update_requested-IsRunning :
      (e : Env) (allow : Bool) (s : Inverter F)
      → IsPaired s
      → let s' = (update_requested e allow s).0 in
        IsPaired s' × ((update_requested e allow s).1 ≡ true → pending s' ≡ true)
  unfolding update_requested
  update_requested-IsRunning e allow s h =
      let start = value_or s.update_start_millis e.millis in
      let s' = record s { update_start_millis = some start } in
      let paired : IsPaired s' = ground arith in
      ground (
        arith,
        paired,
        IsRunning-reset s h,
        update_failure-IsRunning e s' paired,
        update_cycle-IsRunning e allow s' (record { paired = paired; started = λ p. refl }),
      )

  update_requested-IsConsistent :
      (e : Env) (allow : Bool) (s : Inverter F)
      → IsPaired s
      → IsConsistent (update_requested e allow s).0
  update_requested-IsConsistent e allow s h =
      let (paired, busy) = update_requested-IsRunning e allow s h in
      elim (Bool-cases (update_requested e allow s).1) [
        | inl yes' ↦ record { paired = paired; has_target = λ p. busy yes' }
        | inr no' ↦ record {
          paired = paired;
          has_target = λ p. ground (arith, (update_requested-IsIdle e allow s no').start_idle);
        }
      ]

  -- `update` keeps the object consistent, whichever way the call goes.
  pub update-IsConsistent :
      (e : Env) (allow : Bool) (s : Inverter F) → IsConsistent s → IsConsistent (update e allow s).0
  unfolding update update_eligible bootstrap
  update-IsConsistent e allow s h =
      let s' = record s { target_power_limit_watts = some s.config.lower_power_limit } in
      let paired : IsPaired s' = ground arith in
      ground (
        arith,
        IsConsistent-idle s h.paired,
        update_requested-IsConsistent e allow s h.paired,
        update_requested-IsConsistent e allow s' paired,
      )
