-- ===== src/FlexibleLoad/Transitions.antt =====
-- The changes of a load's state.
use flux_dtu.Base.{◌≡◌, refl, Bool, true, false, ◌||◌, not, arith, Bool-cases, inl, inr}
use flux_dtu.Float.{Float}
use flux_dtu.FlexibleLoad.State.{
  LoadState, disabled, off, waiting_for_start, starting, running_min_time, running, cooldown,
  StopReason, Runtime,
}
use flux_dtu.FlexibleLoad.Commands.{has_passed, same_state, set_state}
use flux_dtu.FlexibleLoad.Judgement.{Turn, handle_bms_charge_current_limit_stop, is_idle_state}
use flux_dtu.FlexibleLoad.Step.{
  accounted, is_off_duty, loop_running_min_time, loop_state, loop_load, is_started, is_start_due,
  loop_disabled, loop_emergency, loop_idle, loop_starting, loop_running, loop_cooldown,
}
use flux_dtu.FlexibleLoad.States.{
  publish_periodic_command-state, stop_load-state, handle_grid-state, handle_bms-state,
  loop_emergency-state, accounted-state, loop_running-state, loop_idle-state, loop_load-off_duty,
  loop_load-emergency, loop_load-state,
}

-- what a change of state depends on
pub record Conditions : Type 0 where
  pub off_duty : Bool
  pub is_started : Bool
  pub min_runtime_passed : Bool
  pub min_off_time_passed : Bool

-- The changes that there are, each with what it takes. A load may always be left in its state.
abbrev pub may_become : Conditions → LoadState → LoadState → Bool
may_become c s disabled = c.off_duty || same_state s disabled
may_become c disabled off = true
may_become c disabled waiting_for_start = true
may_become c disabled starting = c.is_started
may_become c off off = true
may_become c off waiting_for_start = true
may_become c off starting = c.is_started
may_become c waiting_for_start off = true
may_become c waiting_for_start waiting_for_start = true
may_become c waiting_for_start starting = c.is_started
may_become c starting starting = true
may_become c starting running_min_time = not c.min_runtime_passed
may_become c starting running = c.min_runtime_passed
may_become c starting cooldown = true
may_become c running_min_time running_min_time = true
may_become c running_min_time running = c.min_runtime_passed
may_become c running_min_time cooldown = true
may_become c running running = true
may_become c running cooldown = true
may_become c cooldown cooldown = true
may_become c cooldown off = c.min_off_time_passed
may_become c _ _ = false

module _ {F : Type 0} ⦃fl : Float F⦄ where
  abbrev pub conditions : Turn F → Runtime F → Conditions
  conditions t rt = record {
    off_duty = is_off_duty t;
    is_started = is_started t rt;
    min_runtime_passed = has_passed t.readings.now rt.load_started_millis t.config.min_runtime;
    min_off_time_passed = has_passed t.readings.now rt.state_changed_millis t.config.min_off_time;
  }

  -- a state and the next one, as the conditions allow
  abbrev Allowed : Turn F → Runtime F → Runtime F → Type 0
  Allowed t rt rt' = may_become (conditions t rt) rt.current_state rt'.current_state ≡ true

  loop_disabled-Allowed :
      (t : Turn F) (rt : Runtime F) → is_off_duty t ≡ true → Allowed t rt (loop_disabled t rt)
  unfolding loop_disabled set_state
  loop_disabled-Allowed t rt p =
      ground (arith, p, stop_load-state t.readings StopReason.load_disabled t.config rt)

  loop_cooldown-Allowed :
      (t : Turn F) (rt : Runtime F)
      → rt.current_state ≡ cooldown
      → Allowed t rt (loop_cooldown t rt)
  unfolding loop_cooldown set_state
  loop_cooldown-Allowed t rt s =
      rw (publish_periodic_command-state t.readings t.config _) (ground (arith, s))

  loop_starting-Allowed :
      (t : Turn F) (rt : Runtime F)
      → rt.current_state ≡ starting
      → Allowed t rt (loop_starting t rt)
  unfolding loop_starting set_state
  loop_starting-Allowed t rt s =
      rw (publish_periodic_command-state t.readings t.config _) (ground (arith, s))

  loop_emergency-Allowed : (t : Turn F) (rt : Runtime F) → Allowed t rt (loop_emergency t rt)
  loop_emergency-Allowed t rt = rw (loop_emergency-state t rt) (ground arith)

  loop_running-Allowed :
      (t : Turn F) (rt : Runtime F) → rt.current_state ≡ running → Allowed t rt (loop_running t rt)
  loop_running-Allowed t rt s = ground (arith, s, loop_running-state t rt)

  loop_running_min_time-Allowed :
      (t : Turn F) (rt : Runtime F)
      → rt.current_state ≡ running_min_time
      → Allowed t rt (loop_running_min_time t rt)
  unfolding loop_running_min_time set_state
  loop_running_min_time-Allowed t rt s =
      let rt1 = accounted t rt in
      let rt2 = handle_bms_charge_current_limit_stop t rt1 in
      rw (publish_periodic_command-state t.readings t.config _)
        (ground (arith, s, accounted-state t rt, handle_bms-state t rt1, handle_grid-state t rt2))

  loop_idle-Allowed :
      (t : Turn F) (rt : Runtime F)
      → is_off_duty t ≡ false
      → t.readings.is_emergency_stop_active ≡ false
      → is_idle_state rt.current_state ≡ true
      → Allowed t rt (loop_idle t rt)
  unfolding is_started is_start_due
  loop_idle-Allowed t rt p q s = rw (loop_idle-state t rt) (ground (arith, p, q, s))

  loop_state-Allowed :
      (s : LoadState) (t : Turn F) (rt : Runtime F)
      → is_off_duty t ≡ false
      → t.readings.is_emergency_stop_active ≡ false
      → rt.current_state ≡ s
      → Allowed t rt (loop_state s t rt)
  unfolding loop_state
  loop_state-Allowed disabled t rt p q s = loop_idle-Allowed t rt p q (rw s refl)
  loop_state-Allowed off t rt p q s = loop_idle-Allowed t rt p q (rw s refl)
  loop_state-Allowed waiting_for_start t rt p q s = loop_idle-Allowed t rt p q (rw s refl)
  loop_state-Allowed starting t rt p q s = loop_starting-Allowed t rt s
  loop_state-Allowed running_min_time t rt p q s = loop_running_min_time-Allowed t rt s
  loop_state-Allowed running t rt p q s = loop_running-Allowed t rt s
  loop_state-Allowed cooldown t rt p q s = loop_cooldown-Allowed t rt s

  -- From round to round the state of a load changes only as the table `may_become` says: it is being
  -- started only from a state of rest, and only in a round that reports a start; it counts as running
  -- freely only once its shortest runtime has passed; it comes to rest by way of the pause, which it
  -- leaves for "off" only after its shortest time off; and it is disabled, from any state, only where
  -- the limiter or the load is disabled or has no topic.
  pub loop_load-may_become :
      (t : Turn F) (rt : Runtime F)
      → may_become (conditions t rt) rt.current_state (loop_load t rt).current_state ≡ true
  loop_load-may_become t rt = elim (Bool-cases (is_off_duty t)) [
    | inl p ↦ rw (loop_load-off_duty t rt p) (loop_disabled-Allowed t rt p)
    | inr p ↦ elim (Bool-cases t.readings.is_emergency_stop_active) [
      | inl q ↦ rw (loop_load-emergency t rt p q) (loop_emergency-Allowed t rt)
      | inr q ↦ rw (loop_load-state t rt p q) (loop_state-Allowed rt.current_state t rt p q refl)
    ]
  ]
