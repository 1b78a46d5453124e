-- ===== src/Dpl/Update/Idle.antt =====
-- When `update` answers that nothing is pending.
use flux_dtu.Base.{◌≡◌, Bool, false, none, arith}
use flux_dtu.Float.{Float}
use flux_dtu.Dpl.State.{Inverter, Env}
use flux_dtu.Dpl.Targets.{reset}
use flux_dtu.Dpl.PowerState.{escalate, update_failure}
use flux_dtu.Dpl.Update.{
  finish_cycle, update_cycle, update_requested, bootstrap, update_eligible, update,
}

module _ {F : Type 0} where
  -- No target, no command in flight, and no update under way.
  pub record IsIdle (s : Inverter F) : Type 0 where
    pub state_idle : s.target_power_state ≡ none
    pub limit_idle : s.target_power_limit_watts ≡ none
    pub start_idle : s.update_start_millis ≡ none
    pub force_idle : s.force_power_state_command ≡ false
    pub parallel_idle : s.allow_parallel_startup_commands ≡ false
    pub in_flight_limit_idle : s.in_flight_power_limit_watts ≡ none
    pub in_flight_limit_output_idle : s.in_flight_power_limit_expected_output ≡ none
    pub in_flight_state_idle : s.in_flight_power_state ≡ none
    pub in_flight_state_output_idle : s.in_flight_power_state_expected_output ≡ none

  pub reset-IsIdle : (s : Inverter F) → IsIdle (reset s)
  unfolding reset
  reset-IsIdle s = ground arith

module _ {F : Type 0} ⦃fl : Float F⦄ where
  pub update_failure-IsIdle : (e : Env) (s : Inverter F) → IsIdle (update_failure e s)
  unfolding update_failure escalate reset
  update_failure-IsIdle e s = ground arith

  finish_cycle-IsIdle :
      (e : Env) (allow pending : Bool) (s : Inverter F)
      → (finish_cycle e allow pending s).1 ≡ false
      → IsIdle (finish_cycle e allow pending s).0
  unfolding finish_cycle reset
  finish_cycle-IsIdle e allow pending s h = ground arith

  update_cycle-IsIdle :
      (e : Env) (allow : Bool) (s : Inverter F)
      → (update_cycle e allow s).1 ≡ false
      → IsIdle (update_cycle e allow s).0
  unfolding update_cycle
  update_cycle-IsIdle e allow s h = grind (arith, finish_cycle-IsIdle)

  pub update_requested-IsIdle :
      (e : Env) (allow : Bool) (s : Inverter F)
      → (update_requested e allow s).1 ≡ false
      → IsIdle (update_requested e allow s).0
  unfolding update_requested
  update_requested-IsIdle e allow s h =
      grind (arith, reset-IsIdle, update_failure-IsIdle, update_cycle-IsIdle)

  -- When `update` answers `false`, there is no target left, no command of its own is in flight and
  -- no update is under way, whichever way the call went.
  pub update-IsIdle :
      (e : Env) (allow : Bool) (s : Inverter F)
      → (update e allow s).1 ≡ false
      → IsIdle (update e allow s).0
  unfolding update update_eligible bootstrap
  update-IsIdle e allow s h = grind (arith, reset-IsIdle, update_requested-IsIdle)
