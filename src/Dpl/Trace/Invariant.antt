-- ===== src/Dpl/Trace/Invariant.antt =====
-- Every step keeps the object consistent.
use flux_dtu.Dpl.Readings.{get_expected_output_ac_watts, get_expected_limit_watts}
use flux_dtu.Base.{
  ℕ, ◌≡◌, Bool, arith, min, max, ◌⊎◌, inl, inr, refl, sub16, u16, ◌+◌, ◌-◌, min, max, ltb,
  if◌then◌else◌,
}
use flux_dtu.Float.{Float}
use flux_dtu.Dpl.State.{
  InverterPowerSource, Inverter, RuntimeState, Env, battery, solar, smart_buffer,
}
use flux_dtu.Dpl.Targets.{
  reassert_target_power_state, set_target_power_limit_watts, set_target_power_state,
  set_expected_output_ac_watts,
}
use flux_dtu.Dpl.Update.Consistency.{IsConsistent}
use flux_dtu.Dpl.Solar
use flux_dtu.Dpl.Battery
use flux_dtu.Dpl.SmartBuffer
use flux_dtu.Dpl.Overscaling
use flux_dtu.Dpl.Limits.{apply_configured_limit_bounds, refresh_stale_limit}
use flux_dtu.Dpl.Restore.{restore_runtime_state}

pub source-cases : (p : InverterPowerSource) → (p ≡ battery) ⊎ ((p ≡ solar) ⊎ (p ≡ smart_buffer))
source-cases battery = inl refl
source-cases solar = inr (inl refl)
source-cases smart_buffer = inr (inr refl)

module _ {F : Type 0} ⦃fl : Float F⦄ where
  -- A target of some limit, with the inverter on, keeps the object consistent.
  pub battery_output-IsConsistent :
      (e : Env) (output limit : ℕ) (s : Inverter F)
      → IsConsistent s
      → IsConsistent (Battery.set_ac_output_and_limit e output limit s)
  unfolding Battery.set_ac_output_and_limit set_target_power_limit_watts set_target_power_state
      set_expected_output_ac_watts
  battery_output-IsConsistent e output limit s h = ground arith

  pub overscaling_output-IsConsistent :
      (e : Env) (output limit : ℕ) (s : Inverter F)
      → IsConsistent s
      → IsConsistent (Overscaling.set_ac_output_and_limit e output limit s)
  unfolding Overscaling.set_ac_output_and_limit set_target_power_limit_watts set_target_power_state
      set_expected_output_ac_watts
  overscaling_output-IsConsistent e output limit s h = ground arith

  pub reassert-IsConsistent :
      (s : Inverter F) → IsConsistent s → IsConsistent (reassert_target_power_state s)
  unfolding reassert_target_power_state
  reassert-IsConsistent s h = ground arith

  pub restore-IsConsistent :
      (e : Env) (r : RuntimeState F) (millis : ℕ) (s : Inverter F)
      → IsConsistent s
      → IsConsistent (restore_runtime_state e r millis s)
  unfolding restore_runtime_state
  restore-IsConsistent e r millis s h = ground arith

  pub battery-standby-IsConsistent :
      (e : Env) (s : Inverter F)
      → s.config.power_source ≡ battery
      → IsConsistent s
      → IsConsistent (Battery.standby e s).0
  unfolding Battery.standby set_target_power_state set_expected_output_ac_watts
  battery-standby-IsConsistent e s p h = ground arith

  pub smart_buffer-standby-IsConsistent :
      (e : Env) (s : Inverter F)
      → s.config.power_source ≡ smart_buffer
      → IsConsistent s
      → IsConsistent (SmartBuffer.standby e s).0
  unfolding SmartBuffer.standby set_target_power_state set_expected_output_ac_watts
  smart_buffer-standby-IsConsistent e s p h = ground arith

  pub overscaling-set_ac_output-IsConsistent :
      (e : Env) (output : ℕ) (s : Inverter F)
      → IsConsistent s
      → IsConsistent (Overscaling.set_ac_output e output s)
  unfolding Overscaling.set_ac_output
  overscaling-set_ac_output-IsConsistent e output s h = overscaling_output-IsConsistent e _ _ s h

  pub battery-reduction-IsConsistent :
      (e : Env) (reduction : ℕ) (allow : Bool) (s : Inverter F)
      → s.config.power_source ≡ battery
      → IsConsistent s
      → IsConsistent (Battery.apply_reduction e reduction allow s).0
  unfolding Battery.apply_reduction
  battery-reduction-IsConsistent e reduction allow s p h =
      let expected = get_expected_output_ac_watts e s in
      let limit = get_expected_limit_watts e s in
      let all = min limit expected - s.config.lower_power_limit in
      ground (
        arith,
        battery-standby-IsConsistent e s p h,
        battery_output-IsConsistent e (sub16 expected reduction) (sub16 limit reduction) s h,
        battery_output-IsConsistent e (sub16 expected all) (sub16 limit all) s h,
      )

  pub battery-increase-IsConsistent :
      (e : Env) (increase : ℕ) (s : Inverter F)
      → IsConsistent s
      → IsConsistent (Battery.apply_increase e increase s).0
  unfolding Battery.apply_increase Battery.set_ac_output
  battery-increase-IsConsistent e increase s h =
      let actual = min increase (Battery.get_max_increase_watts e s) in
      let output = u16 (get_expected_output_ac_watts e s + actual) in
      let limit = u16 (get_expected_limit_watts e s + actual) in
      let start = u16 (0 + actual) in
      let started = Battery.set_ac_output_and_limit e start start s in
      ground (
        arith,
        battery_output-IsConsistent e output limit s h,
        reassert-IsConsistent started (battery_output-IsConsistent e start start s h),
      )

  pub overscaling-increase-IsConsistent :
      (e : Env) (top increase : ℕ) (s : Inverter F)
      → IsConsistent s
      → IsConsistent (Overscaling.apply_increase e top increase s).0
  unfolding Overscaling.apply_increase
  overscaling-increase-IsConsistent e top increase s h =
      let actual = min increase top in
      let output = u16 (get_expected_output_ac_watts e s + actual) in
      let limit =
        if Overscaling.overscaling_enabled s
        then max (Overscaling.scale_limit e output s) (get_expected_limit_watts e s)
        else u16 (get_expected_limit_watts e s + actual) in
      ground (
        arith,
        overscaling-set_ac_output-IsConsistent e actual s h,
        overscaling_output-IsConsistent e output limit s h,
      )

  pub solar-reduction-IsConsistent :
      (e : Env) (reduction : ℕ) (allow : Bool) (s : Inverter F)
      → IsConsistent s
      → IsConsistent (Solar.apply_reduction e reduction allow s).0
  unfolding Solar.apply_reduction
  solar-reduction-IsConsistent e reduction allow s h =
      let expected = get_expected_output_ac_watts e s in
      let low = s.config.lower_power_limit in
      let actual = min reduction (expected - low) in
      let limit = get_expected_limit_watts e s in
      let target = if ltb actual limit then limit - actual else low in
      ground (arith, overscaling_output-IsConsistent e (sub16 expected actual) target s h)

  pub smart_buffer-reduction-IsConsistent :
      (e : Env) (reduction : ℕ) (allow : Bool) (s : Inverter F)
      → s.config.power_source ≡ smart_buffer
      → IsConsistent s
      → IsConsistent (SmartBuffer.apply_reduction e reduction allow s).0
  unfolding SmartBuffer.apply_reduction
  smart_buffer-reduction-IsConsistent e reduction allow s p h =
      let low = min (get_expected_limit_watts e s) (get_expected_output_ac_watts e s) in
      ground (
        arith,
        smart_buffer-standby-IsConsistent e s p h,
        overscaling-set_ac_output-IsConsistent e (low - reduction) s h,
        overscaling-set_ac_output-IsConsistent e s.config.lower_power_limit s h,
      )

  pub cap-IsConsistent :
      (e : Env) (cap : ℕ) (s : Inverter F)
      → IsConsistent s
      → IsConsistent (Solar.cap_output_limit e cap s).0
  unfolding Solar.cap_output_limit set_target_power_limit_watts set_target_power_state
      set_expected_output_ac_watts
  cap-IsConsistent e cap s h = ground arith

  pub bounds-IsConsistent :
      (e : Env) (s : Inverter F)
      → IsConsistent s
      → IsConsistent (apply_configured_limit_bounds e s).0
  unfolding apply_configured_limit_bounds set_target_power_limit_watts set_expected_output_ac_watts
  bounds-IsConsistent e s h = ground arith

  pub refresh-IsConsistent :
      (e : Env) (s : Inverter F) → IsConsistent s → IsConsistent (refresh_stale_limit e s).0
  unfolding refresh_stale_limit set_target_power_limit_watts set_expected_output_ac_watts
  refresh-IsConsistent e s h = ground arith
