-- ===== src/Dpl/Restore/RoundTrip.antt =====
-- A runtime state that is persisted and restored.
use flux_dtu.Base.{
  ℕ, ◌+◌, ◌≤◌, ◌<◌, ◌≡◌, ◌≢◌, ◌⊎◌, ◌||◌, ltb, if◌then◌else◌, sym, true, false, none, arith, min,
  max, sub32,
}
use flux_dtu.Float.{Float}
use flux_dtu.Dpl.State.{Inverter, Env, RuntimeState}
use flux_dtu.Dpl.Readings.{
  is_using_assumed_output, is_using_restored_state, has_stats_at_or_after, has_pending_target,
  is_producing, is_reachable, get_current_output_ac_watts, get_expected_output_ac_watts,
  get_expected_limit_watts, get_inverter_max_power_watts, get_configured_max_power_watts,
  clamp_limit_to_configured_bounds, is_solar_powered, restored_state_assumption_millis,
}
use flux_dtu.Dpl.Restore.{get_runtime_state_for_persistence, restore_runtime_state}

module _ {F : Type 0} ⦃fl : Float F⦄ where
  -- A restored state is put in bounds: no output above the stored maximum power, a limit within the
  -- upper bound that the configuration gives, and an inverter with an output counts as producing. A
  -- state of another inverter, or without a maximum power or a limit, changes nothing.
  pub restore_runtime_state_bounds :
      (e : Env) (r : RuntimeState F) (millis : ℕ) (s : Inverter F)
      → let s' = restore_runtime_state e r millis s in
        let r' = s'.restored_runtime_state in
        ((r.serial ≢ s.config.serial) ⊎ ((r.max_power_watts ≡ 0) ⊎ (r.power_limit_watts ≡ 0))
          → s' ≡ s)
        × (r.serial ≡ s.config.serial
            → 0 < r.max_power_watts
            → 0 < r.power_limit_watts
            → (r'.output_ac_watts ≤ r'.max_power_watts)
              × (r'.expected_output_ac_watts ≤ r'.max_power_watts)
              × (s'.expected_output_ac_watts ≡ r'.expected_output_ac_watts)
              × (r'.power_limit_watts ≤ max r'.max_power_watts s.config.lower_power_limit)
              × (r'.power_limit_watts ≤ max s.config.upper_power_limit s.config.lower_power_limit)
              × (0 < r'.output_ac_watts + r'.expected_output_ac_watts → r'.producing ≡ true)
              × (s'.target_power_limit_watts ≡ s.target_power_limit_watts)
              × (s'.target_power_state ≡ s.target_power_state))
  unfolding restore_runtime_state clamp_limit_to_configured_bounds get_configured_max_power_watts
  restore_runtime_state_bounds e r millis s = ground arith

  restored-restore :
      (e e' : Env) (r : RuntimeState F) (millis : ℕ) (s : Inverter F)
      → r.serial ≡ s.config.serial
      → 0 < r.max_power_watts
      → 0 < r.power_limit_watts
      → s.device.statistics.last_update ≡ 0
      → sub32 e'.millis millis ≤ restored_state_assumption_millis
      → is_using_restored_state e' (restore_runtime_state e r millis s) ≡ true
  unfolding restore_runtime_state is_using_restored_state has_stats_at_or_after
  restored-restore e e' r millis s h1 h2 h3 h4 h5 = ground arith

  restore-read :
      (e e' : Env) (r : RuntimeState F) (millis : ℕ) (s : Inverter F)
      → r.serial ≡ s.config.serial
      → 0 < r.max_power_watts
      → 0 < r.power_limit_watts
      → is_solar_powered s ≡ false
      → has_pending_target s ≡ false
      → s.assumed_output_ac_watts ≡ none
      → is_using_restored_state e' (restore_runtime_state e r millis s) ≡ true
      → let s' = restore_runtime_state e r millis s in
        (get_current_output_ac_watts e' s' ≡ min r.output_ac_watts r.max_power_watts)
        × (get_expected_output_ac_watts e' s' ≡ min r.expected_output_ac_watts r.max_power_watts)
        × (is_reachable e' s' ≡ r.reachable)
        × (is_producing e' s' ≡ (
            if ltb 0 (min r.output_ac_watts r.max_power_watts)
              || ltb 0 (min r.expected_output_ac_watts r.max_power_watts)
            then true
            else r.producing))
  unfolding restore_runtime_state get_current_output_ac_watts get_expected_output_ac_watts
      is_reachable is_producing is_using_assumed_output has_pending_target
  restore-read e e' r millis s h1 h2 h3 h4 h5 h6 h7 = ground arith

  -- What is persisted of one object and restored into a fresh one for the same inverter is reported
  -- again: the output and the expected output, up to the inverter's maximum power, and whether it is
  -- reachable. It counts as producing if it did so before, or had an output or an expected output. This
  -- is for an inverter that is not solar-powered, whose maximum power and expected limit are above 0
  -- when they are persisted. The fresh object has no target, no assumed output and no telemetry, and is
  -- asked within three minutes of the restore.
  pub restore-persist :
      (e e' e'' : Env) (millis : ℕ) (s s0 : Inverter F)
      → s0.config.serial ≡ s.config.serial
      → is_solar_powered s0 ≡ false
      → has_pending_target s0 ≡ false
      → s0.assumed_output_ac_watts ≡ none
      → s0.device.statistics.last_update ≡ 0
      → sub32 e''.millis millis ≤ restored_state_assumption_millis
      → 0 < get_inverter_max_power_watts e s
      → 0 < get_expected_limit_watts e s
      → let top = get_inverter_max_power_watts e s in
        let s' = restore_runtime_state e' (get_runtime_state_for_persistence e s) millis s0 in
        (get_current_output_ac_watts e'' s' ≡ min (get_current_output_ac_watts e s) top)
        × (get_expected_output_ac_watts e'' s' ≡ min (get_expected_output_ac_watts e s) top)
        × (is_reachable e'' s' ≡ is_reachable e s)
        × (is_producing e'' s'
            ≡ is_producing e s
              || ltb 0 (get_current_output_ac_watts e s)
              || ltb 0 (get_expected_output_ac_watts e s))
  unfolding get_runtime_state_for_persistence
  restore-persist e e' e'' millis s s0 h1 h2 h3 h4 h5 h6 h7 h8 =
      let r = get_runtime_state_for_persistence e s in
      let restored = restored-restore e' e'' r millis s0 (sym h1) h7 h8 h5 h6 in
      let (output, expected, reachable, producing) =
        restore-read e' e'' r millis s0 (sym h1) h7 h8 h2 h3 h4 restored in
      (output, expected, reachable, ground (arith, producing, h7))
