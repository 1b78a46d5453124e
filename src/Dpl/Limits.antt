-- ===== src/Dpl/Limits.antt =====
-- src/PowerLimiterInverter.cpp: `applyConfiguredLimitBounds` and `refreshStaleLimit`.
pub mod Bounds
use flux_dtu.Base.{
  ℕ, zero, ◌+◌, ◌&&◌, ◌||◌, Bool, true, false, not, min, max, ltb, leb, ◌==◌, if◌then◌else◌,
  value_or, sub32,
}
use flux_dtu.Float.{Float}
use flux_dtu.Dpl.State.{Inverter, Env}
use flux_dtu.Dpl.Readings.{
  is_eligible, is_producing, has_pending_target, has_restored_limit_pending_feedback,
  get_current_output_ac_watts, get_current_limit_watts, get_configured_max_power_watts,
  get_limit_resolution_watts, clamp_limit_to_configured_bounds,
}
use flux_dtu.Dpl.Targets.{set_target_power_limit_watts, set_expected_output_ac_watts}

abbrev pub limit_refresh_interval_millis : ℕ
limit_refresh_interval_millis = 60_000

module _ {F : Type 0} ⦃fl : Float F⦄ where
  -- is the limit inside the configured range, up to the resolution of the percentage?
  limit_within_bounds : Env → Inverter F → Bool
  limit_within_bounds e s =
      let current = get_current_limit_watts e s in
      let resolution = get_limit_resolution_watts e s in
      let lower = if is_producing e s then s.config.lower_power_limit else 0 in
      leb lower (current + resolution)
      && leb current (get_configured_max_power_watts e s + resolution)

  unfoldable pub apply_configured_limit_bounds : Env → Inverter F → Inverter F × Bool
  unfolding limit_within_bounds
  apply_configured_limit_bounds e s =
      let capped = min (get_current_output_ac_watts e s) (get_configured_max_power_watts e s) in
      let expected = if is_producing e s then max capped s.config.lower_power_limit else capped in
      let target = clamp_limit_to_configured_bounds e s (get_current_limit_watts e s) in
      if not (is_eligible e s) || has_pending_target s
      then (s, false)
      else if limit_within_bounds e s
      then (s, false)
      else (set_target_power_limit_watts target (set_expected_output_ac_watts expected s), true)

  -- was a limit command answered within the interval?
  limit_is_fresh : Env → Inverter F → Bool
  limit_is_fresh e s =
      let last = s.device.system_config_para.last_update_command in
      ltb 0 last && ltb (sub32 e.millis last) limit_refresh_interval_millis

  unfoldable pub refresh_stale_limit : Env → Inverter F → Inverter F × Bool
  unfolding limit_is_fresh
  refresh_stale_limit e s =
      let known = value_or s.last_target_power_limit_watts (get_current_limit_watts e s) in
      let target = clamp_limit_to_configured_bounds e s known in
      if not (is_eligible e s) || has_pending_target s || not (is_producing e s)
      then (s, false)
      else if has_restored_limit_pending_feedback s
      then (s, false)
      else if limit_is_fresh e s
      then (s, false)
      else if target == 0
      then (s, false)
      else (
        set_target_power_limit_watts target
            (set_expected_output_ac_watts (get_current_output_ac_watts e s) s),
        true,
      )
