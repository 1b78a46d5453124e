-- ===== src/Dpl/Limits/Bounds.antt =====
-- The limit that is put back in its bounds, or refreshed.
use flux_dtu.Base.{◌+◌, ◌≤◌, ◌<◌, ◌≡◌, ◌⊎◌, true, false, none, arith, min, max, value_or}
use flux_dtu.Float.{Float}
use flux_dtu.Dpl.State.{Inverter, Env}
use flux_dtu.Dpl.Readings.{
  is_producing, has_pending_target, get_current_output_ac_watts, get_current_limit_watts,
  get_configured_max_power_watts, get_limit_resolution_watts, clamp_limit_to_configured_bounds,
}
use flux_dtu.Dpl.Targets.{set_target_power_limit_watts, set_expected_output_ac_watts}
use flux_dtu.Dpl.Limits.{
  apply_configured_limit_bounds, limit_within_bounds, refresh_stale_limit, limit_is_fresh,
}

module _ {F : Type 0} ⦃fl : Float F⦄ where
  -- `applyConfiguredLimitBounds` acts only on an eligible inverter with no target and a limit that
  -- is off by more than the resolution. It then sets a limit and an expected output within the
  -- configured range; the new limit differs from the current one by more than the resolution.
  -- Otherwise nothing changes. This is for a lower limit that the range admits.
  pub apply_configured_limit_bounds_effect :
      (e : Env) (s : Inverter F)
      → s.config.lower_power_limit ≤ get_configured_max_power_watts e s
      → let s' = (apply_configured_limit_bounds e s).0 in
        let current = get_current_limit_watts e s in
        let target = value_or s'.target_power_limit_watts 0 in
        let resolution = get_limit_resolution_watts e s in
        ((apply_configured_limit_bounds e s).1 ≡ false → s' ≡ s)
        × ((apply_configured_limit_bounds e s).1 ≡ true
            → (has_pending_target s ≡ false)
              × (target ≤ get_configured_max_power_watts e s)
              × (s'.expected_output_ac_watts ≤ get_configured_max_power_watts e s)
              × (is_producing e s ≡ true → s.config.lower_power_limit ≤ target)
              × ((current + resolution < target) ⊎ (target + resolution < current)))
  unfolding apply_configured_limit_bounds limit_within_bounds clamp_limit_to_configured_bounds
      set_target_power_limit_watts set_expected_output_ac_watts
  apply_configured_limit_bounds_effect e s h = ground arith

  -- `refreshStaleLimit` repeats the last limit, put within the configured range, without a change of
  -- the expected output, and only while the inverter produces; it never sets a limit of 0.
  pub refresh_stale_limit_effect :
      (e : Env) (s : Inverter F)
      → s.config.lower_power_limit ≤ get_configured_max_power_watts e s
      → let s' = (refresh_stale_limit e s).0 in
        let target = value_or s'.target_power_limit_watts 0 in
        let known = value_or s.last_target_power_limit_watts (get_current_limit_watts e s) in
        ((refresh_stale_limit e s).1 ≡ false → s' ≡ s)
        × ((refresh_stale_limit e s).1 ≡ true
            → (is_producing e s ≡ true)
              × (0 < target)
              × (target
                  ≡ max (min known (get_configured_max_power_watts e s)) s.config.lower_power_limit)
              × (s'.expected_output_ac_watts ≡ get_current_output_ac_watts e s)
              × (s'.target_power_state ≡ none))
  unfolding refresh_stale_limit limit_is_fresh clamp_limit_to_configured_bounds
      set_target_power_limit_watts set_expected_output_ac_watts has_pending_target
  refresh_stale_limit_effect e s h = ground arith
