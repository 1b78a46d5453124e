-- ===== src/Dpl/Overscaling/Bounds.antt =====
-- Targets of the solar and smart-buffer inverters stay in range.
use flux_dtu.Base.{ℕ, ◌≤◌, min, max, ◌≡◌, refl, true, some, arith}
use flux_dtu.Float.{Float}
use flux_dtu.Dpl.State.{Inverter, Env}
use flux_dtu.Dpl.Readings.{
  get_expected_output_ac_watts, get_expected_limit_watts, get_inverter_max_power_watts,
  get_configured_max_power_watts,
}
use flux_dtu.Dpl.Targets.{
  set_target_power_limit_watts, set_target_power_state, set_expected_output_ac_watts,
}
use flux_dtu.Dpl.Pending.{get_expected_output-pending_state, get_expected_limit-pending}
use flux_dtu.Dpl.Overscaling.{scale_limit, set_ac_output_and_limit, set_ac_output}

module _ {F : Type 0} ⦃fl : Float F⦄ where
  pub set_ac_output_and_limit_output :
      (e : Env) (output limit : ℕ) (s : Inverter F)
      → get_expected_output_ac_watts e (set_ac_output_and_limit e output limit s)
        ≡ max (min output (get_configured_max_power_watts e s)) s.config.lower_power_limit
  unfolding set_ac_output_and_limit set_target_power_state set_target_power_limit_watts
      set_expected_output_ac_watts
  set_ac_output_and_limit_output e output limit s =
      get_expected_output-pending_state e (set_ac_output_and_limit e output limit s) refl

  pub set_ac_output_and_limit_limit :
      (e : Env) (output limit : ℕ) (s : Inverter F)
      → get_expected_limit_watts e (set_ac_output_and_limit e output limit s)
        ≡ max (min limit (get_inverter_max_power_watts e s)) s.config.lower_power_limit
  unfolding set_ac_output_and_limit set_target_power_state set_target_power_limit_watts
      set_expected_output_ac_watts
  set_ac_output_and_limit_limit e output limit s =
      get_expected_limit-pending e (set_ac_output_and_limit e output limit s) refl

  pub set_ac_output_and_limit_on :
      (e : Env) (output limit : ℕ) (s : Inverter F)
      → (set_ac_output_and_limit e output limit s).target_power_state ≡ some true
  unfolding set_ac_output_and_limit set_target_power_state set_target_power_limit_watts
      set_expected_output_ac_watts
  set_ac_output_and_limit_on e output limit s = refl

  -- Scaling never lowers the limit below the output that it is meant to yield.
  pub le-scale_limit : (e : Env) (output : ℕ) (s : Inverter F) → output ≤ scale_limit e output s
  unfolding scale_limit
  le-scale_limit e output s = ground arith

  configured-le-inverter :
      (e : Env) (s : Inverter F)
      → get_configured_max_power_watts e s ≤ get_inverter_max_power_watts e s
  unfolding get_configured_max_power_watts
  configured-le-inverter e s = omega arith

  -- Whatever output is asked for, the planned output lies in the configured range and the limit
  -- between the lower limit and the inverter's maximum; the limit is at least the planned output.
  -- This is for a lower limit that the configured range admits.
  pub set_ac_output_bounds :
      (e : Env) (output : ℕ) (s : Inverter F)
      → s.config.lower_power_limit ≤ get_configured_max_power_watts e s
      → let s' = set_ac_output e output s in
        (s.config.lower_power_limit ≤ get_expected_output_ac_watts e s')
        × (get_expected_output_ac_watts e s' ≤ get_configured_max_power_watts e s)
        × (get_expected_output_ac_watts e s' ≤ get_expected_limit_watts e s')
        × (get_expected_limit_watts e s' ≤ get_inverter_max_power_watts e s)
  unfolding set_ac_output
  set_ac_output_bounds e output s h =
      let output' =
        max (min output (get_configured_max_power_watts e s)) s.config.lower_power_limit in
      ground (
        arith,
        le-scale_limit e output' s,
        configured-le-inverter e s,
        set_ac_output_and_limit_output e output' (scale_limit e output' s) s,
        set_ac_output_and_limit_limit e output' (scale_limit e output' s) s,
      )
