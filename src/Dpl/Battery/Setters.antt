-- ===== src/Dpl/Battery/Setters.antt =====
-- What the setters of a battery-powered inverter leave behind.
use flux_dtu.Base.{ℕ, min, max, ◌≡◌, refl, false, some}
use flux_dtu.Float.{Float}
use flux_dtu.Dpl.State.{Inverter, Env}
use flux_dtu.Dpl.Readings.{
  get_expected_output_ac_watts, get_expected_limit_watts, get_configured_max_power_watts,
}
use flux_dtu.Dpl.Targets.{
  set_target_power_limit_watts, set_target_power_state, set_expected_output_ac_watts,
  reassert_target_power_state,
}
use flux_dtu.Dpl.Pending.{get_expected_output-pending_state, get_expected_limit-pending}
use flux_dtu.Dpl.Battery.{standby, set_ac_output_and_limit}

module _ {F : Type 0} ⦃fl : Float F⦄ where
  pub set_ac_output_and_limit_output :
      (e : Env) (output limit : ℕ) (s : Inverter F)
      → get_expected_output_ac_watts e (set_ac_output_and_limit e output limit s)
        ≡ max (min output (get_configured_max_power_watts e s)) s.config.lower_power_limit
  unfolding set_ac_output_and_limit set_target_power_state set_target_power_limit_watts
      set_expected_output_ac_watts
  set_ac_output_and_limit_output e output limit s =
      get_expected_output-pending_state e (set_ac_output_and_limit e output limit s) refl

  pub set_ac_output_and_limit_limit :
      (e : Env) (output limit : ℕ) (s : Inverter F)
      → get_expected_limit_watts e (set_ac_output_and_limit e output limit s)
        ≡ max (min limit (get_configured_max_power_watts e s)) s.config.lower_power_limit
  unfolding set_ac_output_and_limit set_target_power_state set_target_power_limit_watts
      set_expected_output_ac_watts
  set_ac_output_and_limit_limit e output limit s =
      get_expected_limit-pending e (set_ac_output_and_limit e output limit s) refl

  pub reasserted_output :
      (e : Env) (output limit : ℕ) (s : Inverter F)
      → get_expected_output_ac_watts e
          (reassert_target_power_state (set_ac_output_and_limit e output limit s))
        ≡ max (min output (get_configured_max_power_watts e s)) s.config.lower_power_limit
  unfolding set_ac_output_and_limit set_target_power_state set_target_power_limit_watts
      set_expected_output_ac_watts reassert_target_power_state
  reasserted_output e output limit s =
      get_expected_output-pending_state e
        (reassert_target_power_state (set_ac_output_and_limit e output limit s)) refl

  pub reasserted_limit :
      (e : Env) (output limit : ℕ) (s : Inverter F)
      → get_expected_limit_watts e
          (reassert_target_power_state (set_ac_output_and_limit e output limit s))
        ≡ max (min limit (get_configured_max_power_watts e s)) s.config.lower_power_limit
  unfolding set_ac_output_and_limit set_target_power_state set_target_power_limit_watts
      set_expected_output_ac_watts reassert_target_power_state
  reasserted_limit e output limit s =
      get_expected_limit-pending e
        (reassert_target_power_state (set_ac_output_and_limit e output limit s)) refl

  pub standby_output :
      (e : Env) (s : Inverter F) → get_expected_output_ac_watts e (standby e s).0 ≡ 0
  unfolding standby set_target_power_state set_expected_output_ac_watts
  standby_output e s = get_expected_output-pending_state e (standby e s).0 refl

  pub standby_state : (e : Env) (s : Inverter F) → (standby e s).0.target_power_state ≡ some false
  unfolding standby set_target_power_state set_expected_output_ac_watts
  standby_state e s = refl
