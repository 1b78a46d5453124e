-- ===== src/Dpl/Pending.antt =====
-- The queries at a state where a target is pending.
use flux_dtu.Base.{ℕ, ◌≡◌, Bool, some, arith}
use flux_dtu.Float.{Float}
use flux_dtu.Dpl.State.{Inverter, Env}
use flux_dtu.Dpl.Readings.{
  get_expected_output_ac_watts, get_expected_limit_watts, has_pending_target,
}

module _ {F : Type 0} ⦃fl : Float F⦄ where
  -- While a power state is the target, the expected output is the planned one.
  pub get_expected_output-pending_state :
      (e : Env) (s : Inverter F) {on : Bool}
      → s.target_power_state ≡ some on
      → get_expected_output_ac_watts e s ≡ s.expected_output_ac_watts
  unfolding get_expected_output_ac_watts has_pending_target
  get_expected_output-pending_state e s h = ground arith

  -- While a limit is the target, so is the expected output, and the target is the expected limit.
  pub get_expected_output-pending_limit :
      (e : Env) (s : Inverter F) {w : ℕ}
      → s.target_power_limit_watts ≡ some w
      → get_expected_output_ac_watts e s ≡ s.expected_output_ac_watts
  unfolding get_expected_output_ac_watts has_pending_target
  get_expected_output-pending_limit e s h = ground arith

  pub get_expected_limit-pending :
      (e : Env) (s : Inverter F) {w : ℕ}
      → s.target_power_limit_watts ≡ some w
      → get_expected_limit_watts e s ≡ w
  unfolding get_expected_limit_watts
  get_expected_limit-pending e s h = ground arith
