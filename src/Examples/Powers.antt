-- ===== src/Examples/Powers.antt =====
-- Powers and limits.
use flux_dtu.Base.{
  ℕ, ◌+◌, ◌≤◌, ◌<◌, ◌≡◌, ◌⊎◌, refl, true, false, ◌&&◌, some, arith, min, max, ltb, ◌==◌,
  if◌then◌else◌,
}
use flux_dtu.Float.{fixed}
use flux_dtu.Hoymiles.Device.{cmd_ok, get_max_power, get_limit_percent, total_ac}
use flux_dtu.Hoymiles.Device
use flux_dtu.Dpl.State.{Inverter, battery, solar}
use flux_dtu.Dpl.Readings.{
  is_using_restored_state, is_using_assumed_output, has_pending_target, is_producing,
  get_inverter_max_power_watts, get_configured_max_power_watts, get_current_output_ac_watts,
  get_expected_output_ac_watts, get_measured_output_ac_watts, get_current_limit_watts,
  get_expected_limit_watts,
}
use flux_dtu.Dpl.Battery
use flux_dtu.Dpl.Battery.Reduction.{apply_reduction-eq-min, apply_reduction_effect}
use flux_dtu.Dpl.Battery.Increase.{apply_increase-eq-min, apply_increase_effect}
use flux_dtu.Dpl.Solar
use flux_dtu.Dpl.Solar.Reduction.{solar_standby_answer}
use flux_dtu.Examples.Samples.{now, quiet, inverter}

abbrev pub sample : Inverter ℕ
sample = inverter battery quiet

abbrev roof : Inverter ℕ
roof = inverter solar quiet

pub sample_top : get_configured_max_power_watts now sample ≡ 800
unfolding get_configured_max_power_watts get_inverter_max_power_watts get_max_power
sample_top = refl

pub sample_output : get_expected_output_ac_watts now sample ≡ 300
unfolding get_expected_output_ac_watts has_pending_target is_using_restored_state
    get_current_output_ac_watts is_using_assumed_output get_measured_output_ac_watts
sample_output = refl

pub sample_limit : get_expected_limit_watts now sample ≡ 500
unfolding get_expected_limit_watts get_current_limit_watts get_inverter_max_power_watts
    get_max_power get_limit_percent
sample_limit = refl

apply_reduction-eq-min_example :
    (Battery.apply_reduction now 400 true sample).1
    ≡ min 400 (Battery.get_max_reduction_watts now true sample)
apply_reduction-eq-min_example = apply_reduction-eq-min now 400 true sample

apply_reduction_effect_example :
    let s' = (Battery.apply_reduction now 100 false sample).0 in
    let granted = (Battery.apply_reduction now 100 false sample).1 in
    ((get_expected_output_ac_watts now s' + granted ≡ get_expected_output_ac_watts now sample)
      × (get_expected_limit_watts now s' + granted ≤ get_expected_limit_watts now sample)
      × (0 < granted → 50 ≤ get_expected_limit_watts now s'))
    ⊎ (((false && true) ≡ true)
        × (s'.target_power_state ≡ some false)
        × (get_expected_output_ac_watts now s' ≡ 0))
apply_reduction_effect_example =
    apply_reduction_effect now 100 false sample refl (omega (arith, sample_top))
      (omega (arith, sample_top, sample_output)) (omega (arith, sample_top))
      (omega (arith, sample_limit))

apply_increase-eq-min_example : (Battery.apply_increase now 100 sample).1 ≡ (
    if get_expected_output_ac_watts now sample == 0
      && get_current_output_ac_watts now sample == 0
      && ltb 100 50
    then 0
    else min 100 (Battery.get_max_increase_watts now sample))
apply_increase-eq-min_example = apply_increase-eq-min now 100 sample

apply_increase_effect_example :
    let s' = (Battery.apply_increase now 100 sample).0 in
    let granted = (Battery.apply_increase now 100 sample).1 in
    ((s' ≡ sample) × (granted ≡ 0))
    ⊎ ((get_expected_output_ac_watts now s'
          ≡ max (get_expected_output_ac_watts now sample + granted) 50)
        × (50 ≤ get_expected_limit_watts now s')
        × (get_expected_limit_watts now s' ≤ get_configured_max_power_watts now sample))
apply_increase_effect_example =
    apply_increase_effect now 100 sample (omega (arith, sample_top))
      (omega (arith, sample_top, sample_output)) (omega (arith, sample_top))
      (omega (arith, sample_limit))

roof_top : get_configured_max_power_watts now roof ≡ 800
unfolding get_configured_max_power_watts get_inverter_max_power_watts get_max_power
roof_top = refl

roof_output : get_expected_output_ac_watts now roof ≡ 300
unfolding get_expected_output_ac_watts has_pending_target is_using_restored_state
    get_current_output_ac_watts is_using_assumed_output get_measured_output_ac_watts is_producing
    Device.is_producing total_ac
roof_output = refl

roof_current : get_current_output_ac_watts now roof ≡ 300
unfolding get_current_output_ac_watts is_using_assumed_output is_using_restored_state
    get_measured_output_ac_watts
roof_current = refl

solar_standby_answer_example :
    let answer = (Solar.standby now roof).1 in
    let current = get_current_output_ac_watts now roof in
    (50 ≤ current → answer + 50 ≡ current) × (current < 50 → answer + 50 ≡ current + 65_536)
solar_standby_answer_example =
    solar_standby_answer now roof (omega arith) (omega (arith, roof_current))
