-- ===== src/Limiter/Current.antt =====
-- include/PowerLimiterBatteryCurrentLimit.h, and src/PowerLimiter.cpp's budget for discharge
-- currents above the continuous one.
pub mod Bounds
use flux_dtu.Base.{
  ℕ, ◌+◌, Bool, true, false, ◌&&◌, ◌||◌, not, Option, none, some, ltb, ◌==◌, if◌then◌else◌, sub32,
}
use flux_dtu.Float.{Float, float_max, clamp}
use flux_dtu.Limiter.State.{Config, Budget}

module _ {F : Type 0} ⦃fl : Float F⦄ where
  unfoldable pub peak_headroom_amps : (continuous_limit peak_limit : F) → F
  peak_headroom_amps continuous peak = float_max (fl.of_nat 0) (fl.sub peak continuous)

  unfoldable pub budget_capacity_amp_seconds :
      (continuous_limit peak_limit peak_duration_seconds : F) → F
  budget_capacity_amp_seconds continuous peak duration =
      fl.mul (peak_headroom_amps continuous peak) (float_max (fl.of_nat 0) duration)

  unfoldable pub current_limit_amps :
      (continuous_limit peak_limit peak_duration_seconds budget_amp_seconds : F) → F
  current_limit_amps continuous peak duration budget_amp_seconds =
      let budget =
        clamp budget_amp_seconds (fl.of_nat 0)
          (budget_capacity_amp_seconds continuous peak duration) in
      if fl.le (peak_headroom_amps continuous peak) (fl.of_nat 0) || fl.le duration (fl.of_nat 0)
      then continuous
      else if fl.le budget (fl.of_nat 0)
      then continuous
      else clamp (fl.add continuous (fl.div budget duration)) continuous peak

  unfoldable pub reset_battery_discharge_current_limit_budget : Budget F → Budget F
  reset_battery_discharge_current_limit_budget b = record {
    amp_seconds = fl.of_nat 0;
    capacity_amp_seconds = fl.of_nat 0;
    update_millis = 0;
    initialized = false;
    estimate_amps = fl.of_nat 0;
    limit_amps = fl.of_nat 0;
    used_permille = 0;
  }

  -- what is in the budget after some time at the estimated current
  unfoldable pub spend :
      (continuous_limit capacity : F) (recovery_duration elapsed_millis : ℕ) → Budget F → F
  spend continuous capacity recovery elapsed b =
      let seconds = fl.div (fl.of_nat elapsed) (fl.of_nat 1000) in
      let scale =
        clamp (fl.div (fl.sub continuous b.estimate_amps) continuous) (fl.of_nat 0) (fl.of_nat 1) in
      if fl.lt continuous b.estimate_amps
      then fl.sub b.amp_seconds (fl.mul (fl.sub b.estimate_amps continuous) seconds)
      else if recovery == 0
      then capacity
      else fl.add b.amp_seconds
          (fl.mul (fl.mul (fl.div capacity (fl.of_nat recovery)) scale) seconds)

  unfoldable pub update_budget :
      (now : ℕ) (continuous_limit capacity : F) (recovery_duration : ℕ) → Budget F → Budget F
  update_budget now continuous capacity recovery b =
      let elapsed = sub32 now b.update_millis in
      if not b.initialized
        || fl.lt (fl.rational 1 1000) (fl.abs (fl.sub b.capacity_amp_seconds capacity))
      then (record b {
        capacity_amp_seconds = capacity;
        amp_seconds = capacity;
        update_millis = now;
        initialized = true;
      })
      else if ltb 0 elapsed
      then (record b {
        amp_seconds = clamp (spend continuous capacity recovery elapsed b) (fl.of_nat 0) capacity;
        update_millis = now;
      })
      else b

  unfoldable pub used_permille_of : (capacity amp_seconds : F) → ℕ
  used_permille_of capacity amp_seconds = fl.to_u16 (
      clamp
        (fl.round (fl.mul (fl.sub (fl.of_nat 1) (fl.div amp_seconds capacity)) (fl.of_nat 1000)))
        (fl.of_nat 0) (fl.of_nat 1000))

  -- the part of `getConfiguredBatteryDischargeCurrentLimit` for a limit above 0 with a peak
  unfoldable pub limit_with_peak :
      (now : ℕ) (continuous_limit peak_limit : F) → Config F → Budget F → Budget F
  limit_with_peak now continuous peak c b =
      let duration = fl.of_nat c.battery_discharge_current_peak_duration in
      let capacity = budget_capacity_amp_seconds continuous peak duration in
      let b' =
        update_budget now continuous capacity c.battery_discharge_current_recovery_duration b in
      record b' {
        limit_amps = current_limit_amps continuous peak duration b'.amp_seconds;
        used_permille = used_permille_of capacity b'.amp_seconds;
      }

  -- one without a peak
  unfoldable pub limit_without_peak : (now : ℕ) (continuous_limit : F) → Budget F → Budget F
  limit_without_peak now continuous b = record b {
    amp_seconds = fl.of_nat 0;
    capacity_amp_seconds = fl.of_nat 0;
    initialized = true;
    update_millis = now;
    limit_amps = continuous;
    used_permille = 0;
  }

  abbrev pub continuous_limit_of : Config F → F
  continuous_limit_of c = float_max (fl.of_nat 0) c.battery_discharge_current_limit

  abbrev pub peak_limit_of : Config F → F
  peak_limit_of c = float_max (continuous_limit_of c) c.battery_discharge_current_peak_limit

  -- `estimate` is `estimateBatteryDischargeCurrent()`.
  unfoldable pub configured_budget : (now : ℕ) (estimate : F) → Config F → Budget F → Budget F
  configured_budget now estimate c b =
      let continuous = continuous_limit_of c in
      let b' = record b { estimate_amps = estimate } in
      if not c.battery_discharge_current_limit_enabled || fl.le continuous (fl.of_nat 0)
      then reset_battery_discharge_current_limit_budget b
      else if fl.le (peak_limit_of c) continuous || c.battery_discharge_current_peak_duration == 0
      then limit_without_peak now continuous b'
      else limit_with_peak now continuous (peak_limit_of c) c b'

  unfoldable pub get_configured_battery_discharge_current_limit :
      (now : ℕ) (estimate : F) → Config F → Budget F → Option F
  get_configured_battery_discharge_current_limit now estimate c b =
      if not c.battery_discharge_current_limit_enabled
      then none
      else some (configured_budget now estimate c b).limit_amps
