-- ===== src/Limiter/Battery.antt =====
-- src/PowerLimiter.cpp: the thresholds, and the state machine for the battery.
pub mod Trace
use flux_dtu.Base.{
  ℕ, zero, suc, ◌+◌, Bool, true, false, ◌&&◌, ◌||◌, not, List, [], ◌∷◌, ltb, if◌then◌else◌,
}
use flux_dtu.Float.{Float}
use flux_dtu.Dpl.State.{Inverter}
use flux_dtu.Dpl.Readings.{is_battery_powered, is_smart_buffer_powered}
use flux_dtu.Limiter.State.{
  BatteryState, stop, no_discharge, discharge_allowed, discharge_night, Limiter, Config,
  BatteryStats,
}

module _ {F : Type 0} where
  abbrev pub uses_battery_powered_inverter : List (Inverter F) → Bool
  uses_battery_powered_inverter [] = false
  uses_battery_powered_inverter (inv ∷ invs) =
      is_battery_powered inv || uses_battery_powered_inverter invs

  abbrev pub uses_smart_buffer_powered_inverter : List (Inverter F) → Bool
  uses_smart_buffer_powered_inverter [] = false
  uses_smart_buffer_powered_inverter (inv ∷ invs) =
      is_smart_buffer_powered inv || uses_smart_buffer_powered_inverter invs

  abbrev pub is_solar_pass_through_enabled : Config F → List (Inverter F) → Bool
  is_solar_pass_through_enabled c invs =
      uses_battery_powered_inverter invs && c.solar_charger_enabled && c.solar_pass_through_enabled

-- What a round reads of the battery, the sun and the inverters.
pub record Round (F : Type 0) : Type 0 where
  pub config : Config F
  pub stats : BatteryStats F
  pub inverters : List (Inverter F)
  pub is_day_period : Bool
  pub dc_voltage : F  -- `getBatteryVoltage()`
  pub battery_inverters_output_ac_watts : F

module _ {F : Type 0} ⦃fl : Float F⦄ where
  -- The state of charge is used if it is known, current and wanted; else the voltage.
  unfoldable pub test_threshold :
      (soc_threshold : ℕ) (volt_threshold : F) (compare : F → F → Bool)
      → Round F
      → (load_corrected_voltage : F) → Bool
  test_threshold soc_threshold volt_threshold compare r voltage =
      if not r.config.ignore_soc
        && r.config.battery_enabled
        && ltb 0 soc_threshold
        && r.stats.is_soc_valid
        && ltb r.stats.soc_age_seconds 60
      then compare r.stats.soc (fl.of_nat soc_threshold)
      else if fl.le volt_threshold (fl.of_nat 0)
      then false
      else compare voltage volt_threshold

  unfoldable pub is_start_threshold_reached : Round F → (load_corrected_voltage : F) → Bool
  is_start_threshold_reached r voltage =
      test_threshold r.config.battery_soc_start_threshold r.config.voltage_start_threshold
        (λ (a b : F). fl.le b a) r voltage

  unfoldable pub is_stop_threshold_reached : Round F → (load_corrected_voltage : F) → Bool
  is_stop_threshold_reached r voltage =
      test_threshold r.config.battery_soc_stop_threshold r.config.voltage_stop_threshold
        (λ (a b : F). fl.le a b) r voltage

  unfoldable pub is_below_stop_threshold : Round F → (load_corrected_voltage : F) → Bool
  is_below_stop_threshold r voltage =
      test_threshold r.config.battery_soc_stop_threshold r.config.voltage_stop_threshold
        (λ (a b : F). fl.lt a b) r voltage

  unfoldable pub get_load_corrected_voltage : Round F → F
  get_load_corrected_voltage r =
      if fl.le r.dc_voltage (fl.of_nat 0)
      then fl.of_nat 0
      else fl.add r.dc_voltage
          (fl.mul r.battery_inverters_output_ac_watts r.config.voltage_load_correction_factor)

  -- The lambda `getBatteryState`: its answer is put in the state, as the loop does.
  unfoldable pub get_battery_state : Round F → Limiter F → Limiter F
  get_battery_state r l =
      if not (uses_battery_powered_inverter r.inverters)
      then (record l { battery_state = stop })
      else if is_stop_threshold_reached r l.load_corrected_voltage
      then (record l {
        battery_state = stop;
        from_start = false;
        one_stop_per_night_done = not r.is_day_period;
      })
      else if is_start_threshold_reached r l.load_corrected_voltage
      then (record l { battery_state = discharge_allowed; from_start = true })
      else if l.from_start
      then (record l { battery_state = discharge_allowed })
      else if not r.config.battery_always_use_at_night || r.is_day_period
      then (record l {
        battery_state =
            if is_solar_pass_through_enabled r.config r.inverters then no_discharge else stop;
        one_stop_per_night_done = false;
      })
      else if l.one_stop_per_night_done
      then (record l { battery_state = stop })
      else (record l { battery_state = discharge_night })

  unfoldable pub get_full_solar_passthrough : Round F → Limiter F → Bool
  get_full_solar_passthrough r l =
      if not (is_solar_pass_through_enabled r.config r.inverters)
        || not (is_start_threshold_reached r l.load_corrected_voltage)
      then false
      else if test_threshold r.config.full_solar_pass_through_soc
          r.config.full_solar_pass_through_start_voltage (λ (a b : F). fl.le b a) r
          l.load_corrected_voltage
      then true
      else if test_threshold r.config.full_solar_pass_through_soc
          r.config.full_solar_pass_through_stop_voltage (λ (a b : F). fl.lt a b) r
          l.load_corrected_voltage
      then false
      else l.full_solar_pass_through_active

  -- the loop's three assignments
  unfoldable pub update_battery_state : Round F → Limiter F → Limiter F
  update_battery_state r l =
      let l' =
        get_battery_state r (record l { load_corrected_voltage = get_load_corrected_voltage r }) in
      record l' { full_solar_pass_through_active = get_full_solar_passthrough r l' }
