-- ===== src/Limiter/State.antt =====
-- include/PowerLimiter.h: the limiter's state, its configuration (include/Configuration.h), and what
-- a round of its loop reads from elsewhere.
use flux_dtu.Base.{ℕ, Bool, Option}

pub data BatteryState : Type 0 where
  stop no_discharge discharge_allowed discharge_night : BatteryState

-- The budget of amp-seconds above the battery's continuous discharge current.
pub record Budget (F : Type 0) : Type 0 where
  pub amp_seconds : F
  pub capacity_amp_seconds : F
  pub update_millis : ℕ  -- uint32
  pub initialized : Bool
  pub estimate_amps : F
  pub limit_amps : F
  pub used_permille : ℕ  -- uint16

pub record Limiter (F : Type 0) : Type 0 where
  pub battery_state : BatteryState
  pub from_start : Bool
  pub one_stop_per_night_done : Bool
  pub full_solar_pass_through_active : Bool
  pub load_corrected_voltage : F
  pub budget : Budget F
  pub next_inverter_restart : Option ℕ  -- uint32; the pair's flag says whether there is one
  pub emergency_full_output_active : Bool
  pub last_emergency_full_output_request_millis : ℕ  -- uint32

pub record Config (F : Type 0) : Type 0 where
  pub battery_enabled : Bool  -- `Battery.Enabled`
  pub solar_charger_enabled : Bool  -- `SolarCharger.Enabled`
  pub solar_pass_through_enabled : Bool
  pub conduction_losses : ℕ  -- uint8, percent
  pub battery_always_use_at_night : Bool
  pub battery_discharge_current_limit_enabled : Bool
  pub battery_discharge_current_limit : F
  pub battery_discharge_current_peak_limit : F
  pub battery_discharge_current_peak_duration : ℕ  -- uint16, seconds
  pub battery_discharge_current_recovery_duration : ℕ  -- uint16, seconds
  pub ignore_soc : Bool
  pub battery_soc_start_threshold : ℕ  -- uint16
  pub battery_soc_stop_threshold : ℕ  -- uint16
  pub voltage_start_threshold : F
  pub voltage_stop_threshold : F
  pub voltage_load_correction_factor : F
  pub full_solar_pass_through_soc : ℕ  -- uint16
  pub full_solar_pass_through_start_voltage : F
  pub full_solar_pass_through_stop_voltage : F
  pub restart_hour : ℕ  -- uint8

-- `Battery.getStats()`
pub record BatteryStats (F : Type 0) : Type 0 where
  pub is_soc_valid : Bool
  pub soc : F
  pub soc_age_seconds : ℕ  -- uint32
  pub immediate_charging_request : Bool
