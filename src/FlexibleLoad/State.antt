-- ===== src/FlexibleLoad/State.antt =====
-- include/FlexibleLoad.h, the loads' configuration of include/Configuration.h, and what a round of
-- the loop reads from elsewhere.
use flux_dtu.Base.{ℕ, Bool, Option, List}

pub data LoadState : Type 0 where
  disabled off waiting_for_start starting running_min_time running cooldown : LoadState

pub data StartReason : Type 0 where
  no_reason battery_soc bms_charge_current_limit : StartReason

pub data StartBlockReason : Type 0 where
  not_blocked power_limiter_disabled load_disabled mqtt_topic_missing battery_disabled
        power_meter_invalid mqtt_disconnected feed_in_below_start_limit start_condition_missing
        start_delay start_slot_busy cooling_down emergency_stop :
      StartBlockReason

-- the texts of `StopReason`
pub data StopReason : Type 0 where
  no_stop load_disabled emergency_grid_power grid_charger_power_limited
        bms_charge_current_below_limit battery_support_budget_exhausted grid_power_above_stop_limit
        restored_off :
      StopReason

-- `published` is the last command that was given to MQTT: whether it was the payload for "on".
pub record Runtime (F : Type 0) : Type 0 where
  pub current_state : LoadState
  pub state_changed_millis : ℕ  -- uint32, as all times
  pub start_candidate_since : ℕ
  pub stop_candidate_since : ℕ
  pub grid_charger_limit_stop_candidate_since : ℕ
  pub bms_charge_limit_stop_candidate_since : ℕ
  pub last_command_publish : ℕ
  pub load_started_millis : ℕ
  pub last_battery_energy_update : ℕ
  pub last_battery_support_state_persist : ℕ
  pub battery_support_energy_wh : F
  pub start_candidate_reason : StartReason
  pub current_start_reason : StartReason
  pub current_start_block_reason : StartBlockReason
  pub stop_reason : StopReason
  pub published : Option Bool

pub data EnergyMode : Type 0 where
  solar_only solar_and_charger_takeover high_priority_storage : EnergyMode

pub record LoadConfig (F : Type 0) : Type 0 where
  pub enabled : Bool
  pub priority : ℕ  -- uint8
  pub mode : EnergyMode
  pub mqtt_topic : List ℕ
  pub start_battery_soc_threshold : ℕ  -- uint8
  pub start_on_bms_charge_current_limit : Bool
  pub bms_charge_current_limit_margin : F
  pub start_power_demand : ℕ  -- uint16, as all that follow
  pub start_delay : ℕ
  pub startup_grace : ℕ
  pub min_runtime : ℕ
  pub min_off_time : ℕ
  pub stop_power_margin : ℕ
  pub stop_delay : ℕ
  pub battery_buffer_enabled : Bool
  pub battery_buffer_power_limit : ℕ
  pub battery_buffer_energy_limit : ℕ

-- What is read in a round: `now` is the time at its start, `millis` that at a later reading.
pub record Readings (F : Type 0) : Type 0 where
  pub now : ℕ  -- uint32
  pub millis : ℕ  -- uint32
  pub power_limiter_enabled : Bool
  pub is_emergency_stop_active : Bool  -- `isFlexibleLoadEmergencyStopActive()`
  pub dynamic_reserve_watts : F  -- `getFlexibleLoadDynamicReserveWatts()`
  pub stop_target_power_consumption : F  -- `getFlexibleLoadStopTargetPowerConsumption()`
  pub power_meter_valid : Bool
  pub power_total : F
  pub mqtt_connected : Bool
  pub mqtt_publish_interval : ℕ  -- uint32, seconds
  pub state_file_written : Bool  -- whether `persistState` succeeds
  pub battery_enabled : Bool
  pub is_soc_valid : Bool
  pub soc : F
  pub soc_age_seconds : ℕ
  pub is_voltage_valid : Bool
  pub voltage : F
  pub is_current_valid : Bool
  pub charge_current : F
  pub is_charge_current_limit_valid : Bool
  pub charge_current_limit : F
  pub charge_current_limit_age_seconds : ℕ
  pub age_seconds : ℕ
  pub grid_charger_enabled : Bool
  pub grid_charger_auto_power_enabled : Bool
  pub grid_charger_auto_power_status : Bool
  pub is_grid_charger_managed : Bool
  pub supports_power_limiter_control : Bool
  pub grid_charger_expected_input_power_watts : ℕ  -- uint16
  pub is_auto_power_limited_by_available_power : Bool
