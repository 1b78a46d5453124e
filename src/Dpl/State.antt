-- ===== src/Dpl/State.antt =====
-- include/PowerLimiterInverter.h: the object's state, and the configuration of
-- include/Configuration.h. A `std::optional` is an `Option`; a width is noted at each integer.
use flux_dtu.Base.{ℕ, Bool, Option, List}
use flux_dtu.Hoymiles.Device.{Device}

-- The subclass of an inverter is fixed by its power source (`PowerLimiterInverter::create`).
pub data InverterPowerSource : Type 0 where
  battery solar smart_buffer : InverterPowerSource

pub record InverterConfig : Type 0 where
  pub serial : ℕ  -- uint64
  pub is_behind_power_meter : Bool
  pub use_overscaling : Bool
  pub allow_standby : Bool
  pub lower_power_limit : ℕ  -- uint16
  pub upper_power_limit : ℕ  -- uint16
  pub power_source : InverterPowerSource

pub data TargetDispatchKind : Type 0 where
  power_limit power_state : TargetDispatchKind

pub record TargetDispatchEvent : Type 0 where
  pub kind : TargetDispatchKind
  pub target_setpoint_watts : ℕ  -- uint16
  pub expected_output_ac_watts : ℕ  -- uint16
  pub sent_millis : ℕ  -- uint32
  pub power_on : Bool  -- `powerState`
  pub completed : Bool

pub record RuntimeState (F : Type 0) : Type 0 where
  pub serial : ℕ  -- uint64
  pub output_ac_watts : ℕ  -- uint16
  pub expected_output_ac_watts : ℕ  -- uint16
  pub power_limit_watts : ℕ  -- uint16
  pub max_power_watts : ℕ  -- uint16
  pub grid_voltage : F
  pub reachable : Bool
  pub producing : Bool

-- What a call reads from elsewhere: the millisecond counter and the position of the sun.
pub record Env : Type 0 where
  pub millis : ℕ  -- uint32
  pub is_day_period : Bool

pub record Inverter (F : Type 0) : Type 0 where
  pub config : InverterConfig
  pub device : Device F  -- `_spInverter`
  pub retired : Bool
  pub update_timeouts : ℕ  -- uint8
  pub update_start_millis : Option ℕ  -- uint32
  pub next_update_attempt_millis : Option ℕ  -- uint32
  pub target_power_limit_watts : Option ℕ  -- uint16
  pub last_target_power_limit_watts : Option ℕ  -- uint16
  pub target_power_state : Option Bool
  pub force_power_state_command : Bool
  pub allow_parallel_startup_commands : Bool
  pub in_flight_power_limit_watts : Option ℕ  -- uint16
  pub in_flight_power_limit_expected_output : Option ℕ  -- uint16
  pub in_flight_power_state : Option Bool
  pub in_flight_power_state_expected_output : Option ℕ  -- uint16
  pub target_dispatch_events : List TargetDispatchEvent
  pub stats_millis : Option ℕ  -- uint32
  pub assumed_output_ac_watts : Option ℕ  -- uint16
  pub assumed_output_valid_after_millis : Option ℕ  -- uint32
  pub keep_assumed_output : Bool
  pub restored_runtime_state : RuntimeState F
  pub restored_state_millis : Option ℕ  -- uint32
  pub restored_limit_millis : Option ℕ  -- uint32
  pub expected_output_ac_watts : ℕ  -- uint16
  pub restart_triggered : Bool  -- `RestartHelper.triggerRestart` was called
