-- ===== src/Examples/Samples.antt =====
-- An inverter of 1000 W with a limit of 500 W and an output of 300 W, and variants of it.
use flux_dtu.Base.{ℕ, Bool, true, false, none, some, [], ◌∷◌, ◌≡◌, refl, Option}
use flux_dtu.Float.{fixed}
use flux_dtu.Hoymiles.Device.{
  Device, Statistics, SystemConfigPara, PowerCommand, ChannelMetaData, LastCommandSuccess, cmd_ok,
  cmd_nok, cmd_pending, relativ_non_persistent, get_max_power, get_limit_percent,
}
use flux_dtu.Hoymiles.Device
use flux_dtu.Dpl.State.{
  Inverter, InverterConfig, InverterPowerSource, battery, solar, smart_buffer, RuntimeState, Env,
}
use flux_dtu.Dpl.Readings.{
  get_eligibility, eligible, is_reachable, is_using_restored_state, get_inverter_max_power_watts,
  get_current_limit_watts, get_grid_voltage, in_command_backoff,
}

abbrev pub now : Env
now = record { millis = 1_000_000; is_day_period = true }

abbrev pub device_after : LastCommandSuccess → (answered : ℕ) → Device ℕ
device_after success answered = record {
  enable_polling = true;
  enable_commands = true;
  reachable_threshold = 2;
  max_power_override = 0;
  detected_max_power = 1000;
  channel_meta_data = record { ch = 0; mppt = 0 } ∷ record { ch = 1; mppt = 1 } ∷ [];
  supports_power_distribution_logic = false;
  statistics = record {
    last_update = 990_000;
    rx_failure_count = 0;
    ac_channels = some 300_000 ∷ [];
    ac_power = 300_000;
    ac_voltage = 230_000;
    efficiency = some 95_000;
    dc_power = λ c. some 160_000;
  };
  system_config_para = record {
    limit_tenths = 500;
    last_limit_command_success = success;
    last_update_command = answered;
    last_update_request = 900_000;
  };
  power_command = record { last_power_command_success = cmd_ok; last_update_command = 900_000 };
  suppress_next_request_history = false;
  active_power_control_limit = 0;
  active_power_control_type = relativ_non_persistent;
  active_power_control_suppress_request_history = false;
  power_state = 1;
  power_control_suppress_request_history = false;
  enqueued = [];
}

abbrev pub config_of : InverterPowerSource → InverterConfig
config_of source = record {
  serial = 7;
  is_behind_power_meter = true;
  use_overscaling = true;
  allow_standby = true;
  lower_power_limit = 50;
  upper_power_limit = 800;
  power_source = source;
}

abbrev pub nothing_restored : RuntimeState ℕ
nothing_restored = record {
  serial = 0;
  output_ac_watts = 0;
  expected_output_ac_watts = 0;
  power_limit_watts = 0;
  max_power_watts = 0;
  grid_voltage = 0;
  reachable = false;
  producing = false;
}

abbrev pub inverter : InverterPowerSource → Device ℕ → Inverter ℕ
inverter source device = record {
  config = config_of source;
  device = device;
  retired = false;
  update_timeouts = 0;
  update_start_millis = none;
  next_update_attempt_millis = none;
  target_power_limit_watts = none;
  last_target_power_limit_watts = none;
  target_power_state = none;
  force_power_state_command = false;
  allow_parallel_startup_commands = false;
  in_flight_power_limit_watts = none;
  in_flight_power_limit_expected_output = none;
  in_flight_power_state = none;
  in_flight_power_state_expected_output = none;
  target_dispatch_events = [];
  stats_millis = none;
  assumed_output_ac_watts = none;
  assumed_output_valid_after_millis = none;
  keep_assumed_output = false;
  restored_runtime_state = nothing_restored;
  restored_state_millis = none;
  restored_limit_millis = none;
  expected_output_ac_watts = 0;
  restart_triggered = false;
}

abbrev pub quiet : Device ℕ
quiet = device_after cmd_ok 900_000

-- A limit of 400 W is in flight since 995 s.
abbrev pub limiting : InverterPowerSource → Device ℕ → Inverter ℕ
limiting source device =
    let s = inverter source device in
    record s {
      update_timeouts = 19;
      update_start_millis = some 995_000;
      target_power_limit_watts = some 400;
      in_flight_power_limit_watts = some 400;
      in_flight_power_limit_expected_output = some 280;
    }

-- The same at any start and with any power state as its target.
abbrev pub running : InverterPowerSource → Device ℕ → (start : ℕ) → Option Bool → Inverter ℕ
running source device start state =
    let s = limiting source device in
    record s { update_start_millis = some start; target_power_state = state }

-- Whatever the last limit command came to, the inverter is eligible.
pub running-eligible :
    (source : InverterPowerSource) (success : LastCommandSuccess) (answered start : ℕ)
    (state : Option Bool)
    → get_eligibility now (running source (device_after success answered) start state) ≡ eligible
unfolding get_eligibility is_reachable is_using_restored_state get_inverter_max_power_watts
    get_current_limit_watts get_grid_voltage in_command_backoff get_max_power get_limit_percent
    Device.is_reachable
running-eligible battery success answered start state = refl
running-eligible solar success answered start state = refl
running-eligible smart_buffer success answered start state = refl
