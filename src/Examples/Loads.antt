-- ===== src/Examples/Loads.antt =====
-- Flexible loads, in thousandths for `float`.
use flux_dtu.Base.{
  ℕ, ◌-◌, ◌≤◌, ◌≡◌, refl, true, false, List, [], ◌∷◌, none, some, arith, codes, same_text, not,
}
use flux_dtu.Float.{fixed}
use flux_dtu.FlexibleLoad.State.{
  LoadState, off, waiting_for_start, running, cooldown, no_reason, battery_soc, not_blocked,
  no_stop, solar_only, LoadConfig, Readings, Runtime,
}
use flux_dtu.FlexibleLoad.Commands.{has_passed}
use flux_dtu.FlexibleLoad.Judgement.{Turn}
use flux_dtu.FlexibleLoad.Step.{loop_load}
use flux_dtu.FlexibleLoad.Loop.{Round, rounds}
use flux_dtu.FlexibleLoad.Agreement.{AllFollow, none_left, one_more, rounds-AllFollow}
use flux_dtu.FlexibleLoad.Slot.{starting_count, rounds-starting_count}
use flux_dtu.FlexibleLoad.Transitions.{may_become, conditions, loop_load-may_become}
use flux_dtu.FlexibleLoad.Times.{turns, turns-cooldown}
use flux_dtu.FlexibleLoad.Restore.{restore_load, persisted_of, restore_load-persisted_of}

abbrev runtime_in : LoadState → Runtime ℕ
runtime_in s = record {
  current_state = s;
  state_changed_millis = 50_000;
  start_candidate_since = 60_000;
  stop_candidate_since = 0;
  grid_charger_limit_stop_candidate_since = 0;
  bms_charge_limit_stop_candidate_since = 0;
  last_command_publish = 0;
  load_started_millis = 10_000;
  last_battery_energy_update = 0;
  last_battery_support_state_persist = 0;
  battery_support_energy_wh = 5000;
  start_candidate_reason = battery_soc;
  current_start_reason = no_reason;
  current_start_block_reason = not_blocked;
  stop_reason = no_stop;
  published = none;
}

abbrev config_with : (priority : ℕ) → LoadConfig ℕ
config_with priority = record {
  enabled = true;
  priority = priority;
  mode = solar_only;
  mqtt_topic = codes "pool";
  start_battery_soc_threshold = 80;
  start_on_bms_charge_current_limit = false;
  bms_charge_current_limit_margin = 0;
  start_power_demand = 0;
  start_delay = 10;
  startup_grace = 5;
  min_runtime = 60;
  min_off_time = 120;
  stop_power_margin = 0;
  stop_delay = 10;
  battery_buffer_enabled = true;
  battery_buffer_power_limit = 100;
  battery_buffer_energy_limit = 50;
}

abbrev reading_at : (now : ℕ) → Readings ℕ
reading_at now = record {
  now = now;
  millis = now;
  power_limiter_enabled = true;
  is_emergency_stop_active = false;
  dynamic_reserve_watts = 0;
  stop_target_power_consumption = 0;
  power_meter_valid = true;
  power_total = 0;
  mqtt_connected = true;
  mqtt_publish_interval = 5;
  state_file_written = true;
  battery_enabled = true;
  is_soc_valid = true;
  soc = 90_000;
  soc_age_seconds = 1;
  is_voltage_valid = false;
  voltage = 0;
  is_current_valid = false;
  charge_current = 0;
  is_charge_current_limit_valid = false;
  charge_current_limit = 0;
  charge_current_limit_age_seconds = 0;
  age_seconds = 0;
  grid_charger_enabled = false;
  grid_charger_auto_power_enabled = false;
  grid_charger_auto_power_status = false;
  is_grid_charger_managed = false;
  supports_power_limiter_control = false;
  grid_charger_expected_input_power_watts = 0;
  is_auto_power_limited_by_available_power = false;
}

-- two loads that wait for their start
abbrev two_loads : List (Runtime ℕ)
two_loads = runtime_in waiting_for_start ∷ runtime_in waiting_for_start ∷ []

-- Between the rounds the priorities change, and a power is measured.
abbrev two_rounds : List (Round ℕ)
two_rounds =
    (record {
      readings = reading_at 80_000;
      settings = λ i. record { config = config_with (2 - i); measured = none };
    })
    ∷ (record {
      readings = reading_at 90_000;
      settings = λ i. record { config = config_with i; measured = some 700_000 };
    })
    ∷ []

two_loads-AllFollow : AllFollow two_loads
two_loads-AllFollow =
    one_more (record { agreed = refl }) (one_more (record { agreed = refl }) none_left)

rounds-AllFollow_example : AllFollow (rounds two_rounds two_loads)
rounds-AllFollow_example = rounds-AllFollow two_rounds two_loads two_loads-AllFollow

rounds-starting_count_example : starting_count (rounds two_rounds two_loads) ≤ 1
rounds-starting_count_example = rounds-starting_count two_rounds two_loads (omega arith)

abbrev turn_at : (now : ℕ) → Turn ℕ
turn_at now = record {
  readings = reading_at now;
  config = config_with 1;
  measured = none;
  load_sum = 0;
  can_start = true;
}

loop_load-may_become_example :
    may_become
      (conditions (turn_at 80_000) (runtime_in waiting_for_start))
      waiting_for_start
      (loop_load (turn_at 80_000) (runtime_in waiting_for_start)).current_state
    ≡ true
loop_load-may_become_example = loop_load-may_become (turn_at 80_000) (runtime_in waiting_for_start)

turns-cooldown_example :
    (turns (turn_at 80_000 ∷ turn_at 169_000 ∷ []) (runtime_in cooldown)).current_state ≡ cooldown
turns-cooldown_example =
    turns-cooldown (turn_at 80_000 ∷ turn_at 169_000 ∷ []) (runtime_in cooldown) refl refl

restore_load-persisted_of_example :
    (let rt' =
        restore_load 500
          (config_with 1)
          (some (persisted_of (config_with 1) (runtime_in running)))
          (runtime_in off) in
      (rt'.current_state ≡ running)
      × (not (has_passed 500 rt'.load_started_millis 60) ≡ false)
      × (rt'.battery_support_energy_wh ≡ 5000)
      × (rt'.published ≡ none))
unfolding restore_load persisted_of same_text
restore_load-persisted_of_example =
    restore_load-persisted_of 500 (config_with 1) (runtime_in running) (runtime_in off)
      (omega arith) (omega arith) refl
