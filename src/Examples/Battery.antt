-- ===== src/Examples/Battery.antt =====
-- The power limiter with one battery-powered inverter, in thousandths for `float`.
use flux_dtu.Base.{
  ℕ, ◌*◌, ◌≤◌, ◌≡◌, refl, Bool, true, false, ◌&&◌, List, [], ◌∷◌, none, some, arith, ltb,
}
use flux_dtu.Float.{fixed, float_max}
use flux_dtu.Limiter.State.{stop, no_discharge, Limiter, Config, Budget}
use flux_dtu.Limiter.Battery.{
  Round, is_stop_threshold_reached, is_start_threshold_reached, test_threshold,
}
use flux_dtu.Limiter.Battery.Trace.{run, is_allowed, run-decided, night_starts, night_starts_once}
use flux_dtu.Limiter.Share.{
  DistributedChange, distribute_greedy_by_priority, distributed_by_priority,
}
use flux_dtu.Limiter.Share.Greedy.{amounts, distribute_greedy_by_priority-fill}
use flux_dtu.Limiter.Current.{get_configured_battery_discharge_current_limit}
use flux_dtu.Limiter.Current.Bounds.{IsOrdered, Call, calls, is_limit, calls-budget}
use flux_dtu.Limiter.Bus.{BusReadings, calc_power_bus_usage, dc_power_bus_to_inverter_ac}
use flux_dtu.Limiter.Bus.Bounds.{most, calc_power_bus_usage-most}
use flux_dtu.Limiter.Restart.{Time, calc_next_inverter_restart, auto_restart_inverters}
use flux_dtu.Limiter.Restart.Schedule.{
  LeadTo, AreRestarted, auto_restart_inverters-calc_next_inverter_restart,
}
use flux_dtu.Examples.Samples.{inverter, device_after}
use flux_dtu.Hoymiles.Device.{cmd_ok}
use flux_dtu.Dpl.State.{Inverter, InverterPowerSource}

abbrev empty_budget : Budget ℕ
empty_budget = record {
  amp_seconds = 0;
  capacity_amp_seconds = 0;
  update_millis = 0;
  initialized = false;
  estimate_amps = 0;
  limit_amps = 0;
  used_permille = 0;
}

abbrev limiter : Limiter ℕ
limiter = record {
  battery_state = stop;
  from_start = false;
  one_stop_per_night_done = false;
  full_solar_pass_through_active = false;
  load_corrected_voltage = 0;
  budget = empty_budget;
  next_inverter_restart = none;
  emergency_full_output_active = false;
  last_emergency_full_output_request_millis = 0;
}

abbrev config : Config ℕ
config = record {
  battery_enabled = true;
  solar_charger_enabled = true;
  solar_pass_through_enabled = true;
  conduction_losses = 3;
  battery_always_use_at_night = true;
  battery_discharge_current_limit_enabled = true;
  battery_discharge_current_limit = 10_000;
  battery_discharge_current_peak_limit = 20_000;
  battery_discharge_current_peak_duration = 30;
  battery_discharge_current_recovery_duration = 60;
  ignore_soc = false;
  battery_soc_start_threshold = 80;
  battery_soc_stop_threshold = 20;
  voltage_start_threshold = 50_000;
  voltage_stop_threshold = 46_000;
  voltage_load_correction_factor = 1;
  full_solar_pass_through_soc = 95;
  full_solar_pass_through_start_voltage = 0;
  full_solar_pass_through_stop_voltage = 0;
  restart_hour = 3;
}

abbrev one_inverter : List (Inverter ℕ)
one_inverter = inverter InverterPowerSource.battery (device_after cmd_ok 950_000) ∷ []

abbrev two_inverters : List (Inverter ℕ)
two_inverters =
    inverter InverterPowerSource.solar (device_after cmd_ok 950_000)
    ∷ inverter InverterPowerSource.battery (device_after cmd_ok 950_000)
    ∷ []

-- a round at some charge, in percent
abbrev round_at : (is_day : Bool) → (percent : ℕ) → Round ℕ
round_at is_day percent = record {
  config = config;
  stats = record {
    is_soc_valid = true;
    soc = percent * 1000;
    soc_age_seconds = 5;
    immediate_charging_request = false;
  };
  inverters = one_inverter;
  is_day_period = is_day;
  dc_voltage = 48_000;
  battery_inverters_output_ac_watts = 300_000;
}

run-decided_example :
    is_allowed (run (round_at true 85 ∷ round_at true 50 ∷ []) limiter).battery_state ≡ true
unfolding is_stop_threshold_reached is_start_threshold_reached test_threshold
run-decided_example = run-decided (round_at true 85) (round_at true 50 ∷ []) limiter refl refl

abbrev one_night : List (Round ℕ)
one_night = round_at false 30 ∷ round_at false 20 ∷ round_at false 25 ∷ []

night_starts_once_example : night_starts one_night limiter ≤ 1
night_starts_once_example = night_starts_once one_night limiter refl

abbrev changes : List (DistributedChange ℕ)
changes =
    (record { inverter = 1; capacity = 100; amount = 0 })
    ∷ (record { inverter = 2; capacity = 300; amount = 0 })
    ∷ []

distribute_greedy_by_priority-fill_example :
    (distribute_greedy_by_priority 250 changes
      ≡ (record { inverter = 1; capacity = 100; amount = 100 })
        ∷ (record { inverter = 2; capacity = 300; amount = 150 })
        ∷ [])
    × (distributed_by_priority 250 changes ≡ 250)
    × (amounts (distribute_greedy_by_priority 250 changes) ≡ distributed_by_priority 250 changes)
distribute_greedy_by_priority-fill_example =
    distribute_greedy_by_priority-fill 250 changes refl (omega arith)

ltb-irreflexive : (x : ℕ) → ltb x x ≡ false
ltb-irreflexive x = ground arith

ltb-asymmetric : (x y : ℕ) → ltb x y && ltb y x ≡ false
ltb-asymmetric x y = ground arith

ltb-zero : (x : ℕ) → ltb x 0 ≡ false
ltb-zero x = ground arith

fixed-IsOrdered : IsOrdered fixed
fixed-IsOrdered = record {
  irreflexive = ltb-irreflexive;
  asymmetric = ltb-asymmetric;
  mul_nonnegative =
      λ x y. ltb-zero (fixed.mul (float_max (fixed.of_nat 0) x) (float_max (fixed.of_nat 0) y));
}

-- a call with 15 A taken from the battery
abbrev call_at : (now : ℕ) → Call ℕ
call_at now = record { now = now; estimate = 15_000; config = config }

calls-budget_example :
    (ltb (calls (call_at 1000 ∷ call_at 9000 ∷ []) empty_budget).amp_seconds 0 ≡ false)
    × (is_limit config (
          get_configured_battery_discharge_current_limit 20_000 15_000 config
            (calls (call_at 1000 ∷ call_at 9000 ∷ []) empty_budget))
        ≡ true)
calls-budget_example =
    calls-budget fixed-IsOrdered (call_at 1000 ∷ call_at 9000 ∷ []) empty_budget (call_at 20_000)
      refl

abbrev bus : BusReadings ℕ
bus = record {
  round = round_at true 50;
  now = 20_000;
  current_estimate = 0;
  is_grid_charger_managed = false;
  grid_charger_auto_power = false;
  solar_charger_output_watts = some 200_000;
  battery_discharge_current_limit = none;
  inverter_dc_voltage = 48_000;
}

calc_power_bus_usage-most_example :
    (calc_power_bus_usage bus 500 (record limiter { battery_state = no_discharge })).0
    ≤ most bus 500 (record limiter { battery_state = no_discharge })
unfolding dc_power_bus_to_inverter_ac
calc_power_bus_usage-most_example =
    calc_power_bus_usage-most bus 500 (record limiter { battery_state = no_discharge }) refl

abbrev evening : Time
evening = record { hour = 22; minute = 30; millis = 1_000_000 }

-- four and a half hours and a second later
abbrev night : Time
night = record { hour = 3; minute = 0; millis = 17_201_000 }

evening-LeadTo : LeadTo 3 22 30 270
evening-LeadTo = record { ahead = omega arith; in_a_day = omega arith; at_the_hour = refl }

auto_restart_inverters-calc_next_inverter_restart_example :
    (let l' = calc_next_inverter_restart evening config two_inverters limiter in
      let (invs', l'', sent) = auto_restart_inverters night config two_inverters l' in
      AreRestarted two_inverters invs' sent
      × (l'' ≡ calc_next_inverter_restart night config invs' l'))
auto_restart_inverters-calc_next_inverter_restart_example =
    auto_restart_inverters-calc_next_inverter_restart evening night 270 16_201_000 config
      two_inverters limiter (omega arith) (omega arith) (omega arith) evening-LeadTo (omega arith)
      refl (omega arith) refl
