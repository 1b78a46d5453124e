-- ===== src/FlexibleLoad/Judgement.antt =====
-- src/FlexibleLoad.cpp: what a load's state is judged by: the reasons to start and to stop, and the
-- energy that the battery had to add.
use flux_dtu.Base.{Bool, true, false, ◌&&◌, ◌||◌, not, Option, leb, ◌==◌, if◌then◌else◌, sub32}
use flux_dtu.Float.{Float}
use flux_dtu.FlexibleLoad.State.{
  LoadState, disabled, off, waiting_for_start, starting, StartReason, battery_soc,
  bms_charge_current_limit, StartBlockReason, not_blocked, power_limiter_disabled, load_disabled,
  mqtt_topic_missing, battery_disabled, power_meter_invalid, mqtt_disconnected,
  feed_in_below_start_limit, start_condition_missing, grid_charger_power_limited,
  bms_charge_current_below_limit, LoadConfig, Readings, Runtime,
}
use flux_dtu.FlexibleLoad.Power.{
  can_use_battery_buffer, should_stop_for_grid_charger_limit, has_battery_reached_start_soc,
  has_grid_power_reached_start_limit, is_bms_charge_current_limited,
  get_battery_support_power_watts,
}
use flux_dtu.FlexibleLoad.Commands.{is_empty, has_passed, stop_load}

abbrev pub is_waiting : LoadState → Bool
is_waiting waiting_for_start = true
is_waiting _ = false

abbrev pub is_starting_state : LoadState → Bool
is_starting_state starting = true
is_starting_state _ = false

abbrev pub is_battery_soc : StartReason → Bool
is_battery_soc battery_soc = true
is_battery_soc _ = false

abbrev pub is_bms_reason : StartReason → Bool
is_bms_reason bms_charge_current_limit = true
is_bms_reason _ = false

abbrev pub is_not_blocked : StartBlockReason → Bool
is_not_blocked not_blocked = true
is_not_blocked _ = false

abbrev pub is_idle_state : LoadState → Bool
is_idle_state disabled = true
is_idle_state off = true
is_idle_state waiting_for_start = true
is_idle_state _ = false

-- What `loopLoad` is given besides the load: its configuration, the readings, what is measured of
-- the load and of all running ones, and whether a start is free.
pub record Turn (F : Type 0) : Type 0 where
  pub readings : Readings F
  pub config : LoadConfig F
  pub measured : Option F
  pub load_sum : F
  pub can_start : Bool

module _ {F : Type 0} ⦃fl : Float F⦄ where
  unfoldable pub get_start_block_reason : Readings F → LoadConfig F → StartBlockReason
  get_start_block_reason e c =
      if not e.power_limiter_enabled
      then power_limiter_disabled
      else if not c.enabled
      then load_disabled
      else if is_empty c.mqtt_topic
      then mqtt_topic_missing
      else if not e.battery_enabled
      then battery_disabled
      else if not e.power_meter_valid
      then power_meter_invalid
      else if not e.mqtt_connected
      then mqtt_disconnected
      else if not (has_battery_reached_start_soc e c)
      then start_condition_missing
      else if not (has_grid_power_reached_start_limit e c)
      then feed_in_below_start_limit
      else not_blocked

  -- whether `getStartReason` returns `BatterySoC`; else it returns `None`
  unfoldable pub has_start_reason : Readings F → LoadConfig F → Bool
  has_start_reason e c = is_not_blocked (get_start_block_reason e c)

  -- A stop candidate: from when on it is one, and whether the load is stopped for it.
  unfoldable pub handle_grid_charger_limit_stop : Turn F → Runtime F → Runtime F
  handle_grid_charger_limit_stop t rt =
      let since = rt.grid_charger_limit_stop_candidate_since in
      if not (should_stop_for_grid_charger_limit t.readings t.config)
      then (record rt { grid_charger_limit_stop_candidate_since = 0 })
      else if since == 0
      then (record rt { grid_charger_limit_stop_candidate_since = t.readings.now })
      else if has_passed t.readings.now since t.config.stop_delay
      then stop_load t.readings grid_charger_power_limited t.config rt
      else rt

  unfoldable pub is_bms_stop_candidate : Turn F → Runtime F → Bool
  is_bms_stop_candidate t rt =
      is_bms_reason rt.current_start_reason
      && not (is_bms_charge_current_limited t.readings t.config)

  unfoldable pub handle_bms_charge_current_limit_stop : Turn F → Runtime F → Runtime F
  handle_bms_charge_current_limit_stop t rt =
      let since = rt.bms_charge_limit_stop_candidate_since in
      if not (is_bms_stop_candidate t rt)
      then (record rt { bms_charge_limit_stop_candidate_since = 0 })
      else if since == 0
      then (record rt { bms_charge_limit_stop_candidate_since = t.readings.now })
      else if has_passed t.readings.now since t.config.stop_delay
      then stop_load t.readings bms_charge_current_below_limit t.config rt
      else rt

  unfoldable pub has_battery_support_budget_exceeded : LoadConfig F → Runtime F → Bool
  has_battery_support_budget_exceeded c rt =
      can_use_battery_buffer c
      && fl.lt (fl.of_nat c.battery_buffer_energy_limit) rt.battery_support_energy_wh

  -- The energy that the battery or the grid had to add since the last round is counted.
  unfoldable pub update_battery_support_energy : Turn F → Runtime F → Runtime F
  update_battery_support_energy t rt =
      let e = t.readings in
      let last = rt.last_battery_energy_update in
      let power = get_battery_support_power_watts e t.config t.measured t.load_sum in
      let hours = fl.div (fl.of_nat (sub32 e.millis last)) (fl.of_nat 3_600_000) in
      let is_billed = not (last == 0) && not (fl.le power (fl.of_nat 0)) in
      let is_persist_due =
        rt.last_battery_support_state_persist == 0
        || leb 10_000 (sub32 e.millis rt.last_battery_support_state_persist) in
      record rt {
        last_battery_energy_update = e.millis;
        battery_support_energy_wh =
            if is_billed
            then fl.add rt.battery_support_energy_wh (fl.mul power hours)
            else rt.battery_support_energy_wh;
        last_battery_support_state_persist =
            if is_billed && is_persist_due && e.state_file_written
            then e.millis
            else rt.last_battery_support_state_persist;
      }
