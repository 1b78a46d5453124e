-- ===== src/FlexibleLoad/Power.antt =====
-- src/FlexibleLoad.cpp and include/FlexibleLoadAccounting.h: the power that a load may use, and its
-- share of what the battery and the grid have to add.
use flux_dtu.Base.{
  ℕ, Bool, true, false, ◌&&◌, ◌||◌, not, Option, none, some, List, ◌∷◌, ltb, leb, if◌then◌else◌,
}
use flux_dtu.Float.{Float, float_min, float_max}
use flux_dtu.FlexibleLoad.State.{
  EnergyMode, solar_only, high_priority_storage, LoadConfig, Readings, LoadState, running_min_time,
  running, Runtime,
}

abbrev pub takes_over : EnergyMode → Bool
takes_over solar_only = false
takes_over _ = true

abbrev pub is_high_priority : EnergyMode → Bool
is_high_priority high_priority_storage = true
is_high_priority _ = false

-- the states whose power is measured
abbrev pub is_past_start : LoadState → Bool
is_past_start running_min_time = true
is_past_start running = true
is_past_start _ = false

module _ {F : Type 0} where
  abbrev pub can_take_over_grid_charger : LoadConfig F → Bool
  can_take_over_grid_charger c = takes_over c.mode

  abbrev pub can_use_battery_for_start : LoadConfig F → Bool
  can_use_battery_for_start c = is_high_priority c.mode

  abbrev pub can_use_battery_buffer : LoadConfig F → Bool
  can_use_battery_buffer c =
      c.battery_buffer_enabled
      && ltb 0 c.battery_buffer_power_limit
      && ltb 0 c.battery_buffer_energy_limit

  abbrev pub accounts_battery_discharge_for_buffer : LoadConfig F → Bool
  accounts_battery_discharge_for_buffer c = not (is_high_priority c.mode)

  unfoldable pub get_grid_charger_takeover_power_watts : Readings F → LoadConfig F → ℕ
  get_grid_charger_takeover_power_watts e c =
      if can_take_over_grid_charger c
        && e.grid_charger_enabled
        && e.grid_charger_auto_power_enabled
        && e.grid_charger_auto_power_status
        && e.is_grid_charger_managed
        && e.supports_power_limiter_control
      then e.grid_charger_expected_input_power_watts
      else 0

  unfoldable pub should_stop_for_grid_charger_limit : Readings F → LoadConfig F → Bool
  should_stop_for_grid_charger_limit e c =
      not (can_take_over_grid_charger c)
      && e.grid_charger_enabled
      && e.grid_charger_auto_power_enabled
      && e.is_grid_charger_managed
      && e.supports_power_limiter_control
      && e.is_auto_power_limited_by_available_power

module _ {F : Type 0} ⦃fl : Float F⦄ where
  unfoldable pub get_battery_discharge_power_watts : Readings F → F
  get_battery_discharge_power_watts e =
      if e.battery_enabled && e.is_voltage_valid && e.is_current_valid && leb e.age_seconds 60
      then float_max (fl.of_nat 0) (fl.mul e.voltage (fl.sub (fl.of_nat 0) e.charge_current))
      else fl.of_nat 0

  unfoldable pub has_battery_reached_start_soc : Readings F → LoadConfig F → Bool
  has_battery_reached_start_soc e c =
      e.is_soc_valid
      && leb e.soc_age_seconds 60
      && fl.le (fl.of_nat c.start_battery_soc_threshold) e.soc

  unfoldable pub get_start_available_power_watts : Readings F → LoadConfig F → F
  get_start_available_power_watts e c =
      let grid_power = fl.add e.power_total e.dynamic_reserve_watts in
      let available =
        fl.add (float_max (fl.of_nat 0) (fl.sub (fl.of_nat 0) grid_power))
          (fl.of_nat (get_grid_charger_takeover_power_watts e c)) in
      if can_use_battery_for_start c && has_battery_reached_start_soc e c
      then fl.add available (fl.of_nat c.start_power_demand)
      else available

  unfoldable pub has_grid_power_reached_start_limit : Readings F → LoadConfig F → Bool
  has_grid_power_reached_start_limit e c =
      fl.le (fl.of_nat c.start_power_demand) (get_start_available_power_watts e c)

  unfoldable pub get_stop_deficit_power_watts : Readings F → LoadConfig F → F
  get_stop_deficit_power_watts e c =
      let stop_limit = fl.add e.stop_target_power_consumption (fl.of_nat c.stop_power_margin) in
      let grid_power =
        fl.sub e.power_total (fl.of_nat (get_grid_charger_takeover_power_watts e c)) in
      float_max (fl.of_nat 0) (fl.sub grid_power stop_limit)

  unfoldable pub is_bms_charge_current_limited : Readings F → LoadConfig F → Bool
  is_bms_charge_current_limited e c =
      let margin = float_max (fl.of_nat 0) c.bms_charge_current_limit_margin in
      c.start_on_bms_charge_current_limit
      && e.grid_charger_enabled
      && e.grid_charger_auto_power_enabled
      && e.grid_charger_auto_power_status
      && e.is_current_valid
      && e.is_charge_current_limit_valid
      && leb e.age_seconds 60
      && leb e.charge_current_limit_age_seconds 60
      && not (fl.le e.charge_current_limit margin)
      && fl.le (fl.sub e.charge_current_limit margin) e.charge_current

  -- `FlexibleLoadStats.getPowerWatts`, as it is used
  unfoldable pub get_measured_load_power_watts : (measured : Option F) → Option F
  get_measured_load_power_watts none = none
  get_measured_load_power_watts (some x) =
      if fl.is_finite x then some (float_max (fl.of_nat 0) x) else none

  abbrev watts_of : Option F → F → F
  watts_of none total = total
  watts_of (some x) total = fl.add total x

  -- the loads with what is measured of each
  unfoldable pub get_measured_running_load_power_watts :
      (total : F) → List (Option F) → List (Runtime F) → F
  get_measured_running_load_power_watts total (m ∷ ms) (rt ∷ rts) =
      get_measured_running_load_power_watts
        (if is_past_start rt.current_state
          then watts_of (get_measured_load_power_watts m) total
          else total)
        ms rts
  get_measured_running_load_power_watts total _ _ = total

  unfoldable pub allocate_shared_power_to_load :
      (measured_load_power : Option F) (measured_running_load_power total_shared_power : F) → F
  allocate_shared_power_to_load none load_sum total =
      if fl.le total (fl.of_nat 0) || not (fl.is_finite total) || fl.lt (fl.of_nat 0) load_sum
      then fl.of_nat 0
      else total
  allocate_shared_power_to_load (some load) load_sum total =
      let load_power = float_max (fl.of_nat 0) load in
      if fl.le total (fl.of_nat 0)
        || not (fl.is_finite total)
        || fl.le load_power (fl.of_nat 0)
        || fl.le load_sum (fl.of_nat 0)
      then fl.of_nat 0
      else float_min load_power (fl.mul total (fl.div load_power load_sum))

  -- `load_sum` is what all running loads were measured to use.
  unfoldable pub get_battery_discharge_support_power_watts :
      Readings F → LoadConfig F → (measured : Option F) → (load_sum : F) → F
  get_battery_discharge_support_power_watts e c measured load_sum =
      if accounts_battery_discharge_for_buffer c
      then allocate_shared_power_to_load (get_measured_load_power_watts measured) load_sum
          (get_battery_discharge_power_watts e)
      else fl.of_nat 0

  unfoldable pub get_battery_support_power_watts :
      Readings F → LoadConfig F → (measured : Option F) → (load_sum : F) → F
  get_battery_support_power_watts e c measured load_sum =
      let grid =
        allocate_shared_power_to_load (get_measured_load_power_watts measured) load_sum
          (get_stop_deficit_power_watts e c) in
      let support =
        float_max grid (get_battery_discharge_support_power_watts e c measured load_sum) in
      if can_use_battery_buffer c
      then float_min support (fl.of_nat c.battery_buffer_power_limit)
      else fl.of_nat 0

  unfoldable pub should_stop_for_grid_power :
      Readings F → LoadConfig F → (measured : Option F) → (load_sum : F) → Bool
  should_stop_for_grid_power e c measured load_sum =
      let deficit = get_stop_deficit_power_watts e c in
      let support = get_battery_discharge_support_power_watts e c measured load_sum in
      let limit = fl.of_nat c.battery_buffer_power_limit in
      not e.power_meter_valid
      || (fl.lt (fl.of_nat 0) deficit && (not (can_use_battery_buffer c) || fl.lt limit deficit))
      || (fl.lt (fl.of_nat 0) support && (not (can_use_battery_buffer c) || fl.lt limit support))
