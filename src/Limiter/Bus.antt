-- ===== src/Limiter/Bus.antt =====
-- src/PowerLimiter.cpp: how much power the inverters may take from the DC power bus, which the
-- battery and the solar chargers feed.
pub mod Bounds
use flux_dtu.Base.{
  ℕ, ◌+◌, Bool, true, false, ◌&&◌, ◌||◌, not, Option, none, some, ltb, ◌==◌, if◌then◌else◌, u16,
  min,
}
use flux_dtu.Float.{Float, float_min, float_max, clamp}
use flux_dtu.Limiter.State.{
  BatteryState, stop, no_discharge, discharge_allowed, discharge_night, Limiter, Config, Budget,
}
use flux_dtu.Limiter.Battery.{Round, is_solar_pass_through_enabled, is_below_stop_threshold}
use flux_dtu.Limiter.Current.{configured_budget, get_configured_battery_discharge_current_limit}

-- What is read of the chargers, the battery and the inverters. `FLT_MAX` as the battery's limit is
-- `none`.
pub record BusReadings (F : Type 0) : Type 0 where
  pub round : Round F
  pub now : ℕ  -- `millis()`
  pub current_estimate : F  -- `estimateBatteryDischargeCurrent()`
  pub is_grid_charger_managed : Bool
  pub grid_charger_auto_power : Bool
  pub solar_charger_output_watts : Option F
  pub battery_discharge_current_limit : Option F
  pub inverter_dc_voltage : F  -- `getInverterDcVoltage().first`

abbrev pub is_battery_stopped : BatteryState → Bool
is_battery_stopped stop = true
is_battery_stopped _ = false

abbrev pub is_discharge_denied : BatteryState → Bool
is_discharge_denied stop = true
is_discharge_denied no_discharge = true
is_discharge_denied _ = false

module _ {F : Type 0} ⦃fl : Float F⦄ where
  abbrev solar_watts : Option F → F
  solar_watts none = fl.of_nat 0
  solar_watts (some x) = x

  unfoldable pub get_solar_passthrough_power : BusReadings F → Limiter F → ℕ
  get_solar_passthrough_power r l =
      if not (is_solar_pass_through_enabled r.round.config r.round.inverters)
        || is_below_stop_threshold r.round l.load_corrected_voltage
      then 0
      else fl.to_u16 (float_max (fl.of_nat 0) (solar_watts r.solar_charger_output_watts))

  unfoldable pub dc_power_bus_to_inverter_ac : Config F → (dc_power : ℕ) → ℕ
  dc_power_bus_to_inverter_ac c dc_power =
      let losses_factor =
        fl.sub (fl.of_nat 1) (fl.div (fl.of_nat c.conduction_losses) (fl.of_nat 100)) in
      fl.to_u16
        (fl.mul_double (fl.mul_double (fl.rational 95 100) losses_factor) (fl.of_nat dc_power))

  -- the current that the battery itself allows; the sign does not matter
  abbrev pub magnitude : F → F
  magnitude x = if fl.le x (fl.of_nat 0) then fl.sub (fl.of_nat 0) x else x

  -- the smaller one of the limits that there are
  unfoldable pub effective_limit : (configured battery : Option F) → Option F
  effective_limit configured none = configured
  effective_limit none (some b) = some (magnitude b)
  effective_limit (some c) (some b) = some (float_min c (magnitude b))

  unfoldable pub limit_watts : (voltage current : F) → ℕ
  limit_watts voltage current =
      fl.to_u16 (clamp (fl.mul voltage current) (fl.of_nat 0) (fl.of_nat 65_535))

  unfoldable pub discharge_limit_at : BusReadings F → Option F → Option ℕ
  discharge_limit_at r none = none
  discharge_limit_at r (some current) =
      let voltage =
        if fl.le r.inverter_dc_voltage (fl.of_nat 0)
        then r.round.dc_voltage
        else r.inverter_dc_voltage in
      if fl.le current (fl.of_nat 0) || fl.le voltage (fl.of_nat 0)
      then some 0
      else some (limit_watts voltage current)

  -- the answer, and the budget after it
  unfoldable pub get_battery_discharge_limit : BusReadings F → Limiter F → Option ℕ × Budget F
  get_battery_discharge_limit r l =
      let c = r.round.config in
      let configured =
        get_configured_battery_discharge_current_limit r.now r.current_estimate c l.budget in
      (
        if is_discharge_denied l.battery_state
            then some 0
            else discharge_limit_at r
                (effective_limit configured r.battery_discharge_current_limit),
        if is_discharge_denied l.battery_state
            then l.budget
            else configured_budget r.now r.current_estimate c l.budget,
      )

  unfoldable pub is_bus_blocked : BusReadings F → Limiter F → Bool
  is_bus_blocked r l =
      (not r.is_grid_charger_managed
        && not l.full_solar_pass_through_active
        && r.grid_charger_auto_power)
      || r.round.stats.immediate_charging_request
      || is_battery_stopped l.battery_state

  unfoldable pub grant : (requested solar_output_ac : ℕ) → Config F → Option ℕ → ℕ
  grant requested solar c none = requested
  grant requested solar c (some limit) =
      min requested (u16 (dc_power_bus_to_inverter_ac c limit + solar))

  -- The budget is brought up to date at the start, and again where the battery's limit is asked for.
  unfoldable pub calc_power_bus_usage : BusReadings F → (requested : ℕ) → Limiter F → ℕ × Limiter F
  calc_power_bus_usage r requested l =
      let c = r.round.config in
      let l' = record l { budget = configured_budget r.now r.current_estimate c l.budget } in
      let solar = dc_power_bus_to_inverter_ac c (get_solar_passthrough_power r l') in
      let is_full = l'.full_solar_pass_through_active && ltb requested solar in
      let battery = get_battery_discharge_limit r l' in
      (
        if is_bus_blocked r l'
            then 0
            else if is_full
            then solar
            else grant requested solar c battery.0,
        if is_bus_blocked r l' || is_full then l' else (record l' { budget = battery.1 }),
      )
