-- ===== src/Limiter/Bus/Bounds.antt =====
-- How much is taken from the bus at most.
use flux_dtu.Base.{
  ℕ, ◌≤◌, ◌<◌, ◌≡◌, Bool, ◌&&◌, ◌||◌, Option, none, some, arith, ltb, if◌then◌else◌, min, max,
}
use flux_dtu.Float.{Float}
use flux_dtu.Limiter.State.{
  BatteryState, stop, no_discharge, discharge_allowed, discharge_night, Limiter, Config,
}
use flux_dtu.Limiter.Bus.{
  BusReadings, is_battery_stopped, is_discharge_denied, get_solar_passthrough_power,
  dc_power_bus_to_inverter_ac, get_battery_discharge_limit, is_bus_blocked, grant,
  calc_power_bus_usage,
}

module _ {F : Type 0} ⦃fl : Float F⦄ where
  -- what the solar chargers give, at the inverters' outlets
  abbrev pub solar_output_ac : BusReadings F → Limiter F → ℕ
  solar_output_ac r l = dc_power_bus_to_inverter_ac r.round.config (get_solar_passthrough_power r l)

  grant-requested :
      (requested solar : ℕ) (c : Config F) (o : Option ℕ) → grant requested solar c o ≤ requested
  unfolding grant
  grant-requested requested solar c none = omega arith
  grant-requested requested solar c (some limit) = omega arith

  -- The most that may be taken: no more than is requested, or than the sun gives where all of that
  -- is to be used; no more than the sun gives where the battery may not be discharged; and nothing
  -- where it is stopped.
  abbrev pub most : BusReadings F → (requested : ℕ) → Limiter F → ℕ
  most r requested l =
      let solar = solar_output_ac r l in
      let cap = if l.full_solar_pass_through_active then max requested solar else requested in
      if is_battery_stopped l.battery_state
      then 0
      else if is_discharge_denied l.battery_state
      then min cap solar
      else cap

  grant-denied :
      (requested solar : ℕ) (c : Config F)
      → dc_power_bus_to_inverter_ac c 0 ≡ 0
      → solar < 65_536
      → grant requested solar c (some 0) ≡ min requested solar
  unfolding grant
  grant-denied requested solar c p q = rw p (omega (arith, q))

  solar_output_ac-fits : (r : BusReadings F) (l : Limiter F) → solar_output_ac r l < 65_536
  unfolding dc_power_bus_to_inverter_ac
  solar_output_ac-fits r l = fl.to_u16_fits _

  -- the three answers, by the state of the battery
  usage-at :
      (state : BatteryState) (full blocked : Bool) (requested solar : ℕ) (c : Config F)
      (limit : Option ℕ)
      → dc_power_bus_to_inverter_ac c 0 ≡ 0
      → solar < 65_536
      → (if blocked || is_battery_stopped state
          then 0
          else if full && ltb requested solar
          then solar
          else grant requested solar c (if is_discharge_denied state then some 0 else limit))
        ≤ (let cap = if full then max requested solar else requested in
            if is_battery_stopped state
            then 0
            else if is_discharge_denied state
            then min cap solar
            else cap)
  usage-at stop full blocked requested solar c limit p q = ground arith
  usage-at no_discharge full blocked requested solar c limit p q =
      rw (grant-denied requested solar c p q) (ground arith)
  usage-at discharge_allowed full blocked requested solar c limit p q =
      ground (arith, grant-requested requested solar c limit)
  usage-at discharge_night full blocked requested solar c limit p q =
      ground (arith, grant-requested requested solar c limit)

  -- What may be taken from the bus is at most `most`: nothing where the battery is stopped; else no
  -- more than is requested, or than the sun gives, if that is more and all of it is to be used; and no
  -- more than the sun gives where the battery may not be discharged. This is if no power on the bus
  -- comes to no power at the inverters' outlets.
  pub calc_power_bus_usage-most :
      (r : BusReadings F) (requested : ℕ) (l : Limiter F)
      → dc_power_bus_to_inverter_ac r.round.config 0 ≡ 0
      → (calc_power_bus_usage r requested l).0 ≤ most r requested l
  unfolding calc_power_bus_usage is_bus_blocked get_battery_discharge_limit
      get_solar_passthrough_power
  calc_power_bus_usage-most r requested l p =
      usage-at l.battery_state l.full_solar_pass_through_active _ requested (solar_output_ac r l)
        r.round.config _ p (solar_output_ac-fits r l)
