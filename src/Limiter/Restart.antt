-- ===== src/Limiter/Restart.antt =====
-- src/PowerLimiter.cpp: the daily restart of the inverters, and the requests for full output in an
-- emergency.
pub mod Schedule
pub mod Emergency
use flux_dtu.Base.{
  ℕ, ◌+◌, ◌-◌, ◌*◌, Bool, true, false, ◌&&◌, ◌||◌, not, List, [], ◌∷◌, Option, none, some, ltb,
  if◌then◌else◌, add32, sub32, u32,
}
use flux_dtu.Float.{Float}
use flux_dtu.Dpl.Clock.{half_of_all_millis}
use flux_dtu.Dpl.State.{Inverter}
use flux_dtu.Dpl.Readings.{is_solar_powered}
use flux_dtu.Dpl.Control.{restart}
use flux_dtu.Limiter.State.{Limiter, Config}
use flux_dtu.Limiter.Battery.{uses_battery_powered_inverter, uses_smart_buffer_powered_inverter}

-- the local time, and `millis()`
pub record Time : Type 0 where
  pub hour : ℕ
  pub minute : ℕ
  pub millis : ℕ  -- uint32

-- the minutes from a time of day to the next time that the hour begins
unfoldable pub restart_minutes : (restart_hour hour minute : ℕ) → ℕ
restart_minutes restart_hour hour minute =
    let day_minutes = hour * 60 + minute in
    let target_minutes = restart_hour * 60 in
    if ltb hour restart_hour
    then target_minutes - day_minutes
    else 1440 - day_minutes + target_minutes

unfoldable pub is_restart_due : (millis : ℕ) → Option ℕ → Bool
is_restart_due millis none = false
is_restart_due millis (some at) = not (ltb (sub32 at millis) half_of_all_millis)

abbrev pub emergency_full_output_reassert_interval_ms : ℕ
emergency_full_output_reassert_interval_ms = 5000

module _ {F : Type 0} where
  unfoldable pub calc_next_inverter_restart :
      Time → Config F → List (Inverter F) → Limiter F → Limiter F
  calc_next_inverter_restart t c invs l =
      let minutes = restart_minutes c.restart_hour t.hour t.minute in
      if not (uses_battery_powered_inverter invs) && not (uses_smart_buffer_powered_inverter invs)
      then (record l { next_inverter_restart = none })
      else (record l { next_inverter_restart = some (add32 (u32 (minutes * 60_000)) t.millis) })

module _ {F : Type 0} ⦃fl : Float F⦄ where
  -- the loop over the inverters: the inverters after it, and whether a command was sent
  unfoldable pub restart_inverters : List (Inverter F) → List (Inverter F)
  restart_inverters [] = []
  restart_inverters (inv ∷ invs) =
      (if is_solar_powered inv then inv else (restart inv).0) ∷ restart_inverters invs

  unfoldable pub restart_sent : List (Inverter F) → Bool
  restart_sent [] = false
  restart_sent (inv ∷ invs) =
      (if is_solar_powered inv then false else (restart inv).1) || restart_sent invs

  -- the lambda `autoRestartInverters`
  unfoldable pub auto_restart_inverters :
      Time → Config F → List (Inverter F) → Limiter F → List (Inverter F) × Limiter F × Bool
  auto_restart_inverters t c invs l =
      let is_due = is_restart_due t.millis l.next_inverter_restart in
      (
        if is_due then restart_inverters invs else invs,
        if is_due then calc_next_inverter_restart t c (restart_inverters invs) l else l,
        is_due && restart_sent invs,
      )

module _ {F : Type 0} where
  unfoldable pub should_request_emergency_full_output : (now : ℕ) → Limiter F → Bool × Limiter F
  should_request_emergency_full_output now l =
      let waits =
        l.emergency_full_output_active
        && ltb (sub32 now l.last_emergency_full_output_request_millis)
            emergency_full_output_reassert_interval_ms in
      (
        not waits,
        if waits then l else (record l {
          emergency_full_output_active = true;
          last_emergency_full_output_request_millis = now;
        }),
      )

  unfoldable pub reset_emergency_full_output_throttle : Limiter F → Limiter F
  reset_emergency_full_output_throttle l = record l {
    emergency_full_output_active = false;
    last_emergency_full_output_request_millis = 0;
  }
