-- ===== src/Limiter/Battery/Trace.antt =====
-- The state machine for the battery over many rounds of the loop.
use flux_dtu.Base.{
  ℕ, ◌+◌, ◌≤◌, ◌≡◌, Bool, true, false, ◌&&◌, ◌||◌, not, List, [], ◌∷◌, arith, if◌then◌else◌,
}
use flux_dtu.Float.{Float}
use flux_dtu.Limiter.State.{BatteryState, stop, discharge_allowed, discharge_night, Limiter}
use flux_dtu.Limiter.Battery.{
  Round, uses_battery_powered_inverter, is_start_threshold_reached, is_stop_threshold_reached,
  get_load_corrected_voltage, get_battery_state, update_battery_state,
}

abbrev pub is_allowed : BatteryState → Bool
is_allowed discharge_allowed = true
is_allowed _ = false

-- How often the battery goes from being stopped to being discharged at night.
abbrev pub night_start : BatteryState → BatteryState → ℕ
night_start stop discharge_night = 1
night_start _ _ = 0

abbrev is_stop : BatteryState → Bool
is_stop stop = true
is_stop _ = false

module _ {F : Type 0} ⦃fl : Float F⦄ where
  abbrev pub run : List (Round F) → Limiter F → Limiter F
  run [] l = l
  run (r ∷ rs) l = run rs (update_battery_state r l)

  abbrev pub is_stopping : Round F → Bool
  is_stopping r = is_stop_threshold_reached r (get_load_corrected_voltage r)

  abbrev pub is_starting : Round F → Bool
  is_starting r = is_start_threshold_reached r (get_load_corrected_voltage r)

  abbrev pub has_battery : Round F → Bool
  has_battery r = uses_battery_powered_inverter r.inverters

  -- rounds between the thresholds
  abbrev pub all_between : List (Round F) → Bool
  all_between [] = true
  all_between (r ∷ rs) =
      has_battery r && not (is_stopping r) && not (is_starting r) && all_between rs

  update_battery_state-between :
      (r : Round F) (l : Limiter F)
      → has_battery r && not (is_stopping r) && not (is_starting r) ≡ true
      → ((update_battery_state r l).from_start ≡ l.from_start)
        × (is_allowed (update_battery_state r l).battery_state ≡ l.from_start)
  unfolding update_battery_state get_battery_state
  update_battery_state-between r l p = ground (arith, p)

  run-between :
      (rs : List (Round F)) (l : Limiter F) (s : Bool)
      → all_between rs ≡ true
      → is_allowed l.battery_state ≡ s
      → l.from_start ≡ s
      → is_allowed (run rs l).battery_state ≡ s
  run-between [] l s p q f = q
  run-between (r ∷ rs) l s p q f =
      let step = update_battery_state-between r l (ground (arith, p)) in
      run-between rs (update_battery_state r l) s (ground (arith, p)) (ground (arith, step, f))
        (ground (arith, step, f))

  update_battery_state-decided :
      (r : Round F) (l : Limiter F)
      → has_battery r && (is_stopping r || is_starting r) ≡ true
      → (is_allowed (update_battery_state r l).battery_state ≡ not (is_stopping r))
        × ((update_battery_state r l).from_start ≡ not (is_stopping r))
  unfolding update_battery_state get_battery_state
  update_battery_state-decided r l p = ground (arith, p)

  -- Between the thresholds the last one that was reached decides: after a round at which the start
  -- or the stop threshold was reached, and any number of rounds between the two, the battery may be
  -- discharged without regard to the night if and only if that one was not the stop threshold, which
  -- wins where both are reached. This is for rounds with a battery-powered inverter.
  pub run-decided :
      (r : Round F) (quiet : List (Round F)) (l : Limiter F)
      → has_battery r && (is_stopping r || is_starting r) ≡ true
      → all_between quiet ≡ true
      → is_allowed (run (r ∷ quiet) l).battery_state ≡ not (is_stopping r)
  run-decided r quiet l p q =
      let step = update_battery_state-decided r l p in
      run-between quiet (update_battery_state r l) (not (is_stopping r)) q (ground (arith, step))
        (ground (arith, step))

  -- rounds of one night, with a battery that is to be used at night
  abbrev pub all_night : List (Round F) → Bool
  all_night [] = true
  all_night (r ∷ rs) =
      has_battery r && not r.is_day_period && r.config.battery_always_use_at_night && all_night rs

  abbrev pub night_starts : List (Round F) → Limiter F → ℕ
  night_starts [] l = 0
  night_starts (r ∷ rs) l =
      let l' = update_battery_state r l in
      night_start l.battery_state l'.battery_state + night_starts rs l'

  -- A start is left in this night.
  abbrev start_left : Limiter F → ℕ
  start_left l = if is_stop l.battery_state && not l.one_stop_per_night_done then 1 else 0

  night_start-start_left :
      (r : Round F) (l : Limiter F)
      → has_battery r && not r.is_day_period && r.config.battery_always_use_at_night ≡ true
      → night_start l.battery_state (update_battery_state r l).battery_state
          + start_left (update_battery_state r l)
        ≤ start_left l
  unfolding update_battery_state get_battery_state
  night_start-start_left r l p = ground (arith, p)

  night_starts-start_left :
      (rs : List (Round F)) (l : Limiter F) → all_night rs ≡ true → night_starts rs l ≤ start_left l
  night_starts-start_left [] l p = omega arith
  night_starts-start_left (r ∷ rs) l p = omega (
    arith,
    night_start-start_left r l (ground (arith, p)),
    night_starts-start_left rs (update_battery_state r l) (ground (arith, p)),
  )

  -- In one night the battery goes at most once from being stopped to being discharged because of
  -- the night, whatever the charge and the voltage do. This is for rounds with a battery-powered
  -- inverter and with the battery's use at night enabled.
  pub night_starts_once :
      (rs : List (Round F)) (l : Limiter F) → all_night rs ≡ true → night_starts rs l ≤ 1
  night_starts_once rs l p = ground (arith, night_starts-start_left rs l p)
