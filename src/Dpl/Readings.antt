-- ===== src/Dpl/Readings.antt =====
-- The queries of `PowerLimiterInverter`: what it takes the inverter's output, limit, power state
-- and eligibility to be, from telemetry, from an assumption made after a command, or from a state
-- restored after a restart of the controller.
use flux_dtu.Base.{
  ℕ, ◌+◌, ◌/◌, Bool, true, false, ◌&&◌, ◌||◌, not, Option, none, some, min, max, ltb, ◌==◌,
  if◌then◌else◌, has_value, value_or, sub32,
}
use flux_dtu.Float.{Float}
use flux_dtu.Hoymiles.Device
use flux_dtu.Hoymiles.Device.{get_max_power, get_limit_percent}
use flux_dtu.Dpl.Clock.{millis_at_or_after}
use flux_dtu.Dpl.State.{Inverter, InverterPowerSource, battery, solar, smart_buffer, Env}

pub data Eligibility : Type 0 where
  unreachable sending_commands_disabled max_output_unknown current_limit_unknown command_backoff
        grid_disconnected eligible nighttime :
      Eligibility

abbrev pub is_solar : InverterPowerSource → Bool
is_solar solar = true
is_solar _ = false

abbrev pub is_battery : InverterPowerSource → Bool
is_battery battery = true
is_battery _ = false

abbrev pub is_smart_buffer : InverterPowerSource → Bool
is_smart_buffer smart_buffer = true
is_smart_buffer _ = false

abbrev pub restored_state_assumption_millis : ℕ
restored_state_assumption_millis = 180_000

-- is the time of the next attempt still ahead?
unfoldable pub in_command_backoff : Env → Option ℕ → Bool
in_command_backoff e none = false
in_command_backoff e (some t) = not (millis_at_or_after e.millis t)

abbrev is_eligibility : Eligibility → Bool
is_eligibility eligible = true
is_eligibility _ = false

module _ {F : Type 0} where
  abbrev pub is_solar_powered : Inverter F → Bool
  is_solar_powered s = is_solar s.config.power_source

  abbrev pub is_battery_powered : Inverter F → Bool
  is_battery_powered s = is_battery s.config.power_source

  abbrev pub is_smart_buffer_powered : Inverter F → Bool
  is_smart_buffer_powered s = is_smart_buffer s.config.power_source

  unfoldable pub has_pending_target : Inverter F → Bool
  has_pending_target s = has_value s.target_power_limit_watts || has_value s.target_power_state

  unfoldable pub has_stats_at_or_after : Inverter F → ℕ → Bool
  has_stats_at_or_after s t =
      let last = s.device.statistics.last_update in ltb 0 last && millis_at_or_after last t

  unfoldable pub has_limit_feedback_at_or_after : Inverter F → ℕ → Bool
  has_limit_feedback_at_or_after s t =
      let last = s.device.system_config_para.last_update_request in
      ltb 0 last && millis_at_or_after last t

  assumption_holds : Inverter F → Option ℕ → Bool
  assumption_holds s none = false
  assumption_holds s (some t) = not (has_stats_at_or_after s t)

  unfoldable pub is_using_assumed_output : Inverter F → Bool
  unfolding assumption_holds
  is_using_assumed_output s =
      if not (has_value s.assumed_output_ac_watts)
      then false
      else if s.keep_assumed_output
      then true
      else assumption_holds s s.assumed_output_valid_after_millis

  pending_feedback : Inverter F → Option ℕ → Bool
  pending_feedback s none = false
  pending_feedback s (some t) = not (has_limit_feedback_at_or_after s t)

  unfoldable pub has_restored_limit_pending_feedback : Inverter F → Bool
  unfolding pending_feedback
  has_restored_limit_pending_feedback s = pending_feedback s s.restored_limit_millis

  unfoldable pub is_using_restored_limit : Inverter F → Bool
  is_using_restored_limit s = has_restored_limit_pending_feedback s

  restored_at : Env → Inverter F → Option ℕ → Bool
  restored_at e s none = false
  restored_at e s (some t) =
      if ltb restored_state_assumption_millis (sub32 e.millis t)
      then false
      else not (has_stats_at_or_after s t)

  unfoldable pub is_using_restored_state : Env → Inverter F → Bool
  unfolding restored_at
  is_using_restored_state e s = restored_at e s s.restored_state_millis

  unfoldable pub get_inverter_max_power_watts : Env → Inverter F → ℕ
  get_inverter_max_power_watts e s =
      let max_power = get_max_power s.device in
      if ltb 0 max_power
      then max_power
      else if is_using_restored_state e s
      then s.restored_runtime_state.max_power_watts
      else 0

  unfoldable pub get_configured_max_power_watts : Env → Inverter F → ℕ
  get_configured_max_power_watts e s =
      min (get_inverter_max_power_watts e s) s.config.upper_power_limit

module _ {F : Type 0} ⦃fl : Float F⦄ where
  unfoldable pub is_producing : Env → Inverter F → Bool
  is_producing e s =
      if is_using_restored_state e s
      then s.restored_runtime_state.producing
      else Device.is_producing s.device

  unfoldable pub is_reachable : Env → Inverter F → Bool
  is_reachable e s =
      if is_using_restored_state e s
      then s.restored_runtime_state.reachable
      else Device.is_reachable s.device

  unfoldable pub get_measured_output_ac_watts : Inverter F → ℕ
  get_measured_output_ac_watts s = fl.to_u16 s.device.statistics.ac_power

  -- The assumed output is only read where it is present.
  unfoldable pub get_current_output_ac_watts : Env → Inverter F → ℕ
  get_current_output_ac_watts e s =
      if is_using_assumed_output s
      then value_or s.assumed_output_ac_watts 0
      else if is_using_restored_state e s
      then s.restored_runtime_state.output_ac_watts
      else get_measured_output_ac_watts s

  base_expected_output_ac_watts : Env → Inverter F → ℕ
  base_expected_output_ac_watts e s =
      if not (has_pending_target s)
      then if is_using_restored_state e s
        then s.restored_runtime_state.expected_output_ac_watts
        else get_current_output_ac_watts e s
      else s.expected_output_ac_watts

  solar_expected_output_ac_watts : Env → Inverter F → ℕ
  unfolding base_expected_output_ac_watts
  solar_expected_output_ac_watts e s =
      if has_pending_target s || is_using_assumed_output s
      then base_expected_output_ac_watts e s
      else if not (is_producing e s)
      then 0
      else base_expected_output_ac_watts e s

  -- the virtual method
  unfoldable pub get_expected_output_ac_watts : Env → Inverter F → ℕ
  unfolding base_expected_output_ac_watts solar_expected_output_ac_watts
  get_expected_output_ac_watts e s =
      if is_solar_powered s
      then solar_expected_output_ac_watts e s
      else base_expected_output_ac_watts e s

  unfoldable pub get_current_limit_watts : Env → Inverter F → ℕ
  get_current_limit_watts e s =
      let percent = get_limit_percent s.device in
      let watts = fl.mul percent (fl.of_nat (get_inverter_max_power_watts e s)) in
      let current = fl.to_u16 (fl.div watts (fl.of_nat 100)) in
      if ltb 0 current
      then current
      else if has_value s.last_target_power_limit_watts
      then value_or s.last_target_power_limit_watts 0
      else if is_using_restored_limit s
      then s.restored_runtime_state.power_limit_watts
      else 0

  unfoldable pub get_expected_limit_watts : Env → Inverter F → ℕ
  get_expected_limit_watts e s =
      if has_value s.target_power_limit_watts
      then value_or s.target_power_limit_watts 0
      else if has_value s.last_target_power_limit_watts
      then value_or s.last_target_power_limit_watts 0
      else get_current_limit_watts e s

  unfoldable pub get_grid_voltage : Env → Inverter F → F
  get_grid_voltage e s =
      if is_using_restored_state e s && fl.le (fl.of_nat 100) s.restored_runtime_state.grid_voltage
      then s.restored_runtime_state.grid_voltage
      else s.device.statistics.ac_voltage

  unfoldable pub get_eligibility : Env → Inverter F → Eligibility
  get_eligibility e s =
      if is_solar_powered s && not e.is_day_period
      then nighttime
      else if not (is_reachable e s)
      then unreachable
      else if not s.device.enable_commands
      then sending_commands_disabled
      else if get_inverter_max_power_watts e s == 0
      then max_output_unknown
      else if in_command_backoff e s.next_update_attempt_millis
      then command_backoff
      else if get_current_limit_watts e s == 0
      then current_limit_unknown
      else if fl.lt (get_grid_voltage e s) (fl.of_nat 100)
      then grid_disconnected
      else eligible

  unfoldable pub is_eligible : Env → Inverter F → Bool
  is_eligible e s = is_eligibility (get_eligibility e s)

  unfoldable pub clamp_limit_to_configured_bounds : Env → Inverter F → ℕ → ℕ
  clamp_limit_to_configured_bounds e s power =
      let capped = min power (get_configured_max_power_watts e s) in
      if is_producing e s then max capped s.config.lower_power_limit else capped

  unfoldable pub get_limit_resolution_watts : Env → Inverter F → ℕ
  get_limit_resolution_watts e s = max 1 ((get_inverter_max_power_watts e s + 999) / 1000)
