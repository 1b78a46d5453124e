-- ===== src/Dpl/Stats.antt =====
-- src/PowerLimiterInverter.cpp: the timestamps of telemetry. `getLatestStatsMillis` is `const` but
-- keeps a `mutable` field, so it returns the object too.
pub mod Freshness
use flux_dtu.Base.{
  ℕ, Bool, true, false, Option, none, some, min, ltb, ◌==◌, if◌then◌else◌, has_value, sub32,
}
use flux_dtu.Dpl.State.{Inverter, Env}
use flux_dtu.Dpl.Readings.{is_using_assumed_output, is_using_restored_state}

module _ {F : Type 0} where
  unfoldable pub last_update_cmd_age : Env → Inverter F → ℕ
  last_update_cmd_age e s =
      min (sub32 e.millis s.device.system_config_para.last_update_command)
        (sub32 e.millis s.device.power_command.last_update_command)

  -- the kept timestamp, unless a command is younger than it
  kept_stats_millis : Env → Inverter F → Option ℕ → Option ℕ
  kept_stats_millis e s none = none
  kept_stats_millis e s (some t) =
      if ltb (last_update_cmd_age e s) (sub32 e.millis t) then none else some t

  renewed_stats_millis : Env → Inverter F → Option ℕ → Option ℕ
  renewed_stats_millis e s (some t) = some t
  renewed_stats_millis e s none =
      let last = s.device.statistics.last_update in
      if ltb (last_update_cmd_age e s) (sub32 e.millis last) then none else some last

  unfoldable pub get_latest_stats_millis : Env → Inverter F → Inverter F × Option ℕ
  unfolding kept_stats_millis renewed_stats_millis
  get_latest_stats_millis e s =
      let latest = renewed_stats_millis e s (kept_stats_millis e s s.stats_millis) in
      (record s { stats_millis = latest }, latest)

  unfoldable pub get_output_reference_millis : Env → Inverter F → Option ℕ
  get_output_reference_millis e s =
      if is_using_assumed_output s
      then s.assumed_output_valid_after_millis
      else if is_using_restored_state e s
      then s.restored_state_millis
      else if s.device.statistics.last_update == 0
      then none
      else some s.device.statistics.last_update
