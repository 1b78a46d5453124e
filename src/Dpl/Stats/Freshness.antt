-- ===== src/Dpl/Stats/Freshness.antt =====
-- The telemetry that `getLatestStatsMillis` reports is younger than the last command.
use flux_dtu.Base.{ℕ, ◌≤◌, ◌≡◌, some, arith, sub32}
use flux_dtu.Dpl.State.{Inverter, Env}
use flux_dtu.Dpl.Stats.{last_update_cmd_age, get_latest_stats_millis}

module _ {F : Type 0} where
  -- A reported timestamp is at most as old as the last command, of either kind; and asking once more
  -- at the same time reports the same and changes nothing.
  pub get_latest_stats_millis_fresh :
      (e : Env) (s : Inverter F) {t : ℕ}
      → (get_latest_stats_millis e s).1 ≡ some t
      → let s' = (get_latest_stats_millis e s).0 in
        (sub32 e.millis t ≤ sub32 e.millis s.device.system_config_para.last_update_command)
        × (sub32 e.millis t ≤ sub32 e.millis s.device.power_command.last_update_command)
        × (get_latest_stats_millis e s' ≡ (s', some t))
  unfolding get_latest_stats_millis last_update_cmd_age
  get_latest_stats_millis_fresh e s h = ground arith

  -- Newer telemetry does not replace the kept timestamp while no command was answered in between:
  -- the oldest telemetry that is younger than the last command is reported.
  pub get_latest_stats_millis_kept :
      (e : Env) (s : Inverter F) {t : ℕ}
      → s.stats_millis ≡ some t
      → sub32 e.millis t ≤ last_update_cmd_age e s
      → get_latest_stats_millis e s ≡ (s, some t)
  unfolding get_latest_stats_millis
  get_latest_stats_millis_kept e s h k = ground arith
