-- ===== src/Dpl/Trace.antt =====
-- Every public operation on the inverter object as a step, in any order and at any times, with any
-- news from the radio in between.
pub mod Invariant
pub mod Safety
use flux_dtu.Base.{ℕ, Bool, ◌≡◌}
use flux_dtu.Float.{Float}
use flux_dtu.Hoymiles.Device.{Device}
use flux_dtu.Dpl.State.{Inverter, RuntimeState, Env, solar}
use flux_dtu.Dpl.Targets.{reassert_target_power_state, consume_target_dispatch_events}
use flux_dtu.Dpl.Update.{update}
use flux_dtu.Dpl.Solar
use flux_dtu.Dpl.Limits.{apply_configured_limit_bounds, refresh_stale_limit}
use flux_dtu.Dpl.Stats.{get_latest_stats_millis}
use flux_dtu.Dpl.Restore.{restore_runtime_state}
use flux_dtu.Dpl.Control

module _ {F : Type 0} ⦃fl : Float F⦄ where
  pub data Step : Inverter F → Inverter F → Type 0 where
    updates : (e : Env) (allow : Bool) (s : Inverter F) → Step s (update e allow s).0
    retires : (e : Env) (allow : Bool) (s : Inverter F) → Step s (Control.retire e allow s).0
    reduces :
        (e : Env) (reduction : ℕ) (allow : Bool) (s : Inverter F)
        → Step s (Control.apply_reduction e reduction allow s).0
    increases :
        (e : Env) (increase : ℕ) (s : Inverter F) → Step s (Control.apply_increase e increase s).0
    stands_by : (e : Env) (s : Inverter F) → Step s (Control.standby e s).0
    reasserts : (s : Inverter F) → Step s (reassert_target_power_state s)
    maximises : (e : Env) (fast : Bool) (s : Inverter F) → Step s (Control.set_max_output e fast s)
    caps :
        (e : Env) (cap : ℕ) (s : Inverter F)
        → s.config.power_source ≡ solar
        → Step s (Solar.cap_output_limit e cap s).0
    bounds : (e : Env) (s : Inverter F) → Step s (apply_configured_limit_bounds e s).0
    refreshes : (e : Env) (s : Inverter F) → Step s (refresh_stale_limit e s).0
    restores :
        (e : Env) (r : RuntimeState F) (millis : ℕ) (s : Inverter F)
        → Step s (restore_runtime_state e r millis s)
    restarts : (s : Inverter F) → Step s (Control.restart s).0
    reads_stats : (e : Env) (s : Inverter F) → Step s (get_latest_stats_millis e s).0
    consumes : (s : Inverter F) → Step s (consume_target_dispatch_events s).0
    hears : (s : Inverter F) (d : Device F) → Step s (record s { device = d })

  pub data Reach (s : Inverter F) : Inverter F → Type 0 where
    here : Reach s s
    next : {t u : Inverter F} → Reach s t → Step t u → Reach s u
