-- ===== src/Dpl/Trace/Safety.antt =====
-- The object is consistent after any history, and a solar inverter is never stopped.
use flux_dtu.Base.{ℕ, ◌≡◌, Bool, true, arith, if◌then◌else◌}
use flux_dtu.Float.{Float}
use flux_dtu.Hoymiles.Device.{Device}
use flux_dtu.Hoymiles.Device.Requests.{stops}
use flux_dtu.Dpl.State.{Inverter, Env, solar}
use flux_dtu.Dpl.Targets.{consume_target_dispatch_events}
use flux_dtu.Dpl.Update.{update}
use flux_dtu.Dpl.Update.Commands.{update-IsOneRound}
use flux_dtu.Dpl.Update.Consistency.{IsConsistent, update-IsConsistent}
use flux_dtu.Dpl.Stats.{get_latest_stats_millis}
use flux_dtu.Dpl.Solar
use flux_dtu.Dpl.Battery
use flux_dtu.Dpl.SmartBuffer
use flux_dtu.Dpl.Control
use flux_dtu.Dpl.Trace.{
  Step, updates, retires, reduces, increases, stands_by, reasserts, maximises, caps, bounds,
  refreshes, restores, restarts, reads_stats, consumes, hears, Reach, here, next,
}
use flux_dtu.Dpl.Trace.Invariant.{
  battery-standby-IsConsistent, smart_buffer-standby-IsConsistent,
  overscaling-set_ac_output-IsConsistent, battery_output-IsConsistent,
  battery-reduction-IsConsistent, battery-increase-IsConsistent, overscaling-increase-IsConsistent,
  solar-reduction-IsConsistent, smart_buffer-reduction-IsConsistent, cap-IsConsistent,
  bounds-IsConsistent, refresh-IsConsistent, restore-IsConsistent, reassert-IsConsistent,
}

module _ {F : Type 0} ⦃fl : Float F⦄ where
  reduction-IsConsistent :
      (e : Env) (reduction : ℕ) (allow : Bool) (s : Inverter F)
      → IsConsistent s
      → IsConsistent (Control.apply_reduction e reduction allow s).0
  unfolding Control.apply_reduction
  reduction-IsConsistent e reduction allow s h = ground (
    arith,
    battery-reduction-IsConsistent e reduction allow s,
    solar-reduction-IsConsistent e reduction allow s h,
    smart_buffer-reduction-IsConsistent e reduction allow s,
  )

  increase-IsConsistent :
      (e : Env) (increase : ℕ) (s : Inverter F)
      → IsConsistent s
      → IsConsistent (Control.apply_increase e increase s).0
  unfolding Control.apply_increase
  increase-IsConsistent e increase s h = ground (
    arith,
    battery-increase-IsConsistent e increase s h,
    overscaling-increase-IsConsistent e (Solar.get_max_increase_watts e s) increase s h,
    overscaling-increase-IsConsistent e (SmartBuffer.get_max_increase_watts e s) increase s h,
  )

  standby-IsConsistent :
      (e : Env) (s : Inverter F) → IsConsistent s → IsConsistent (Control.standby e s).0
  unfolding Control.standby Solar.standby
  standby-IsConsistent e s h = ground (
    arith,
    battery-standby-IsConsistent e s,
    overscaling-set_ac_output-IsConsistent e s.config.lower_power_limit s h,
    smart_buffer-standby-IsConsistent e s,
  )

  output-IsConsistent :
      (e : Env) (output : ℕ) (s : Inverter F)
      → IsConsistent s
      → IsConsistent (Control.set_ac_output e output s)
  unfolding Control.set_ac_output Battery.set_ac_output
  output-IsConsistent e output s h = ground (
    arith,
    battery_output-IsConsistent e output output s h,
    overscaling-set_ac_output-IsConsistent e output s h,
  )

  maximum-IsConsistent :
      (e : Env) (fast : Bool) (s : Inverter F)
      → IsConsistent s
      → IsConsistent (Control.set_max_output e fast s)
  unfolding Control.set_max_output
  maximum-IsConsistent e fast s h = output-IsConsistent e _ _ (ground arith)

  retired-IsConsistent :
      (b : Bool) (s : Inverter F) → IsConsistent s → IsConsistent (record s { retired = b })
  retired-IsConsistent b s h = ground arith

  retire-IsConsistent :
      (e : Env) (allow : Bool) (s : Inverter F)
      → IsConsistent s
      → IsConsistent (Control.retire e allow s).0
  unfolding Control.retire
  retire-IsConsistent e allow s h =
      let s' = if s.retired then s else (Control.standby e s).0 in
      let kept : IsConsistent s' = ground (arith, standby-IsConsistent e s h) in
      update-IsConsistent e allow (record s' { retired = true }) (retired-IsConsistent true s' kept)

  heard-IsConsistent :
      (s : Inverter F) (d : Device F) → IsConsistent s → IsConsistent (record s { device = d })
  heard-IsConsistent s d h = ground arith

  -- Every public operation, and any news from the radio, keeps the object consistent: a command in
  -- flight has its expected output and belongs to an update under way, an update under way has a
  -- target, an assumed output has its time, and standby is not the target of a solar inverter.
  pub Step-IsConsistent : {s t : Inverter F} → Step s t → IsConsistent s → IsConsistent t
  unfolding Control.restart get_latest_stats_millis consume_target_dispatch_events
  Step-IsConsistent (updates e allow s) h = update-IsConsistent e allow s h
  Step-IsConsistent (retires e allow s) h = retire-IsConsistent e allow s h
  Step-IsConsistent (reduces e r allow s) h = reduction-IsConsistent e r allow s h
  Step-IsConsistent (increases e i s) h = increase-IsConsistent e i s h
  Step-IsConsistent (stands_by e s) h = standby-IsConsistent e s h
  Step-IsConsistent (reasserts s) h = reassert-IsConsistent s h
  Step-IsConsistent (maximises e fast s) h = maximum-IsConsistent e fast s h
  Step-IsConsistent (caps e c s p) h = cap-IsConsistent e c s h
  Step-IsConsistent (bounds e s) h = bounds-IsConsistent e s h
  Step-IsConsistent (refreshes e s) h = refresh-IsConsistent e s h
  Step-IsConsistent (restores e r m s) h = restore-IsConsistent e r m s h
  Step-IsConsistent (restarts s) h = heard-IsConsistent s _ h
  Step-IsConsistent (reads_stats e s) h = ground arith
  Step-IsConsistent (consumes s) h = ground arith
  Step-IsConsistent (hears s d) h = heard-IsConsistent s d h

  pub Reach-IsConsistent : {s t : Inverter F} → IsConsistent s → Reach s t → IsConsistent t
  Reach-IsConsistent h here = h
  Reach-IsConsistent h (next r st) = Step-IsConsistent st (Reach-IsConsistent h r)

  -- After any history that starts at a consistent object, `update` requests no stop of a solar
  -- inverter: the number of stop commands that were handed to the radio does not change.
  pub solar_never_stopped :
      {s t : Inverter F} (e : Env) (allow : Bool)
      → IsConsistent s
      → Reach s t
      → t.config.power_source ≡ solar
      → stops (update e allow t).0.device ≡ stops t.device
  solar_never_stopped {t = t} e allow h r p =
      (update-IsOneRound e allow t).stop_wanted ((Reach-IsConsistent h r).paired.solar_on p)
