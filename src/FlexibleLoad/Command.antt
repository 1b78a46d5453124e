-- ===== src/FlexibleLoad/Command.antt =====
-- The last command that a load was sent agrees with its state.
use flux_dtu.Base.{◌≡◌, refl, Bool, true, false, same, Option, none, some, arith, if◌then◌else◌}
use flux_dtu.Float.{Float}
use flux_dtu.FlexibleLoad.State.{
  LoadState, disabled, off, waiting_for_start, starting, running_min_time, running, cooldown,
  StartReason, StopReason, LoadConfig, Readings, Runtime,
}
use flux_dtu.FlexibleLoad.Commands.{
  is_running_state, is_running, get_periodic_command_payload, set_state, publish_command,
  publish_if, publish_periodic_command, stopped, stop_load, reset_run_accounting, started,
  start_load,
}
use flux_dtu.FlexibleLoad.Judgement.{
  Turn, handle_grid_charger_limit_stop, handle_bms_charge_current_limit_stop,
}

-- "On" was sent last exactly if the load runs, where anything was sent.
abbrev pub agrees : (published : Option Bool) → LoadState → Bool
agrees none s = true
agrees (some on) s = same on (is_running_state s)

-- The load is where its last command put it.
pub record Follows {F : Type 0} (rt : Runtime F) : Type 0 where
  pub agreed : agrees rt.published rt.current_state ≡ true

module _ {F : Type 0} where
  publish_command-agrees :
      (s : LoadState) (on : Bool) (e : Readings F) (c : LoadConfig F) (rt : Runtime F)
      → agrees rt.published s ≡ true
      → same on (is_running_state s) ≡ true
      → agrees (publish_command e on c rt).published s ≡ true
  unfolding publish_command
  publish_command-agrees s on e c rt p q = ground (arith, p, q)

  publish_if-agrees :
      (s : LoadState) (e : Readings F) (c : LoadConfig F) (rt : Runtime F)
      → agrees rt.published s ≡ true
      → agrees (publish_if e (get_periodic_command_payload s) c rt).published s ≡ true
  unfolding publish_if
  publish_if-agrees disabled e c rt p = p
  publish_if-agrees off e c rt p = ground (arith, p, publish_command-agrees off false e c rt p refl)
  publish_if-agrees waiting_for_start e c rt p =
      ground (arith, p, publish_command-agrees waiting_for_start false e c rt p refl)
  publish_if-agrees starting e c rt p =
      ground (arith, p, publish_command-agrees starting true e c rt p refl)
  publish_if-agrees running_min_time e c rt p =
      ground (arith, p, publish_command-agrees running_min_time true e c rt p refl)
  publish_if-agrees running e c rt p =
      ground (arith, p, publish_command-agrees running true e c rt p refl)
  publish_if-agrees cooldown e c rt p =
      ground (arith, p, publish_command-agrees cooldown false e c rt p refl)

  pub publish_if-state :
      (o : Option Bool) (e : Readings F) (c : LoadConfig F) (rt : Runtime F)
      → (publish_if e o c rt).current_state ≡ rt.current_state
  unfolding publish_if publish_command
  publish_if-state none e c rt = refl
  publish_if-state (some on) e c rt = ground arith

  pub publish_periodic_command-Follows :
      (e : Readings F) (c : LoadConfig F) (rt : Runtime F)
      → Follows rt
      → Follows (publish_periodic_command e c rt)
  unfolding publish_periodic_command
  publish_periodic_command-Follows e c rt p = record {
    agreed =
        rw (publish_if-state (get_periodic_command_payload rt.current_state) e c rt)
          (publish_if-agrees rt.current_state e c rt p.agreed);
  }

  pub stop_load-Follows :
      (e : Readings F) (reason : StopReason) (c : LoadConfig F) (rt : Runtime F)
      → Follows rt
      → Follows (stop_load e reason c rt)
  unfolding stop_load stopped set_state publish_command
  stop_load-Follows e why c rt p = record { agreed = ground (arith, p.agreed) }

  pub if-Follows :
      (b : Bool) (rt rt' : Runtime F) → Follows rt → Follows rt' → Follows (if b then rt else rt')
  if-Follows true rt rt' p q = p
  if-Follows false rt rt' p q = q

  -- no change of what is sent, and one within the running states, or within the others
  Follows-change :
      (rt rt' : Runtime F)
      → rt'.published ≡ rt.published
      → is_running rt' ≡ is_running rt
      → Follows rt
      → Follows rt'
  Follows-change rt rt' p q f = record {
    agreed = moved rt'.published rt.published _ _ p q f.agreed;
  }
    where
      moved :
          (o o' : Option Bool) (s s' : LoadState)
          → o ≡ o'
          → is_running_state s ≡ is_running_state s'
          → agrees o' s' ≡ true
          → agrees o s ≡ true
      moved o o' s s' p q f = ground (arith, p, q, f)

module _ {F : Type 0} ⦃fl : Float F⦄ where
  pub start_load-Follows :
      (e : Readings F) (why : StartReason) (c : LoadConfig F) (rt : Runtime F)
      → Follows rt
      → Follows (start_load e why c rt)
  unfolding start_load started set_state publish_command reset_run_accounting
  start_load-Follows e why c rt p = record { agreed = ground (arith, p.agreed) }

  pub handle_grid-Follows :
      (t : Turn F) (rt : Runtime F) → Follows rt → Follows (handle_grid_charger_limit_stop t rt)
  unfolding handle_grid_charger_limit_stop
  handle_grid-Follows t rt p =
      let stop = stop_load-Follows t.readings StopReason.grid_charger_power_limited t.config rt p in
      record { agreed = ground (arith, p.agreed, stop.agreed) }

  pub handle_bms-Follows :
      (t : Turn F) (rt : Runtime F)
      → Follows rt
      → Follows (handle_bms_charge_current_limit_stop t rt)
  unfolding handle_bms_charge_current_limit_stop
  handle_bms-Follows t rt p =
      let stop =
        stop_load-Follows t.readings StopReason.bms_charge_current_below_limit t.config rt p in
      record { agreed = ground (arith, p.agreed, stop.agreed) }
