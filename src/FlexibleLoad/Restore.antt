-- ===== src/FlexibleLoad/Restore.antt =====
-- src/FlexibleLoad.cpp: what of a load is written to a file, and read from it at a start. The file
-- and its JSON are not modelled: a load's part of it is a record, or missing.
use flux_dtu.Base.{
  ℕ, ◌*◌, ◌<◌, ◌≡◌, refl, Bool, true, false, ◌&&◌, ◌||◌, not, Option, none, some, List, [], ◌∷◌,
  arith, if◌then◌else◌, sub32, u32, same_text,
}
use flux_dtu.Float.{Float, float_max}
use flux_dtu.FlexibleLoad.State.{LoadState, off, no_stop, restored_off, LoadConfig, Runtime}
use flux_dtu.FlexibleLoad.Power.{can_use_battery_buffer}
use flux_dtu.FlexibleLoad.Commands.{is_empty, is_running, has_passed}

pub record Persisted (F : Type 0) : Type 0 where
  pub mqtt_topic : List ℕ
  pub running : Bool
  pub battery_support_energy_wh : Option F

module _ {F : Type 0} ⦃fl : Float F⦄ where
  -- `persistState`, for one load
  unfoldable pub persisted_of : LoadConfig F → Runtime F → Persisted F
  persisted_of c rt = record {
    mqtt_topic = c.mqtt_topic;
    running = is_running rt;
    battery_support_energy_wh =
        if is_running rt && fl.lt (fl.of_nat 0) rt.battery_support_energy_wh
        then some rt.battery_support_energy_wh
        else none;
  }

  abbrev energy_of : Option F → F
  energy_of none = fl.of_nat 0
  energy_of (some x) = x

  unfoldable pub restored_energy : LoadConfig F → Option F → F
  restored_energy c o =
      if can_use_battery_buffer c && fl.is_finite (energy_of o)
      then float_max (fl.of_nat 0) (energy_of o)
      else fl.of_nat 0

  -- `restoreState`, for one load
  unfoldable pub restore_load :
      (now : ℕ) → LoadConfig F → Option (Persisted F) → Runtime F → Runtime F
  restore_load now c none rt = record rt { last_command_publish = now }
  restore_load now c (some p) rt =
      let rt' : Runtime F = record rt { last_command_publish = now } in
      if not c.enabled || is_empty c.mqtt_topic || not (same_text p.mqtt_topic c.mqtt_topic)
      then rt'
      else if p.running
      then (record rt' {
        current_state = LoadState.running;
        state_changed_millis = now;
        load_started_millis = sub32 now (u32 (c.min_runtime * 1000));
        last_battery_energy_update = now;
        battery_support_energy_wh = restored_energy c p.battery_support_energy_wh;
        stop_reason = no_stop;
      })
      else (record rt' {
        current_state = off;
        state_changed_millis = now;
        stop_reason = restored_off;
      })

same_text_self : (xs : List ℕ) → same_text xs xs ≡ true
unfolding same_text
same_text_self [] = refl
same_text_self (x ∷ xs) = ground (arith, same_text_self xs)

module _ {F : Type 0} ⦃fl : Float F⦄ where
  -- A load that is in use is restored from what was written of it: it runs if it was running, past its
  -- shortest runtime, with the battery's support as it was where the battery may be used as a buffer
  -- and the energy is finite and above 0, and without any otherwise; a load that was not running is
  -- off, and its energy is that of the fresh runtime. No load is being started, and no command is sent.
  pub restore_load-persisted_of :
      (now : ℕ) (c : LoadConfig F) (rt fresh : Runtime F)
      → now < 4_294_967_296
      → c.min_runtime < 65_536
      → c.enabled && not (is_empty c.mqtt_topic) ≡ true
      → (let rt' = restore_load now c (some (persisted_of c rt)) fresh in
          (rt'.current_state ≡ (if is_running rt then LoadState.running else off))
          × (is_running rt && not (has_passed now rt'.load_started_millis c.min_runtime) ≡ false)
          × (rt'.battery_support_energy_wh ≡ (
              if not (is_running rt)
              then fresh.battery_support_energy_wh
              else if can_use_battery_buffer c
                  && fl.is_finite rt.battery_support_energy_wh
                  && fl.lt (fl.of_nat 0) rt.battery_support_energy_wh
              then rt.battery_support_energy_wh
              else fl.of_nat 0))
          × (rt'.published ≡ fresh.published))
  unfolding restore_load persisted_of restored_energy
  restore_load-persisted_of now c rt fresh p q r =
      ground (arith, p, q, r, same_text_self c.mqtt_topic)
