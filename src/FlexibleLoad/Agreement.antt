-- ===== src/FlexibleLoad/Agreement.antt =====
-- The commands agree with the states over whole rounds, for every load.
use flux_dtu.Base.{ℕ, zero, suc, ◌≡◌, refl, ap, Bool, false, List, [], ◌∷◌, arith}
use flux_dtu.Float.{Float}
use flux_dtu.FlexibleLoad.State.{
  LoadState, disabled, off, waiting_for_start, starting, running_min_time, running, cooldown,
  Readings, Runtime,
}
use flux_dtu.FlexibleLoad.Power.{should_stop_for_grid_charger_limit}
use flux_dtu.FlexibleLoad.Commands.{set_state}
use flux_dtu.FlexibleLoad.Judgement.{
  Turn, update_battery_support_energy, handle_grid_charger_limit_stop,
  handle_bms_charge_current_limit_stop, is_bms_stop_candidate,
}
use flux_dtu.FlexibleLoad.Step.{
  accounted, is_off_duty, loop_running_min_time, loop_state, loop_load,
}
use flux_dtu.FlexibleLoad.Loop.{
  Load, Round, Place, start_order, turn, visit, load_sum_of, visit_all, has_starting_load, loop,
  runtimes, loads_of, runtimes-loads_of, rounds,
}
use flux_dtu.FlexibleLoad.Command.{
  Follows, publish_periodic_command-Follows, if-Follows, handle_grid-Follows, handle_bms-Follows,
}
use flux_dtu.FlexibleLoad.Rounds.{
  loop_disabled-Follows, loop_emergency-Follows, loop_idle-Follows, loop_starting-Follows,
  loop_cooldown-Follows, accounted-Follows, loop_running-Follows,
}

module _ {F : Type 0} ⦃fl : Float F⦄ where
  -- no candidate for a stop: nothing but the candidate's time changes
  handle_bms-quiet :
      (t : Turn F) (rt : Runtime F)
      → is_bms_stop_candidate t rt ≡ false
      → handle_bms_charge_current_limit_stop t rt
        ≡ (record rt { bms_charge_limit_stop_candidate_since = 0 })
  unfolding handle_bms_charge_current_limit_stop
  handle_bms-quiet t rt p = rw p refl

  handle_grid-quiet :
      (t : Turn F) (rt : Runtime F)
      → should_stop_for_grid_charger_limit t.readings t.config ≡ false
      → handle_grid_charger_limit_stop t rt
        ≡ (record rt { grid_charger_limit_stop_candidate_since = 0 })
  unfolding handle_grid_charger_limit_stop
  handle_grid-quiet t rt p = rw p refl

  handled-state :
      (t : Turn F) (rt : Runtime F)
      → is_bms_stop_candidate t (accounted t rt) ≡ false
      → should_stop_for_grid_charger_limit t.readings t.config ≡ false
      → (handle_grid_charger_limit_stop t
          (handle_bms_charge_current_limit_stop t (accounted t rt))).current_state
        ≡ rt.current_state
  unfolding accounted update_battery_support_energy
  handled-state t rt p q = rw (handle_bms-quiet t (accounted t rt) p) (
      ap (λ (x : Runtime F). x.current_state)
        (handle_grid-quiet t (record (accounted t rt) { bms_charge_limit_stop_candidate_since = 0 })
          q))

  loop_running_min_time-Follows :
      (t : Turn F) (rt : Runtime F)
      → rt.current_state ≡ running_min_time
      → Follows rt
      → Follows (loop_running_min_time t rt)
  unfolding loop_running_min_time set_state
  loop_running_min_time-Follows t rt s p =
      let rt1 = accounted t rt in
      let p2 = handle_bms-Follows t rt1 (accounted-Follows t rt p) in
      let p3 = handle_grid-Follows t _ p2 in
      publish_periodic_command-Follows t.readings t.config _
        (record { agreed = ground (arith, p2.agreed, p3.agreed, s, handled-state t rt) })

  loop_state-Follows :
      (s : LoadState) (t : Turn F) (rt : Runtime F)
      → rt.current_state ≡ s
      → Follows rt
      → Follows (loop_state s t rt)
  unfolding loop_state
  loop_state-Follows disabled t rt s p = loop_idle-Follows t rt (rw s refl) p
  loop_state-Follows off t rt s p = loop_idle-Follows t rt (rw s refl) p
  loop_state-Follows waiting_for_start t rt s p = loop_idle-Follows t rt (rw s refl) p
  loop_state-Follows starting t rt s p = loop_starting-Follows t rt s p
  loop_state-Follows running_min_time t rt s p = loop_running_min_time-Follows t rt s p
  loop_state-Follows running t rt s p = loop_running-Follows t rt p
  loop_state-Follows cooldown t rt s p = loop_cooldown-Follows t rt s p

  pub loop_load-Follows : (t : Turn F) (rt : Runtime F) → Follows rt → Follows (loop_load t rt)
  unfolding loop_load
  loop_load-Follows t rt p = if-Follows (is_off_duty t) _ _ (loop_disabled-Follows t rt p) (
      if-Follows t.readings.is_emergency_stop_active _ _ (loop_emergency-Follows t rt p)
        (loop_state-Follows rt.current_state t rt refl p))

-- each load is where its last command put it
pub data AllFollow {F : Type 0} : List (Runtime F) → Type 0 where
  none_left : AllFollow []
  one_more :
      {rt : Runtime F} {rts : List (Runtime F)} → Follows rt → AllFollow rts → AllFollow (rt ∷ rts)

module _ {F : Type 0} ⦃fl : Float F⦄ where
  visit-AllFollow :
      (e : Readings F) (load_sum : F) (blocked : Bool) (i : ℕ) (ls : List (Load F))
      → AllFollow (runtimes ls)
      → AllFollow (runtimes (visit e load_sum blocked i ls))
  unfolding visit
  visit-AllFollow e load_sum blocked i [] p = p
  visit-AllFollow e load_sum blocked zero (l ∷ ls) (one_more f p) =
      one_more (loop_load-Follows (turn e load_sum blocked l) l.runtime f) p
  visit-AllFollow e load_sum blocked (suc i) (l ∷ ls) (one_more f p) =
      one_more f (visit-AllFollow e load_sum blocked i ls p)

  visit_all-AllFollow :
      (e : Readings F) (ps : List Place) (blocked : Bool) (ls : List (Load F))
      → AllFollow (runtimes ls)
      → AllFollow (runtimes (visit_all e ps blocked ls))
  unfolding visit_all
  visit_all-AllFollow e [] blocked ls p = p
  visit_all-AllFollow e (q ∷ qs) blocked ls p =
      visit_all-AllFollow e qs _ _ (visit-AllFollow e (load_sum_of ls) blocked q.index ls p)

  -- Over any rounds, whatever is configured, measured and read in each of them, each load that was sent a command is in a state that
  -- agrees with the last one: it counts as running exactly if it was switched on. This is for loads
  -- that are so at first, such as those that were sent nothing yet.
  pub rounds-AllFollow :
      (rs : List (Round F)) (rts : List (Runtime F)) → AllFollow rts → AllFollow (rounds rs rts)
  unfolding loop
  rounds-AllFollow [] rts p = p
  rounds-AllFollow (r ∷ rs) rts p =
      let ls = loads_of r.settings 0 rts in
      rounds-AllFollow rs _ (
        visit_all-AllFollow r.readings (start_order 0 ls) (has_starting_load ls) ls
          (rw (runtimes-loads_of r.settings 0 rts) p))
