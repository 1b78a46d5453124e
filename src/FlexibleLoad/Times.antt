-- ===== src/FlexibleLoad/Times.antt =====
-- The pause of a load after it was stopped.
use flux_dtu.Base.{
  ℕ, ◌≡◌, refl, ◌∙◌, ap, Bool, true, false, ◌&&◌, not, Option, none, some, List, [], ◌∷◌, arith,
  Bool-cases, inl, inr,
}
use flux_dtu.Float.{Float}
use flux_dtu.FlexibleLoad.State.{LoadState, cooldown, LoadConfig, Readings, Runtime}
use flux_dtu.FlexibleLoad.Commands.{
  has_passed, publish_if, publish_command, publish_periodic_command, get_periodic_command_payload,
}
use flux_dtu.FlexibleLoad.Judgement.{Turn}
use flux_dtu.FlexibleLoad.Step.{is_off_duty, loop_load, loop_state, loop_cooldown, loop_emergency}
use flux_dtu.FlexibleLoad.Command.{publish_if-state}
use flux_dtu.FlexibleLoad.States.{loop_load-emergency, loop_load-state}

module _ {F : Type 0} where
  publish_if-changed :
      (o : Option Bool) (e : Readings F) (c : LoadConfig F) (rt : Runtime F)
      → (publish_if e o c rt).state_changed_millis ≡ rt.state_changed_millis
  unfolding publish_if publish_command
  publish_if-changed none e c rt = refl
  publish_if-changed (some on) e c rt = ground arith

  -- in the pause since some time
  record Pauses (since : ℕ) (rt : Runtime F) : Type 0 where
    at_rest : rt.current_state ≡ cooldown
    since_then : rt.state_changed_millis ≡ since

  publish_periodic_command-Pauses :
      (since : ℕ) (e : Readings F) (c : LoadConfig F) (rt : Runtime F)
      → Pauses since rt
      → Pauses since (publish_periodic_command e c rt)
  unfolding publish_periodic_command
  publish_periodic_command-Pauses since e c rt p = record {
    at_rest = publish_if-state (get_periodic_command_payload rt.current_state) e c rt ∙ p.at_rest;
    since_then =
        publish_if-changed (get_periodic_command_payload rt.current_state) e c rt ∙ p.since_then;
  }

module _ {F : Type 0} ⦃fl : Float F⦄ where
  loop_cooldown-Pauses :
      (since : ℕ) (t : Turn F) (rt : Runtime F)
      → has_passed t.readings.now since t.config.min_off_time ≡ false
      → Pauses since rt
      → Pauses since (loop_cooldown t rt)
  unfolding loop_cooldown
  loop_cooldown-Pauses since t rt p q =
      publish_periodic_command-Pauses since t.readings t.config _ (record {
        at_rest = ground (arith, p, q.at_rest, q.since_then);
        since_then = ground (arith, p, q.at_rest, q.since_then);
      })

  loop_emergency-Pauses :
      (since : ℕ) (t : Turn F) (rt : Runtime F)
      → Pauses since rt
      → Pauses since (loop_emergency t rt)
  unfolding loop_emergency
  loop_emergency-Pauses since t rt q = rw q.at_rest (
      publish_periodic_command-Pauses since t.readings t.config _
        (record { at_rest = refl; since_then = q.since_then }))

  abbrev pub turns : List (Turn F) → Runtime F → Runtime F
  turns [] rt = rt
  turns (t ∷ ts) rt = turns ts (loop_load t rt)

  -- turns of a load in use before its pause has lasted long enough
  abbrev pub all_early : (since : ℕ) → List (Turn F) → Bool
  all_early since [] = true
  all_early since (t ∷ ts) =
      not (is_off_duty t)
      && not (has_passed t.readings.now since t.config.min_off_time)
      && all_early since ts

  loop_state-cooldown :
      (t : Turn F) (rt : Runtime F)
      → rt.current_state ≡ cooldown
      → loop_state rt.current_state t rt ≡ loop_cooldown t rt
  unfolding loop_state
  loop_state-cooldown t rt p = ap (λ (s : LoadState). loop_state s t rt) p

  loop_load-Pauses :
      (since : ℕ) (t : Turn F) (rt : Runtime F)
      → not (is_off_duty t) && not (has_passed t.readings.now since t.config.min_off_time) ≡ true
      → Pauses since rt
      → Pauses since (loop_load t rt)
  loop_load-Pauses since t rt p q =
      let used : is_off_duty t ≡ false = ground (arith, p) in
      elim (Bool-cases t.readings.is_emergency_stop_active) [
        | inl r ↦ rw (loop_load-emergency t rt used r) (loop_emergency-Pauses since t rt q)
        | inr r ↦
            rw (loop_load-state t rt used r ∙ loop_state-cooldown t rt q.at_rest)
              (loop_cooldown-Pauses since t rt (ground (arith, p)) q)
      ]

  turns-Pauses :
      (since : ℕ) (ts : List (Turn F)) (rt : Runtime F)
      → all_early since ts ≡ true
      → Pauses since rt
      → Pauses since (turns ts rt)
  turns-Pauses since [] rt p q = q
  turns-Pauses since (t ∷ ts) rt p q =
      turns-Pauses since ts (loop_load t rt) (ground (arith, p))
        (loop_load-Pauses since t rt (ground (arith, p)) q)

  -- A load that was stopped stays off until its pause has lasted as long as is set, in whatever
  -- rounds, also with an emergency among them. This is for rounds in which the load is in use.
  pub turns-cooldown :
      (ts : List (Turn F)) (rt : Runtime F)
      → rt.current_state ≡ cooldown
      → all_early rt.state_changed_millis ts ≡ true
      → (turns ts rt).current_state ≡ cooldown
  turns-cooldown ts rt p q =
      (turns-Pauses rt.state_changed_millis ts rt q
        (record { at_rest = p; since_then = refl })).at_rest
