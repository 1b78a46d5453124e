-- ===== src/Limiter/Restart/Schedule.antt =====
-- When the inverters are restarted.
use flux_dtu.Base.{
  ℕ, ◌+◌, ◌*◌, ◌%◌, ◌≤◌, ◌<◌, ◌≡◌, ◌≢◌, refl, Bool, true, false, ◌||◌, List, [], ◌∷◌, some, arith,
  ltb, if◌then◌else◌, add32, u32,
}
use flux_dtu.Float.{Float}
use flux_dtu.Dpl.State.{Inverter, InverterPowerSource, battery, solar, smart_buffer}
use flux_dtu.Dpl.Readings.{is_solar}
use flux_dtu.Dpl.Control.{restart}
use flux_dtu.Limiter.State.{Limiter, Config}
use flux_dtu.Limiter.Battery.{uses_battery_powered_inverter, uses_smart_buffer_powered_inverter}
use flux_dtu.Limiter.Restart.{
  Time, restart_minutes, calc_next_inverter_restart, restart_inverters, restart_sent,
  is_restart_due, auto_restart_inverters,
}

-- The minutes to a time of day: at most a day ahead.
pub record LeadTo (restart_hour hour minute minutes : ℕ) : Type 0 where
  pub ahead : 0 < minutes
  pub in_a_day : minutes ≤ 1440
  pub at_the_hour : (hour * 60 + minute + minutes) % 1440 ≡ restart_hour * 60

restart_minutes-LeadTo :
    (restart_hour hour minute minutes : ℕ)
    → restart_hour < 24
    → hour < 24
    → minute < 60
    → LeadTo restart_hour hour minute minutes
    → restart_minutes restart_hour hour minute ≡ minutes
unfolding restart_minutes
restart_minutes-LeadTo restart_hour hour minute minutes p q r l =
    ground (arith, p, q, r, l.ahead, l.in_a_day, l.at_the_hour)

is_restart_due_lem :
    (minutes start elapsed : ℕ)
    → minutes ≤ 1440
    → start < 4_294_967_296
    → elapsed ≤ minutes * 60_000 + 2_147_483_648
    → is_restart_due (add32 start elapsed) (some (add32 (u32 (minutes * 60_000)) start))
      ≡ ltb (minutes * 60_000) elapsed
unfolding is_restart_due
is_restart_due_lem minutes start elapsed p q r = ground (arith, p, q, r)

module _ {F : Type 0} ⦃fl : Float F⦄ where
  calc_next_inverter_restart_lem :
      (t : Time) (c : Config F) (invs : List (Inverter F)) (l : Limiter F)
      → uses_battery_powered_inverter invs || uses_smart_buffer_powered_inverter invs ≡ true
      → (calc_next_inverter_restart t c invs l).next_inverter_restart
        ≡ some (add32 (u32 (restart_minutes c.restart_hour t.hour t.minute * 60_000)) t.millis)
  unfolding calc_next_inverter_restart
  calc_next_inverter_restart_lem t c invs l p = ground (arith, p)

  is_restart_due-calc :
      (t t' : Time) (minutes elapsed : ℕ) (c : Config F) (invs : List (Inverter F)) (l : Limiter F)
      → restart_minutes c.restart_hour t.hour t.minute ≡ minutes
      → minutes ≤ 1440
      → t.millis < 4_294_967_296
      → uses_battery_powered_inverter invs || uses_smart_buffer_powered_inverter invs ≡ true
      → elapsed ≤ minutes * 60_000 + 2_147_483_648
      → t'.millis ≡ add32 t.millis elapsed
      → is_restart_due t'.millis (calc_next_inverter_restart t c invs l).next_inverter_restart
        ≡ ltb (minutes * 60_000) elapsed
  is_restart_due-calc t t' minutes elapsed c invs l m r s u v w =
      rw (calc_next_inverter_restart_lem t c invs l u, w, m)
        (is_restart_due_lem minutes t.millis elapsed r s v)

  -- The inverters after a restart of all but the solar ones, and whether one of them could be sent.
  pub data AreRestarted : List (Inverter F) → List (Inverter F) → (sent : Bool) → Type 0 where
    none_left : AreRestarted [] [] false
    kept :
        {invs invs' : List (Inverter F)} {sent : Bool} (inv : Inverter F)
        → inv.config.power_source ≡ solar
        → AreRestarted invs invs' sent
        → AreRestarted (inv ∷ invs) (inv ∷ invs') sent
    restarted :
        {invs invs' : List (Inverter F)} {sent : Bool} (inv : Inverter F)
        → inv.config.power_source ≢ solar
        → AreRestarted invs invs' sent
        → AreRestarted (inv ∷ invs) ((restart inv).0 ∷ invs') ((restart inv).1 || sent)

  restart_one-AreRestarted :
      (source : InverterPowerSource) (inv : Inverter F) {invs invs' : List (Inverter F)}
      {sent : Bool}
      → inv.config.power_source ≡ source
      → AreRestarted invs invs' sent
      → AreRestarted
          (inv ∷ invs)
          ((if is_solar source then inv else (restart inv).0) ∷ invs')
          ((if is_solar source then false else (restart inv).1) || sent)
  restart_one-AreRestarted solar inv e rest = kept inv e rest
  restart_one-AreRestarted battery inv e rest = restarted inv (ground (arith, e)) rest
  restart_one-AreRestarted smart_buffer inv e rest = restarted inv (ground (arith, e)) rest

  restart_inverters-AreRestarted :
      (invs : List (Inverter F)) → AreRestarted invs (restart_inverters invs) (restart_sent invs)
  unfolding restart_inverters restart_sent
  restart_inverters-AreRestarted [] = none_left
  restart_inverters-AreRestarted (inv ∷ invs) =
      restart_one-AreRestarted inv.config.power_source inv refl
        (restart_inverters-AreRestarted invs)

  -- what a call does: all of the restart if it is due, and nothing if it is not
  abbrev pub Outcome :
      (is_due : Bool)
      → Time
      → Config F
      → List (Inverter F)
      → Limiter F
      → List (Inverter F) × Limiter F × Bool
      → Type 0
  Outcome true t c invs l (invs', l', sent) =
      AreRestarted invs invs' sent × (l' ≡ calc_next_inverter_restart t c invs' l)
  Outcome false t c invs l (invs', l', sent) = (invs' ≡ invs) × (l' ≡ l) × (sent ≡ false)

  auto_restart_inverters-Outcome :
      (is_due : Bool) (t : Time) (c : Config F) (invs : List (Inverter F)) (l : Limiter F)
      → is_restart_due t.millis l.next_inverter_restart ≡ is_due
      → Outcome is_due t c invs l (auto_restart_inverters t c invs l)
  unfolding auto_restart_inverters
  auto_restart_inverters-Outcome true t c invs l e =
      rw e (restart_inverters-AreRestarted invs, refl)
  auto_restart_inverters-Outcome false t c invs l e = rw e (refl, refl, refl)

  -- The restart that is scheduled at some time of day is carried out once the minutes have passed that
  -- lead to the next time that the given hour begins, at most a day ahead. Every inverter is restarted
  -- then whose power source is not solar, the solar ones stay as they were, it is reported whether one
  -- of the restarts was sent, and the next restart is scheduled, for the time of then. Before, nothing
  -- changes. This is for times of day and an hour that are in range, at least one inverter that is not
  -- a solar one, and up to 24 days after the minutes have passed.
  pub auto_restart_inverters-calc_next_inverter_restart :
      (t t' : Time) (minutes elapsed : ℕ) (c : Config F) (invs : List (Inverter F)) (l : Limiter F)
      → c.restart_hour < 24
      → t.hour < 24
      → t.minute < 60
      → LeadTo c.restart_hour t.hour t.minute minutes
      → t.millis < 4_294_967_296
      → uses_battery_powered_inverter invs || uses_smart_buffer_powered_inverter invs ≡ true
      → elapsed ≤ minutes * 60_000 + 2_147_483_648
      → t'.millis ≡ add32 t.millis elapsed
      → let l' = calc_next_inverter_restart t c invs l in
        Outcome (ltb (minutes * 60_000) elapsed) t' c invs l' (auto_restart_inverters t' c invs l')
  auto_restart_inverters-calc_next_inverter_restart t t' minutes elapsed c invs l p q r m s u v w =
      auto_restart_inverters-Outcome _ t' c invs _ (
        is_restart_due-calc t t' minutes elapsed c invs l
          (restart_minutes-LeadTo c.restart_hour t.hour t.minute minutes p q r m) m.in_a_day s u v
          w)
