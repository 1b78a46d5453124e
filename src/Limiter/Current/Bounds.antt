-- ===== src/Limiter/Current/Bounds.antt =====
-- The range of the discharge current that is allowed, and of what is in the budget.
use flux_dtu.Base.{
  ℕ, ◌≡◌, Bool, true, false, ◌&&◌, not, Option, none, some, arith, if◌then◌else◌, sub32, List, [],
  ◌∷◌,
}
use flux_dtu.Float.{Float, float_max, clamp}
use flux_dtu.Limiter.State.{Config, Budget}
use flux_dtu.Limiter.Current.{
  peak_headroom_amps, budget_capacity_amp_seconds, current_limit_amps, spend, update_budget,
  limit_with_peak, limit_without_peak, continuous_limit_of, peak_limit_of, configured_budget,
  reset_battery_discharge_current_limit_budget, get_configured_battery_discharge_current_limit,
}

-- How floating-point numbers compare, NaN included: no number is below itself, no two are below
-- one another, and a product of numbers from 0 on is not below 0.
pub record IsOrdered {F : Type 0} (fl : Float F) : Type 0 where
  pub irreflexive : (x : F) → fl.lt x x ≡ false
  pub asymmetric : (x y : F) → fl.lt x y && fl.lt y x ≡ false
  pub mul_nonnegative :
      (x y : F)
      → fl.lt
          (fl.mul (float_max ⦃fl = fl⦄ (fl.of_nat 0) x) (float_max ⦃fl = fl⦄ (fl.of_nat 0) y))
          (fl.of_nat 0)
        ≡ false

-- a call at some time, with the current that is estimated then
pub record Call (F : Type 0) : Type 0 where
  pub now : ℕ
  pub estimate : F
  pub config : Config F

module _ {F : Type 0} ⦃fl : Float F⦄ where
  -- within a range, as far as comparisons tell
  abbrev pub within : (x lo hi : F) → Bool
  within x lo hi = not (fl.lt x lo) && not (fl.lt hi x)

  abbrev pub calls : List (Call F) → Budget F → Budget F
  calls [] b = b
  calls (c ∷ cs) b = calls cs (configured_budget c.now c.estimate c.config b)

  -- the range of the answer, where there is one
  abbrev pub is_limit : Config F → Option F → Bool
  is_limit c none = not c.battery_discharge_current_limit_enabled
  is_limit c (some x) =
      c.battery_discharge_current_limit_enabled
      && (if fl.le (continuous_limit_of c) (fl.of_nat 0)
          then within x (fl.of_nat 0) (fl.of_nat 0)
          else within x (continuous_limit_of c) (peak_limit_of c))

module _ {F : Type 0} ⦃fl : Float F⦄ (ordered : IsOrdered fl) where
  float_max-lower : (x y : F) → fl.lt (float_max x y) x ≡ false
  float_max-lower x y = ground (arith, ordered.irreflexive x, ordered.asymmetric x y)

  clamp-lower : (v lo hi : F) → fl.lt hi lo ≡ false → fl.lt (clamp v lo hi) lo ≡ false
  clamp-lower v lo hi p = ground (arith, ordered.irreflexive lo, p)

  clamp-upper : (v lo hi : F) → fl.lt hi lo ≡ false → fl.lt hi (clamp v lo hi) ≡ false
  clamp-upper v lo hi p = ground (arith, ordered.irreflexive hi, p)

  current_limit_amps-within :
      (continuous peak duration amp_seconds : F)
      → fl.lt peak continuous ≡ false
      → within (current_limit_amps continuous peak duration amp_seconds) continuous peak ≡ true
  unfolding current_limit_amps
  current_limit_amps-within continuous peak duration amp_seconds p =
      ground (arith, p, ordered.irreflexive continuous, ordered.irreflexive peak)

  budget_capacity-lower :
      (continuous peak duration : F)
      → fl.lt (budget_capacity_amp_seconds continuous peak duration) (fl.of_nat 0) ≡ false
  unfolding budget_capacity_amp_seconds peak_headroom_amps
  budget_capacity-lower continuous peak duration =
      ordered.mul_nonnegative (fl.sub peak continuous) duration

  update_budget-nonnegative :
      (now recovery : ℕ) (continuous capacity : F) (b : Budget F)
      → fl.lt capacity (fl.of_nat 0) ≡ false
      → fl.lt b.amp_seconds (fl.of_nat 0) ≡ false
      → fl.lt (update_budget now continuous capacity recovery b).amp_seconds (fl.of_nat 0) ≡ false
  unfolding update_budget
  update_budget-nonnegative now recovery continuous capacity b p q = ground (
    arith,
    p,
    q,
    clamp-lower (spend continuous capacity recovery (sub32 now b.update_millis) b) (fl.of_nat 0)
        capacity p,
  )

  configured_budget-nonnegative :
      (now : ℕ) (estimate : F) (c : Config F) (b : Budget F)
      → fl.lt b.amp_seconds (fl.of_nat 0) ≡ false
      → fl.lt (configured_budget now estimate c b).amp_seconds (fl.of_nat 0) ≡ false
  unfolding configured_budget limit_with_peak limit_without_peak
      reset_battery_discharge_current_limit_budget
  configured_budget-nonnegative now estimate c b p =
      let continuous = continuous_limit_of c in
      let duration = fl.of_nat c.battery_discharge_current_peak_duration in
      let capacity = budget_capacity_amp_seconds continuous (peak_limit_of c) duration in
      ground (
        arith,
        p,
        ordered.irreflexive (fl.of_nat 0),
        update_budget-nonnegative now c.battery_discharge_current_recovery_duration continuous
            capacity (record b { estimate_amps = estimate })
            (budget_capacity-lower continuous (peak_limit_of c) duration) p,
      )

  calls-nonnegative :
      (cs : List (Call F)) (b : Budget F)
      → fl.lt b.amp_seconds (fl.of_nat 0) ≡ false
      → fl.lt (calls cs b).amp_seconds (fl.of_nat 0) ≡ false
  calls-nonnegative [] b p = p
  calls-nonnegative (c ∷ cs) b p =
      calls-nonnegative cs (configured_budget c.now c.estimate c.config b)
        (configured_budget-nonnegative c.now c.estimate c.config b p)

  limit-within :
      (now : ℕ) (estimate : F) (c : Config F) (b : Budget F)
      → is_limit c (get_configured_battery_discharge_current_limit now estimate c b) ≡ true
  unfolding get_configured_battery_discharge_current_limit configured_budget limit_with_peak
      limit_without_peak reset_battery_discharge_current_limit_budget
  limit-within now estimate c b =
      let continuous = continuous_limit_of c in
      let peak = peak_limit_of c in
      let duration = fl.of_nat c.battery_discharge_current_peak_duration in
      let capacity = budget_capacity_amp_seconds continuous peak duration in
      let b' =
        update_budget now continuous capacity c.battery_discharge_current_recovery_duration
          (record b { estimate_amps = estimate }) in
      let above = float_max-lower continuous c.battery_discharge_current_peak_limit in
      ground (
        arith,
        above,
        ordered.irreflexive (fl.of_nat 0),
        ordered.irreflexive continuous,
        current_limit_amps-within continuous peak duration b'.amp_seconds above,
      )

  -- However the configuration, the estimated current and the time change from call to call, the
  -- budget for peaks is never below 0. The next answer is a limit exactly if one is enabled. It is
  -- 0 if the continuous limit is at most 0, and else from the continuous limit to the peak limit,
  -- where a peak limit below the continuous one counts as the continuous one. This is as far as
  -- comparisons tell, for a budget that is not below 0 at first.
  pub calls-budget :
      (cs : List (Call F)) (b : Budget F) (c : Call F)
      → fl.lt b.amp_seconds (fl.of_nat 0) ≡ false
      → (fl.lt (calls cs b).amp_seconds (fl.of_nat 0) ≡ false)
        × (is_limit c.config (
              get_configured_battery_discharge_current_limit c.now c.estimate c.config (calls cs b))
            ≡ true)
  calls-budget cs b c p =
      (calls-nonnegative cs b p, limit-within c.now c.estimate c.config (calls cs b))
