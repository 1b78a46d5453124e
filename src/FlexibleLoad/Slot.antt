-- ===== src/FlexibleLoad/Slot.antt =====
-- Loads are started one after another.
use flux_dtu.Base.{
  ℕ, zero, suc, ◌+◌, ◌≤◌, ◌≡◌, refl, Bool, true, ◌&&◌, ◌||◌, not, List, [], ◌∷◌, arith,
  if◌then◌else◌,
}
use flux_dtu.Float.{Float}
use flux_dtu.FlexibleLoad.State.{LoadState, Readings, Runtime}
use flux_dtu.FlexibleLoad.Judgement.{Turn, is_starting_state}
use flux_dtu.FlexibleLoad.Step.{loop_load, is_started}
use flux_dtu.FlexibleLoad.Loop.{
  Load, Place, start_order, turn, visit, takes_start, load_sum_of, visit_all, has_starting_load,
  loop, Round, runtimes, loads_of, runtimes-loads_of, rounds,
}
use flux_dtu.FlexibleLoad.Transitions.{Conditions, may_become, conditions, loop_load-may_become}

abbrev pub one_if : Bool → ℕ
one_if b = if b then 1 else 0

module _ {F : Type 0} where
  abbrev pub starting_count : List (Runtime F) → ℕ
  starting_count [] = 0
  starting_count (rt ∷ rts) = one_if (is_starting_state rt.current_state) + starting_count rts

  has_starting_load-count :
      (ls : List (Load F))
      → starting_count (runtimes ls) ≤ 1
      → one_if (has_starting_load ls) ≡ starting_count (runtimes ls)
  unfolding has_starting_load
  has_starting_load-count [] p = refl
  has_starting_load-count (l ∷ ls) p = ground (arith, p, has_starting_load-count ls)

starting_from :
    (c : Conditions) (s s' : LoadState)
    → may_become c s s' ≡ true
    → one_if (is_starting_state s') ≤ one_if (is_starting_state s) + one_if c.is_started
starting_from c s s' p = ground (arith, p)

module _ {F : Type 0} ⦃fl : Float F⦄ where
  started-free : (t : Turn F) (rt : Runtime F) → one_if (is_started t rt) ≤ one_if t.can_start
  unfolding is_started
  started-free t rt = ground arith

  visit-count :
      (e : Readings F) (load_sum : F) (blocked : Bool) (i : ℕ) (ls : List (Load F))
      → starting_count (runtimes (visit e load_sum blocked i ls))
        ≤ starting_count (runtimes ls) + one_if (not blocked && takes_start e load_sum blocked i ls)
  unfolding visit takes_start
  visit-count e load_sum blocked i [] = omega arith
  visit-count e load_sum blocked zero (l ∷ ls) =
      let t = turn e load_sum blocked l in
      ground (
        arith,
        starting_from (conditions t l.runtime) l.runtime.current_state
            (loop_load t l.runtime).current_state (loop_load-may_become t l.runtime),
        started-free t l.runtime,
      )
  visit-count e load_sum blocked (suc i) (l ∷ ls) =
      ground (arith, visit-count e load_sum blocked i ls)

  visit_all-count :
      (e : Readings F) (ps : List Place) (blocked : Bool) (ls : List (Load F))
      → starting_count (runtimes ls) ≤ one_if blocked
      → starting_count (runtimes (visit_all e ps blocked ls)) ≤ 1
  unfolding visit_all
  visit_all-count e [] blocked ls p = ground (arith, p)
  visit_all-count e (q ∷ qs) blocked ls p =
      visit_all-count e qs (takes_start e (load_sum_of ls) blocked q.index ls || blocked)
        (visit e (load_sum_of ls) blocked q.index ls)
        (ground (arith, p, visit-count e (load_sum_of ls) blocked q.index ls))

  -- Over any rounds, whatever is configured, measured and read in each of them, at most one load at a
  -- time is being started, if that is so at first.
  pub rounds-starting_count :
      (rs : List (Round F)) (rts : List (Runtime F))
      → starting_count rts ≤ 1
      → starting_count (rounds rs rts) ≤ 1
  unfolding loop
  rounds-starting_count [] rts p = p
  rounds-starting_count (r ∷ rs) rts p =
      let ls = loads_of r.settings 0 rts in
      let same : runtimes ls ≡ rts = runtimes-loads_of r.settings 0 rts in
      let few : starting_count (runtimes ls) ≤ 1 = rw same p in
      rounds-starting_count rs _ (
        visit_all-count r.readings (start_order 0 ls) (has_starting_load ls) ls
          (omega (arith, has_starting_load-count ls few)))
