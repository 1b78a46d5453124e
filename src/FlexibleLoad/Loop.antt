-- ===== src/FlexibleLoad/Loop.antt =====
-- src/FlexibleLoad.cpp: `loop`, a round for all loads in the order of their priorities.
use flux_dtu.Base.{
  ℕ, zero, suc, ◌≡◌, refl, ap, Bool, false, ◌||◌, not, Option, List, [], ◌∷◌, ltb, ◌==◌,
  if◌then◌else◌,
}
use flux_dtu.Float.{Float}
use flux_dtu.FlexibleLoad.State.{LoadConfig, Readings, Runtime}
use flux_dtu.FlexibleLoad.Power.{get_measured_running_load_power_watts}
use flux_dtu.FlexibleLoad.Judgement.{Turn, is_waiting, is_starting_state}
use flux_dtu.FlexibleLoad.Step.{loop_load, is_started}

-- What a round reads of one load: its configuration, and its power as `FlexibleLoadStats` has it.
pub record Setting (F : Type 0) : Type 0 where
  pub config : LoadConfig F
  pub measured : Option F

-- what a round reads, for the loads by their indices
pub record Round (F : Type 0) : Type 0 where
  pub readings : Readings F
  pub settings : ℕ → Setting F

-- A load as the loop over `startOrder` sees it: `config`, the power measured, and `runtime`. Only the
-- runtime is kept until the next round.
pub record Load (F : Type 0) : Type 0 where
  pub config : LoadConfig F
  pub measured : Option F
  pub runtime : Runtime F

-- an index with its priority
pub record Place : Type 0 where
  pub priority : ℕ
  pub index : ℕ

abbrev pub comes_before : Place → Place → Bool
comes_before a b =
    if a.priority == b.priority then ltb a.index b.index else ltb a.priority b.priority

abbrev pub insert : Place → List Place → List Place
insert a [] = a ∷ []
insert a (b ∷ bs) = if comes_before b a then b ∷ insert a bs else a ∷ b ∷ bs

module _ {F : Type 0} where
  -- `startOrder`, sorted
  unfoldable pub start_order : (index : ℕ) → List (Load F) → List Place
  start_order index [] = []
  start_order index (l ∷ ls) =
      insert (record { priority = l.config.priority; index = index }) (start_order (suc index) ls)

  abbrev pub all_measured : List (Load F) → List (Option F)
  all_measured [] = []
  all_measured (l ∷ ls) = l.measured ∷ all_measured ls

  abbrev pub runtimes : List (Load F) → List (Runtime F)
  runtimes [] = []
  runtimes (l ∷ ls) = l.runtime ∷ runtimes ls

  -- the entries of `_runtime`, each with what the round reads of its load
  abbrev pub loads_of : (settings : ℕ → Setting F) → (index : ℕ) → List (Runtime F) → List (Load F)
  loads_of settings index [] = []
  loads_of settings index (rt ∷ rts) =
      let s = settings index in
      record { config = s.config; measured = s.measured; runtime = rt }
      ∷ loads_of settings (suc index) rts

  pub runtimes-loads_of :
      (settings : ℕ → Setting F) (index : ℕ) (rts : List (Runtime F))
      → runtimes (loads_of settings index rts) ≡ rts
  runtimes-loads_of settings index [] = refl
  runtimes-loads_of settings index (rt ∷ rts) =
      ap (λ l. rt ∷ l) (runtimes-loads_of settings (suc index) rts)

  unfoldable pub has_starting_load : List (Load F) → Bool
  has_starting_load [] = false
  has_starting_load (l ∷ ls) = is_starting_state l.runtime.current_state || has_starting_load ls

module _ {F : Type 0} ⦃fl : Float F⦄ where
  abbrev pub turn : Readings F → (load_sum : F) → (start_blocked : Bool) → Load F → Turn F
  turn e load_sum start_blocked l = record {
    readings = e;
    config = l.config;
    measured = l.measured;
    load_sum = load_sum;
    can_start = not start_blocked;
  }

  -- the loads after the turn of one of them
  unfoldable pub visit :
      Readings F
      → (load_sum : F) → (start_blocked : Bool) → (index : ℕ) → List (Load F)
      → List (Load F)
  visit e load_sum blocked i [] = []
  visit e load_sum blocked zero (l ∷ ls) =
      (record l { runtime = loop_load (turn e load_sum blocked l) l.runtime }) ∷ ls
  visit e load_sum blocked (suc i) (l ∷ ls) = l ∷ visit e load_sum blocked i ls

  -- whether that load takes the place for a start
  unfoldable pub takes_start :
      Readings F → (load_sum : F) → (start_blocked : Bool) → (index : ℕ) → List (Load F) → Bool
  takes_start e load_sum blocked i [] = false
  takes_start e load_sum blocked zero (l ∷ ls) =
      let t = turn e load_sum blocked l in
      is_started t l.runtime || is_waiting (loop_load t l.runtime).current_state
  takes_start e load_sum blocked (suc i) (l ∷ ls) = takes_start e load_sum blocked i ls

  abbrev pub load_sum_of : List (Load F) → F
  load_sum_of ls =
      get_measured_running_load_power_watts (fl.of_nat 0) (all_measured ls) (runtimes ls)

  unfoldable pub visit_all :
      Readings F → List Place → (start_blocked : Bool) → List (Load F) → List (Load F)
  visit_all e [] blocked ls = ls
  visit_all e (p ∷ ps) blocked ls =
      let load_sum = load_sum_of ls in
      visit_all e ps (takes_start e load_sum blocked p.index ls || blocked)
        (visit e load_sum blocked p.index ls)

  unfoldable pub loop : Readings F → List (Load F) → List (Load F)
  loop e ls = visit_all e (start_order 0 ls) (has_starting_load ls) ls

  -- The rounds one after another. All that a round reads is read anew in each.
  abbrev pub rounds : List (Round F) → List (Runtime F) → List (Runtime F)
  rounds [] rts = rts
  rounds (r ∷ rs) rts = rounds rs (runtimes (loop r.readings (loads_of r.settings 0 rts)))
