-- ===== src/Limiter/Share.antt =====
-- src/PowerLimiter.cpp: a change of power is spread over several inverters.
pub mod Greedy
pub mod Rotation
use flux_dtu.Base.{
  ℕ, zero, suc, ◌+◌, ◌-◌, ◌/◌, ◌%◌, Bool, true, false, ◌&&◌, ◌||◌, not, List, [], ◌∷◌, ◌++◌, min,
  ltb, leb, ◌==◌, if◌then◌else◌, u16, u32, add32, sub32, length, take, drop,
}
use flux_dtu.Dpl.Clock.{millis_at_or_after}

-- `DistributedChange`, without the weight and the scores, which `prioritizeDistributedChanges` uses.
pub record DistributedChange (I : Type 0) : Type 0 where
  pub inverter : I
  pub capacity : ℕ  -- uint16
  pub amount : ℕ  -- uint16

abbrev pub distributed_change_repeat_lockout_millis : ℕ
distributed_change_repeat_lockout_millis = 2000

-- The inverter that was adjusted last is named for two seconds; a serial number of 0 is none.
unfoldable pub repeat_locked_last_adjusted_serial : (serial adjusted_millis now : ℕ) → ℕ
repeat_locked_last_adjusted_serial serial adjusted_millis now =
    if serial == 0 || adjusted_millis == 0
    then 0
    else if millis_at_or_after now (add32 adjusted_millis distributed_change_repeat_lockout_millis)
    then 0
    else serial

-- `std::rotate`
abbrev pub rotate {ℓ} : {A : Type ℓ} → (offset : ℕ) → List A → List A
rotate offset xs = drop offset xs ++ take offset xs

module _ {I : Type 0} where
  -- the changes, and the cursor for the next call
  unfoldable pub rotate_distributed_changes :
      List (DistributedChange I) → (cursor : ℕ) → List (DistributedChange I)
  rotate_distributed_changes changes cursor =
      if ltb (length changes) 2 then changes else rotate (cursor % length changes) changes

  unfoldable pub next_cursor : List (DistributedChange I) → (cursor : ℕ) → ℕ
  next_cursor changes cursor = if ltb (length changes) 2 then cursor else add32 cursor 1

  unfoldable pub total_capacity : (total : ℕ) → List (DistributedChange I) → ℕ
  total_capacity total [] = total
  total_capacity total (c ∷ cs) = total_capacity (add32 total c.capacity) cs

  -- what one change takes of what remains
  unfoldable pub share : (remaining : ℕ) → DistributedChange I → ℕ
  share remaining c = if leb c.capacity c.amount then 0 else min (c.capacity - c.amount) remaining

  unfoldable pub share_out :
      (remaining : ℕ) → List (DistributedChange I) → List (DistributedChange I)
  share_out remaining [] = []
  share_out remaining (c ∷ cs) =
      if remaining == 0
      then c ∷ cs
      else (record c { amount = u16 (c.amount + share remaining c) })
        ∷ share_out (remaining - share remaining c) cs

  unfoldable pub rest_of : (remaining : ℕ) → List (DistributedChange I) → ℕ
  rest_of remaining [] = remaining
  rest_of remaining (c ∷ cs) =
      if remaining == 0 then remaining else rest_of (remaining - share remaining c) cs

  unfoldable pub allocation : (requested : ℕ) → List (DistributedChange I) → ℕ
  allocation requested changes = min requested (total_capacity 0 changes)

  -- `distributeGreedyByPriority`: the changes it leaves, and the watts that it returns
  unfoldable pub distribute_greedy_by_priority :
      (requested : ℕ) → List (DistributedChange I) → List (DistributedChange I)
  distribute_greedy_by_priority requested changes = share_out (allocation requested changes) changes

  unfoldable pub distributed_by_priority : (requested : ℕ) → List (DistributedChange I) → ℕ
  distributed_by_priority requested changes =
      allocation requested changes - rest_of (allocation requested changes) changes
