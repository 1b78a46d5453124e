-- ===== src/Hoymiles/Queue.antt =====
-- lib/Hoymiles/src/queue/CommandQueue.cpp over lib/ThreadSafeQueue: the queue of commands, oldest
-- first. With `preserve_front` the first command is being sent and stays as it is.
pub mod Order
use flux_dtu.Base.{
  ℕ, suc, ◌+◌, Bool, true, false, ◌&&◌, List, [], ◌∷◌, ◌++◌, Option, none, some, not, ◌==◌,
  if◌then◌else◌, length, u8,
}
use flux_dtu.Hoymiles.Command.{
  Command, QueueInsertType, remove_oldest, replace_existent, get_queue_insert_type,
  is_high_priority, are_same_parameter,
}

abbrev pub is_remove_oldest : QueueInsertType → Bool
is_remove_oldest remove_oldest = true
is_remove_oldest _ = false

abbrev pub is_replace_existent : QueueInsertType → Bool
is_replace_existent replace_existent = true
is_replace_existent _ = false

-- `std::remove_if`: what stays, and what is removed
unfoldable pub remove_if : (Command → Bool) → List Command → List Command × List Command
remove_if p [] = ([], [])
remove_if p (c ∷ cs) =
    let (kept, removed) = remove_if p cs in if p c then (kept, c ∷ removed) else (c ∷ kept, removed)

unfoldable pub count_if : (Command → Bool) → List Command → ℕ
count_if p [] = 0
count_if p (c ∷ cs) = (if p c then 1 else 0) + count_if p cs

unfoldable pub pop : List Command → List Command × Option Command
pop [] = ([], none)
pop (c ∷ cs) = (cs, some c)

unfoldable pub push : Command → List Command → List Command
push cmd queue = queue ++ (cmd ∷ [])

-- the commands that an operation may touch, with `f` on those
with_preserved_front {ℓ} :
    {B : Type ℓ} (preserve_front : Bool) (f : List Command → List Command × B)
    → List Command
    → List Command × B
with_preserved_front false f queue = f queue
with_preserved_front true f [] = f []
with_preserved_front true f (c ∷ cs) = let (cs', b) = f cs in (c ∷ cs', b)

front_is_for : (serial : ℕ) → List Command → Bool
front_is_for serial [] = false
front_is_for serial (c ∷ cs) = c.target_address == serial

-- The removed commands, and whether the first one was among them.
unfoldable pub remove_all_entries_for_inverter :
    (serial : ℕ) → List Command → List Command × List Command × Bool
unfolding front_is_for
remove_all_entries_for_inverter serial queue =
    let (kept, removed) = remove_if (λ c. c.target_address == serial) queue in
    (kept, removed, front_is_for serial queue)

unfoldable pub remove_duplicated_entries :
    Command → (preserve_front : Bool) → List Command → List Command × List Command
unfolding with_preserved_front
remove_duplicated_entries cmd preserve_front queue =
    with_preserved_front preserve_front
      (remove_if
        (λ c. are_same_parameter cmd c && is_remove_oldest (get_queue_insert_type cmd.kind)))
      queue

-- the loop of `replaceEntries`
replace_matching : Command → List Command → List Command × List Command
replace_matching cmd [] = ([], [])
replace_matching cmd (c ∷ cs) =
    let (rest, replaced) = replace_matching cmd cs in
    if is_replace_existent (get_queue_insert_type cmd.kind) && are_same_parameter cmd c
    then (cmd ∷ rest, c ∷ replaced)
    else (c ∷ rest, replaced)

unfoldable pub replace_entries :
    Command → (preserve_front : Bool) → List Command → List Command × List Command
unfolding with_preserved_front replace_matching
replace_entries cmd preserve_front queue =
    with_preserved_front preserve_front (replace_matching cmd) queue

-- before the first command that is not of high priority
unfoldable pub insert_by_priority : Command → List Command → List Command
insert_by_priority cmd [] = cmd ∷ []
insert_by_priority cmd (c ∷ cs) =
    let rest = insert_by_priority cmd cs in
    if is_high_priority c.kind then c ∷ rest else cmd ∷ c ∷ cs

unfoldable pub push_priority : Command → (preserve_front : Bool) → List Command → List Command
push_priority cmd false queue = insert_by_priority cmd queue
push_priority cmd true [] = insert_by_priority cmd []
push_priority cmd true (c ∷ cs) = c ∷ insert_by_priority cmd cs

unfoldable pub count_commands_for_target : (target_address : ℕ) → List Command → ℕ
count_commands_for_target target queue = count_if (λ c. c.target_address == target) queue

unfoldable pub count_similar_commands : Command → List Command → ℕ
count_similar_commands cmd queue = u8 (count_if (are_same_parameter cmd) queue)
