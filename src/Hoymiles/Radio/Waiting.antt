-- ===== src/Hoymiles/Radio/Waiting.antt =====
-- The part of the queue that waits, behind the command that is being sent.
use flux_dtu.Base.{
  ℕ, ◌≡◌, Bool, true, false, ◌&&◌, List, [], ◌∷◌, arith, has_value, head?, tail, if◌then◌else◌,
  ◌==◌,
}
use flux_dtu.Hoymiles.Command.{Command, get_queue_insert_type, are_same_parameter}
use flux_dtu.Hoymiles.Queue.{
  remove_if, push, insert_by_priority, push_priority, remove_duplicated_entries, is_remove_oldest,
  remove_all_entries_for_inverter,
}

abbrev pub waiting_of : (busy : Bool) → List Command → List Command
waiting_of true queue = tail queue
waiting_of false queue = queue

-- A command that is being sent is in the queue.
abbrev pub front_is_there : (busy : Bool) → List Command → Bool
front_is_there true queue = has_value (head? queue)
front_is_there false queue = true

-- the commands that a new one displaces
abbrev pub is_displaced : Command → Command → Bool
is_displaced cmd c = are_same_parameter cmd c && is_remove_oldest (get_queue_insert_type cmd.kind)

pub push_priority_waiting :
    (cmd : Command) (busy : Bool) (queue : List Command)
    → front_is_there busy queue ≡ true
    → (waiting_of busy (push_priority cmd busy queue)
        ≡ insert_by_priority cmd (waiting_of busy queue))
      × (busy ≡ true → head? (push_priority cmd busy queue) ≡ head? queue)
unfolding push_priority
push_priority_waiting cmd false queue h = ground arith
push_priority_waiting cmd true [] h = ground arith
push_priority_waiting cmd true (c ∷ cs) h = ground arith

pub push_waiting :
    (cmd : Command) (busy : Bool) (queue : List Command)
    → front_is_there busy queue ≡ true
    → (waiting_of busy (push cmd queue) ≡ push cmd (waiting_of busy queue))
      × (busy ≡ true → head? (push cmd queue) ≡ head? queue)
unfolding push
push_waiting cmd false queue h = ground arith
push_waiting cmd true [] h = ground arith
push_waiting cmd true (c ∷ cs) h = ground arith

pub remove_duplicated_waiting :
    (cmd : Command) (busy : Bool) (queue : List Command)
    → front_is_there busy queue ≡ true
    → let queue' = (remove_duplicated_entries cmd busy queue).0 in
      (waiting_of busy queue' ≡ (remove_if (is_displaced cmd) (waiting_of busy queue)).0)
      × (busy ≡ true → head? queue' ≡ head? queue)
      × (front_is_there busy queue' ≡ true)
unfolding remove_duplicated_entries
remove_duplicated_waiting cmd false queue h = ground arith
remove_duplicated_waiting cmd true [] h = ground arith
remove_duplicated_waiting cmd true (c ∷ cs) h = ground arith

abbrev pub is_for : (serial : ℕ) → Command → Bool
is_for serial c = c.target_address == serial

pub remove_all_waiting :
    (serial : ℕ) (busy : Bool) (queue : List Command)
    → front_is_there busy queue ≡ true
    → let (queue', removed, removed_front) = remove_all_entries_for_inverter serial queue in
      let busy' = if removed_front then false else busy in
      (waiting_of busy' queue' ≡ (remove_if (is_for serial) (waiting_of busy queue)).0)
      × (front_is_there busy' queue' ≡ true)
unfolding remove_all_entries_for_inverter remove_if
remove_all_waiting serial false [] h = ground arith
remove_all_waiting serial false (c ∷ cs) h = ground arith
remove_all_waiting serial true [] h = ground arith
remove_all_waiting serial true (c ∷ cs) h = ground arith
