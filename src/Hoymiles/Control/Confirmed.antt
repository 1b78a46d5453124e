-- ===== src/Hoymiles/Control/Confirmed.antt =====
-- When a limit command counts as carried out: the queue and the command together.
use flux_dtu.Base.{
  ℕ, ◌+◌, ◌≡◌, refl, Bool, true, false, List, [], ◌∷◌, Option, some, arith, head?, if◌then◌else◌,
}
use flux_dtu.Float.{Float}
use flux_dtu.Hoymiles.Device.{cmd_ok, PowerLimitControlType}
use flux_dtu.Hoymiles.Command.{Command, are_same_parameter, get_queue_insert_type, remove_oldest}
use flux_dtu.Hoymiles.Queue.{count_if, count_similar_commands}
use flux_dtu.Hoymiles.Radio.{Radio, enque_command}
use flux_dtu.Hoymiles.Radio.Waiting.{waiting_of, front_is_there}
use flux_dtu.Hoymiles.Radio.Enque.{IsOrderly, enque_command-IsOrderly, enque_command_once}
use flux_dtu.Hoymiles.Control.{ControlParsers, apply_limit_from_command}

-- Is the radio sending a command that is similar to the given one?
abbrev pub sends_similar : (busy : Bool) → Command → Option Command → Bool
sends_similar true cmd (some c) = are_same_parameter cmd c
sends_similar _ cmd _ = false

count_if-split :
    (cmd : Command) (busy : Bool) (queue : List Command)
    → front_is_there busy queue ≡ true
    → count_if (are_same_parameter cmd) queue
      ≡ (if sends_similar busy cmd (head? queue) then 1 else 0)
        + count_if (are_same_parameter cmd) (waiting_of busy queue)
unfolding count_if
count_if-split cmd false queue h = ground arith
count_if-split cmd true [] h = ground arith
count_if-split cmd true (c ∷ cs) h = ground arith

sends_similar_same :
    (cmd : Command) (busy busy' : Bool) (front front' : Option Command)
    → busy' ≡ busy
    → (busy ≡ true → front' ≡ front)
    → sends_similar busy' cmd front' ≡ sends_similar busy cmd front
sends_similar_same cmd false busy' front front' e same = rw e refl
sends_similar_same cmd true busy' front front' e same = rw (e, same refl) refl

sends_similar_enque :
    (now : ℕ) (cmd : Command) (r : Radio)
    → IsOrderly r
    → let r' = enque_command now cmd r in
      sends_similar r'.busy_flag cmd (head? r'.command_queue)
      ≡ sends_similar r.busy_flag cmd (head? r.command_queue)
sends_similar_enque now cmd r h =
    let (orderly, busy, front) = enque_command-IsOrderly now cmd r h in
    sends_similar_same cmd r.busy_flag _ (head? r.command_queue) _ busy front

count_similar-enque_command :
    (now : ℕ) (cmd : Command) (r : Radio)
    → IsOrderly r
    → get_queue_insert_type cmd.kind ≡ remove_oldest
    → count_similar_commands cmd (enque_command now cmd r).command_queue
      ≡ (if sends_similar r.busy_flag cmd (head? r.command_queue) then 2 else 1)
unfolding count_similar_commands
count_similar-enque_command now cmd r h e =
    let r' = enque_command now cmd r in
    let orderly = (enque_command-IsOrderly now cmd r h).0 in
    ground (
      arith,
      count_if-split cmd r'.busy_flag r'.command_queue orderly.has_front,
      (enque_command_once now cmd r h).0 e,
      sends_similar_enque now cmd r h,
    )

module _ {F : Type 0} ⦃fl : Float F⦄ where
  -- A limit command that is done marks the limit as set only if no other one like it is in the
  -- queue: right after a new one has been put there, that is so exactly if the radio is not sending
  -- an older one. If it is, the older one leaves the state of the newer one, pending, as it is; in
  -- both cases the time of the change is noted.
  pub limit_command_confirmed :
      (now later max_power : ℕ) (cmd : Command) (r : Radio) (limit : F)
      (type : PowerLimitControlType) (s : ControlParsers)
      → IsOrderly r
      → get_queue_insert_type cmd.kind ≡ remove_oldest
      → let similar = count_similar_commands cmd (enque_command now cmd r).command_queue in
        let s' = apply_limit_from_command later similar max_power limit type s in
        (s'.last_limit_command_success ≡ (
          if sends_similar r.busy_flag cmd (head? r.command_queue)
          then s.last_limit_command_success
          else cmd_ok))
        × (s'.limit_last_update_command ≡ later)
  unfolding apply_limit_from_command
  limit_command_confirmed now later max_power cmd r limit type s h e =
      (ground (arith, count_similar-enque_command now cmd r h e), refl)
