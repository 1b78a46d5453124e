-- ===== src/Hoymiles/Radio.antt =====
-- lib/Hoymiles/src/HoymilesRadio.cpp: the radio, which sends the commands of its queue one after
-- another. `sendEsbPacket` of HoymilesRadio_NRF.cpp and HoymilesRadio_CMT.cpp is modelled without
-- the hardware: `tx n` is the answer of the chip when a command is sent for the `n`-th time.
pub mod Waiting
pub mod Enque
use flux_dtu.Base.{
  ℕ, zero, suc, ◌+◌, Bool, true, false, ◌&&◌, not, List, [], ◌∷◌, Option, none, some, ltb, leb,
  ◌==◌, if◌then◌else◌, u8, u32, tail,
}
use flux_dtu.Timeout.{TimeoutHelper, occured}
use flux_dtu.Timeout
use flux_dtu.Hoymiles.Command.{
  Command, CommandKind, remove_oldest, replace_existent, remove_newest, allow_multiple,
  QueueInsertType, get_queue_insert_type, is_high_priority, is_complete_on_tx_success,
  get_max_resend_count, has_request_frame_command,
}
use flux_dtu.Hoymiles.Fragments.{
  clear_rx_fragment_buffer, fragment_all_missing_resend, fragment_all_missing_timeout,
  fragment_retransmit_timeout, fragment_handle_error, fragment_ok,
}
use flux_dtu.Hoymiles.Inverter.{Handler, RadioInverter, RadioStats, verify_all_fragments}
use flux_dtu.Hoymiles.Queue.{
  remove_all_entries_for_inverter, remove_duplicated_entries, replace_entries, push_priority, push,
  count_similar_commands,
}
use flux_dtu.Hoymiles.History.{
  RequestHistory, record_queued_request_history, mark_request_history_in_process,
  mark_request_history_finished, mark_request_history_removed,
}

pub data RadioType : Type 0 where
  nrf cmt : RadioType

abbrev pub is_nrf : RadioType → Bool
is_nrf nrf = true
is_nrf cmt = false

pub record Radio : Type 0 where
  pub type : RadioType
  pub dtu_serial : ℕ  -- uint64
  pub command_queue : List Command
  pub busy_flag : Bool
  pub rx_timeout : TimeoutHelper
  pub history : RequestHistory

-- The NRF chip answers whether a packet was acknowledged; only there a sent packet can complete its
-- command.
abbrev pub tx_success_completes_command : RadioType → Bool
tx_success_completes_command type = is_nrf type

-- Does the radio wait for a reply to the command?
unfoldable pub awaits_reply : RadioType → CommandKind → Bool
awaits_reply type kind = not (is_nrf type && is_complete_on_tx_success kind)

-- The first command of the queue is sent: it counts the attempt.
unfoldable pub send_esb_packet : (now : ℕ) → Command → Radio → Radio × Command
send_esb_packet now cmd r =
    let cmd' = record cmd { send_count = u8 (cmd.send_count + 1); router_address = r.dtu_serial } in
    let r' = record r { command_queue = cmd' ∷ tail r.command_queue } in
    let waiting = record r' {
      busy_flag = true;
      rx_timeout = Timeout.set cmd.timeout now r.rx_timeout;
    } in
    (if awaits_reply r.type cmd.kind then waiting else r', cmd')

-- the timeout that `SingleDataCommand` sets
abbrev pub request_frame_timeout : ℕ
request_frame_timeout = 100

-- A `RequestFrameCommand` is sent in place of the command, if it has one.
unfoldable pub send_retransmit_packet : (now : ℕ) → Command → Radio → Radio
send_retransmit_packet now cmd r =
    if has_request_frame_command cmd.kind
    then record r {
      busy_flag = true;
      rx_timeout = Timeout.set request_frame_timeout now r.rx_timeout;
    }
    else r

-- what precedes and contains each `pop` of a command that was sent
unfoldable pub finish_command : (now : ℕ) → Command → (ok : Bool) → Radio → Radio
finish_command now cmd ok r = record r {
  command_queue = tail r.command_queue;
  busy_flag = false;
  history = mark_request_history_finished now cmd ok r.history;
}

-- `enqueCommand` from the push on
unfoldable pub insert_command : (now : ℕ) → Command → Radio → Radio
insert_command now cmd r =
    let (history, cmd') = record_queued_request_history now false cmd r.history in
    record r {
      command_queue =
          if is_high_priority cmd.kind
          then push_priority cmd' r.busy_flag r.command_queue
          else push cmd' r.command_queue;
      history = history;
    }

unfoldable pub replace_command : (now : ℕ) → Command → Radio → Radio
replace_command now cmd r =
    let replaced = (replace_entries cmd r.busy_flag r.command_queue).1 in
    let removed = mark_request_history_removed now replaced r.history in
    let (history, cmd') = record_queued_request_history now false cmd removed in
    record r {
      command_queue = (replace_entries cmd' r.busy_flag r.command_queue).0;
      history = history;
    }

unfoldable pub remove_duplicates : (now : ℕ) → Command → Radio → Radio
remove_duplicates now cmd r =
    let (queue, removed) = remove_duplicated_entries cmd r.busy_flag r.command_queue in
    record r { command_queue = queue; history = mark_request_history_removed now removed r.history }

unfoldable pub enque_by_type : QueueInsertType → (now : ℕ) → Command → Radio → Radio
enque_by_type remove_oldest now cmd r = insert_command now cmd (remove_duplicates now cmd r)
enque_by_type replace_existent now cmd r =
    if ltb 0 (count_similar_commands cmd r.command_queue)
    then replace_command now cmd r
    else insert_command now cmd r
enque_by_type remove_newest now cmd r =
    if ltb 0 (count_similar_commands cmd r.command_queue) then r else insert_command now cmd r
enque_by_type allow_multiple now cmd r = insert_command now cmd r

unfoldable pub enque_command : (now : ℕ) → Command → Radio → Radio
enque_command now cmd r = enque_by_type (get_queue_insert_type cmd.kind) now cmd r

unfoldable pub remove_commands : (now serial : ℕ) → Radio → Radio
remove_commands now serial r =
    let (queue, removed, removed_front) = remove_all_entries_for_inverter serial r.command_queue in
    record r {
      command_queue = queue;
      busy_flag = if removed_front then false else r.busy_flag;
      history = mark_request_history_removed now removed r.history;
    }
