-- ===== src/Hoymiles/Cycle.antt =====
-- lib/Hoymiles/src/HoymilesRadio.cpp: `handleReceivedPackage`, one round of the radio with the
-- inverters. The time does not advance during a call.
pub mod Invariant
pub mod Steps
pub mod Periods
pub mod Served
pub mod Resend
use flux_dtu.Base.{
  ℕ, zero, suc, ◌+◌, ◌-◌, Bool, true, false, ◌&&◌, ◌||◌, not, List, [], ◌∷◌, Option, none, some,
  ltb, leb, ◌==◌, if◌then◌else◌, u32, head?, tail,
}
use flux_dtu.Timeout.{occured}
use flux_dtu.Hoymiles.Command.{Command, CommandKind, get_max_resend_count}
use flux_dtu.Hoymiles.Fragments.{
  clear_rx_fragment_buffer, add_rx_fragment, fragment_all_missing_resend,
  fragment_all_missing_timeout, fragment_retransmit_timeout, fragment_handle_error,
}
use flux_dtu.Hoymiles.Inverter.{Handler, RadioInverter, RadioStats, verify_all_fragments}
use flux_dtu.Hoymiles.Queue.{count_similar_commands}
use flux_dtu.Hoymiles.History.{mark_request_history_in_process, mark_request_history_finished}
use flux_dtu.Hoymiles.Radio.{
  Radio, send_esb_packet, send_retransmit_packet, finish_command, awaits_reply,
}

-- The radio, and the inverters by their serial numbers (`Hoymiles.getInverterBySerial`).
pub record World (I : Type 0) : Type 0 where
  pub radio : Radio
  pub inverters : ℕ → Option (RadioInverter I)

-- the counter of the way in which a request ended
unfoldable pub count_end : (answer : ℕ) → RadioStats → RadioStats
count_end answer stats =
    if not (ltb 0 stats.tx_request_data)
    then stats
    else if answer == fragment_all_missing_timeout
    then record stats { rx_fail_no_answer = u32 (stats.rx_fail_no_answer + 1) }
    else if answer == fragment_retransmit_timeout
    then record stats { rx_fail_partial_answer = u32 (stats.rx_fail_partial_answer + 1) }
    else if answer == fragment_handle_error
    then record stats { rx_fail_corrupt_data = u32 (stats.rx_fail_corrupt_data + 1) }
    else record stats { rx_success = u32 (stats.rx_success + 1) }

unfoldable pub count_re_request : RadioStats → RadioStats
count_re_request stats = record stats {
  tx_re_request_fragment = u32 (stats.tx_re_request_fragment + 1);
}

unfoldable pub count_request : RadioStats → RadioStats
count_request stats = record stats { tx_request_data = u32 (stats.tx_request_data + 1) }

-- The three failures, and success, end the command.
unfoldable pub is_end : (answer : ℕ) → Bool
is_end answer =
    answer == fragment_all_missing_timeout
    || answer == fragment_retransmit_timeout
    || answer == fragment_handle_error
    || answer == 0

-- the loop that sends again until the packet is acknowledged; `n` rounds are left
unfoldable pub resend : (now : ℕ) → (tx : ℕ → Bool) → (n : ℕ) → Command → Radio → Radio × Command
resend now tx zero cmd r = (r, cmd)
resend now tx (suc n) cmd r =
    let (r', cmd') = send_esb_packet now cmd r in
    let again = resend now tx n cmd' r' in
    if not (tx cmd.send_count) && leb cmd.send_count (get_max_resend_count cmd.kind)
    then again
    else (r, cmd)

module _ {I : Type 0} where
  unfoldable pub put_inverter : (serial : ℕ) → RadioInverter I → World I → World I
  put_inverter serial inv w = record w {
    inverters = λ s. if s == serial then some inv else w.inverters s;
  }

  -- what follows the answer of `verifyAllFragments`
  unfoldable pub after_verify : (now answer : ℕ) → Command → RadioInverter I → World I → World I
  after_verify now answer cmd inv w =
      let serial = cmd.target_address in
      let ended = record inv { radio_stats = count_end answer inv.radio_stats } in
      let asked = record inv { radio_stats = count_re_request inv.radio_stats } in
      if answer == fragment_all_missing_resend
      then (record (put_inverter serial inv w) { radio = (send_esb_packet now cmd w.radio).0 })
      else if is_end answer
      then (record (put_inverter serial ended w) {
        radio = finish_command now cmd (answer == 0) w.radio;
      })
      else (record (put_inverter serial asked w) { radio = send_retransmit_packet now cmd w.radio })

module _ {I : Type 0} (h : Handler I) where
  -- `_rxTimeout` is over
  unfoldable pub handle_timeout : (now : ℕ) → Command → Option (RadioInverter I) → World I → World I
  handle_timeout now cmd none w = record w { radio = finish_command now cmd false w.radio }
  handle_timeout now cmd (some inv) w =
      let similar = count_similar_commands cmd w.radio.command_queue in
      let (inv', answer) = verify_all_fragments h now similar cmd inv in
      after_verify now answer cmd inv' w

  -- what follows the first transmission: a packet that needs no reply ends its command
  unfoldable pub complete_on_tx :
      (now : ℕ) → (tx : ℕ → Bool) → Command → RadioInverter I → World I → World I
  complete_on_tx now tx cmd inv w =
      let (r, cmd') = resend now tx (get_max_resend_count cmd.kind) cmd w.radio in
      let ok = tx cmd'.send_count in
      let similar = count_similar_commands cmd' r.command_queue in
      let inv' = record inv { parsers = h.handle_tx_result now similar cmd' ok inv.parsers } in
      let w' = put_inverter cmd.target_address inv' w in
      record w' { radio = finish_command now cmd' ok r }

  unfoldable pub after_start :
      (now : ℕ) → (tx : ℕ → Bool) → Command → RadioInverter I → World I → World I
  after_start now tx cmd inv w =
      if awaits_reply w.radio.type cmd.kind then w else complete_on_tx now tx cmd inv w

  unfoldable pub start_command :
      (now : ℕ) → (tx : ℕ → Bool) → Command → Option (RadioInverter I) → World I → World I
  start_command now tx cmd none w = record w { radio = finish_command now cmd false w.radio }
  start_command now tx cmd (some inv) w =
      let inv' = record inv {
        rx = clear_rx_fragment_buffer inv.rx;
        radio_stats = count_request inv.radio_stats;
      } in
      let (history, recorded) = mark_request_history_in_process now cmd w.radio.history in
      let marked = w.radio in
      let (r, sent) = send_esb_packet now recorded (record marked { history = history }) in
      let w' = put_inverter cmd.target_address inv' w in
      let w'' = record w' { radio = r } in after_start now tx sent inv' w''

  unfoldable pub handle_front : (now : ℕ) → (tx : ℕ → Bool) → Option Command → World I → World I
  handle_front now tx none w = w
  handle_front now tx (some cmd) w =
      let inv = w.inverters cmd.target_address in
      if w.radio.busy_flag
      then if occured now w.radio.rx_timeout then handle_timeout now cmd inv w else w
      else start_command now tx cmd inv w

  -- A busy radio has a command in its queue: `front` is not called on an empty one.
  unfoldable pub handle_received_package : (now : ℕ) → (tx : ℕ → Bool) → World I → World I
  handle_received_package now tx w = handle_front now tx (head? w.radio.command_queue) w
