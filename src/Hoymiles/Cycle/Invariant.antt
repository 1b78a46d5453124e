-- ===== src/Hoymiles/Cycle/Invariant.antt =====
-- Every operation on the radio, in any order: its queue stays orderly.
use flux_dtu.Base.{
  ℕ, zero, suc, ◌≡◌, refl, Bool, true, false, List, [], ◌∷◌, Option, none, some, arith, head?, tail,
}
use flux_dtu.Hoymiles.Command.{Command, get_max_resend_count}
use flux_dtu.Hoymiles.History.{mark_request_history_in_process}
use flux_dtu.Hoymiles.Inverter.{Handler, RadioInverter}
use flux_dtu.Hoymiles.Queue.Order.{is_ordered, is_ordered-remove_if}
use flux_dtu.Hoymiles.Radio.{
  Radio, send_esb_packet, send_retransmit_packet, finish_command, remove_commands, awaits_reply,
}
use flux_dtu.Hoymiles.Radio.Waiting.{waiting_of, is_for, remove_all_waiting}
use flux_dtu.Hoymiles.Radio.Enque.{IsOrderly}
use flux_dtu.Hoymiles.Cycle.{
  World, put_inverter, resend, after_verify, handle_timeout, complete_on_tx, after_start,
  start_command, handle_front, handle_received_package,
}

-- What `IsOrderly` says of a radio that has its command in front.
abbrev IsReady : Radio → Type 0
IsReady r = is_ordered (tail r.command_queue) ≡ true

send_esb_packet-IsOrderly :
    (now : ℕ) (cmd : Command) (r : Radio)
    → IsReady r
    → let r' = (send_esb_packet now cmd r).0 in
      IsReady r'
      × (r.busy_flag ≡ true → IsOrderly r')
      × (awaits_reply r'.type (send_esb_packet now cmd r).1.kind ≡ true → IsOrderly r')
unfolding send_esb_packet
send_esb_packet-IsOrderly now cmd r h = ground arith

send_retransmit_packet-IsOrderly :
    (now : ℕ) (cmd : Command) (r : Radio)
    → IsOrderly r
    → r.busy_flag ≡ true
    → IsOrderly (send_retransmit_packet now cmd r)
unfolding send_retransmit_packet
send_retransmit_packet-IsOrderly now cmd r h b = ground arith

finish_command-IsOrderly :
    (now : ℕ) (cmd : Command) (ok : Bool) (r : Radio)
    → IsReady r
    → IsOrderly (finish_command now cmd ok r)
unfolding finish_command
finish_command-IsOrderly now cmd ok r h = ground arith

resend-IsReady :
    (now : ℕ) (tx : ℕ → Bool) (n : ℕ) (cmd : Command) (r : Radio)
    → IsReady r
    → IsReady (resend now tx n cmd r).0
unfolding resend
resend-IsReady now tx zero cmd r h = h
resend-IsReady now tx (suc n) cmd r h =
    let (r', cmd') = send_esb_packet now cmd r in
    ground (arith, send_esb_packet-IsOrderly now cmd r h, resend-IsReady now tx n cmd' r')

ready_of_orderly :
    (busy : Bool) (queue : List Command)
    → is_ordered (waiting_of busy queue) ≡ true
    → is_ordered (tail queue) ≡ true
ready_of_orderly true queue h = h
ready_of_orderly false [] h = refl
ready_of_orderly false (c ∷ cs) h = ground arith

pub remove_commands-IsOrderly :
    (now serial : ℕ) (r : Radio) → IsOrderly r → IsOrderly (remove_commands now serial r)
unfolding remove_commands
remove_commands-IsOrderly now serial r h = ground (
  arith,
  h.has_front,
  remove_all_waiting serial r.busy_flag r.command_queue,
  is_ordered-remove_if (is_for serial) (waiting_of r.busy_flag r.command_queue),
)

module _ {I : Type 0} where
  after_verify-IsOrderly :
      (now answer : ℕ) (cmd : Command) (inv : RadioInverter I) (w : World I)
      → IsOrderly w.radio
      → w.radio.busy_flag ≡ true
      → IsOrderly (after_verify now answer cmd inv w).radio
  unfolding after_verify
  after_verify-IsOrderly now answer cmd inv w h b =
      let r = w.radio in
      let ready = ready_of_orderly r.busy_flag r.command_queue h.ordered in
      ground (
        arith,
        send_esb_packet-IsOrderly now cmd r ready,
        finish_command-IsOrderly now cmd true r ready,
        finish_command-IsOrderly now cmd false r ready,
        send_retransmit_packet-IsOrderly now cmd r h b,
      )

module _ {I : Type 0} (h : Handler I) where
  handle_timeout-IsOrderly :
      (now : ℕ) (cmd : Command) (inv : Option (RadioInverter I)) (w : World I)
      → IsOrderly w.radio
      → w.radio.busy_flag ≡ true
      → IsOrderly (handle_timeout h now cmd inv w).radio
  unfolding handle_timeout
  handle_timeout-IsOrderly now cmd none w o b =
      finish_command-IsOrderly now cmd false w.radio
        (ready_of_orderly w.radio.busy_flag w.radio.command_queue o.ordered)
  handle_timeout-IsOrderly now cmd (some inv) w o b = after_verify-IsOrderly now _ cmd _ w o b

  complete_on_tx-IsOrderly :
      (now : ℕ) (tx : ℕ → Bool) (cmd : Command) (inv : RadioInverter I) (w : World I)
      → IsReady w.radio
      → IsOrderly (complete_on_tx h now tx cmd inv w).radio
  unfolding complete_on_tx put_inverter
  complete_on_tx-IsOrderly now tx cmd inv w ready =
      let n = get_max_resend_count cmd.kind in
      finish_command-IsOrderly now _ _ _ (resend-IsReady now tx n cmd w.radio ready)

  after_start-IsOrderly :
      (now : ℕ) (tx : ℕ → Bool) (cmd : Command) (inv : RadioInverter I) (w : World I)
      → IsReady w.radio
      → (awaits_reply w.radio.type cmd.kind ≡ true → IsOrderly w.radio)
      → IsOrderly (after_start h now tx cmd inv w).radio
  unfolding after_start
  after_start-IsOrderly now tx cmd inv w ready o =
      ground (arith, complete_on_tx-IsOrderly now tx cmd inv w ready)

  start_command-IsOrderly :
      (now : ℕ) (tx : ℕ → Bool) (cmd : Command) (inv : Option (RadioInverter I)) (w : World I)
      → IsOrderly w.radio
      → IsOrderly (start_command h now tx cmd inv w).radio
  unfolding start_command put_inverter
  start_command-IsOrderly now tx cmd none w o =
      finish_command-IsOrderly now cmd false w.radio
        (ready_of_orderly w.radio.busy_flag w.radio.command_queue o.ordered)
  start_command-IsOrderly now tx cmd (some inv) w o =
      let (history, recorded) = mark_request_history_in_process now cmd w.radio.history in
      let marked = w.radio in
      let r = record marked { history = history } in
      let ready = ready_of_orderly r.busy_flag r.command_queue o.ordered in
      let sent = send_esb_packet-IsOrderly now recorded r ready in
      after_start-IsOrderly now tx _ _ _ sent.0 sent.2

  handle_front-IsOrderly :
      (now : ℕ) (tx : ℕ → Bool) (front : Option Command) (w : World I)
      → IsOrderly w.radio
      → IsOrderly (handle_front h now tx front w).radio
  unfolding handle_front
  handle_front-IsOrderly now tx none w o = o
  handle_front-IsOrderly now tx (some cmd) w o =
      let inv = w.inverters cmd.target_address in
      ground (
        arith,
        handle_timeout-IsOrderly now cmd inv w o,
        start_command-IsOrderly now tx cmd inv w o,
      )

  pub handle_received_package-IsOrderly :
      (now : ℕ) (tx : ℕ → Bool) (w : World I)
      → IsOrderly w.radio
      → IsOrderly (handle_received_package h now tx w).radio
  unfolding handle_received_package
  handle_received_package-IsOrderly now tx w o =
      handle_front-IsOrderly now tx (head? w.radio.command_queue) w o
