-- ===== src/Hoymiles/Cycle/Steps.antt =====
-- What can happen to the radio and its inverters, in any order.
use flux_dtu.Base.{
  ℕ, ◌≡◌, refl, Bool, true, false, List, Option, none, some, arith, head?, if◌then◌else◌, ◌==◌, inl,
  inr, Bool-cases,
}
use flux_dtu.Timeout.{occured}
use flux_dtu.Hoymiles.Command.{Command, get_max_resend_count, get_max_retransmit_count}
use flux_dtu.Hoymiles.Fragments.{RxFragments, add_rx_fragment, verify_received, ask_again}
use flux_dtu.Hoymiles.Fragments.Complete.{
  IsCollected, clear_rx_fragment_buffer-IsCollected, add_rx_fragment-IsCollected,
}
use flux_dtu.Hoymiles.Inverter.{Handler, RadioInverter, verify_all_fragments, handle_reply}
use flux_dtu.Hoymiles.Radio.{
  Radio, enque_command, remove_commands, send_esb_packet, finish_command, send_retransmit_packet,
  awaits_reply,
}
use flux_dtu.Hoymiles.Fragments.{fragment_all_missing_resend}
use flux_dtu.Hoymiles.Cycle.{count_end, count_re_request, is_end}
use flux_dtu.Timeout.{occured}
use flux_dtu.Hoymiles.Radio.Enque.{IsOrderly, enque_command-IsOrderly}
use flux_dtu.Hoymiles.Cycle.{
  World, put_inverter, after_verify, handle_timeout, complete_on_tx, after_start, start_command,
  handle_front, handle_received_package,
}
use flux_dtu.Hoymiles.Cycle.Invariant.{handle_received_package-IsOrderly, remove_commands-IsOrderly}

module _ {I : Type 0} (h : Handler I) where
  pub data Step : World I → World I → Type 0 where
    cycles : (now : ℕ) (tx : ℕ → Bool) (w : World I) → Step w (handle_received_package h now tx w)
    enques :
        (now : ℕ) (cmd : Command) (w : World I)
        → Step w (record w { radio = enque_command now cmd w.radio })
    removes :
        (now serial : ℕ) (w : World I)
        → Step w (record w { radio = remove_commands now serial w.radio })
    hears :
        (fragment : List ℕ) (len rssi serial : ℕ) (inv : RadioInverter I) (w : World I)
        → w.inverters serial ≡ some inv
        → Step w
            (put_inverter serial (record inv { rx = add_rx_fragment fragment len rssi inv.rx }) w)

verify_received-IsCollected :
    (n m k : ℕ) (r : RxFragments) → IsCollected r → IsCollected (verify_received n m k r).0
unfolding verify_received ask_again
verify_received-IsCollected n m k r c = record {
  max_le_last = ground (arith, c.max_le_last);
  last_lt = ground (arith, c.last_lt);
  max_received = ground (arith, c.max_received);
  beyond = λ i p. ground (arith, c.beyond i);
}

module _ {I : Type 0} where
  pub record AllCollected (w : World I) : Type 0 where
    pub at :
        (serial : ℕ) (inv : RadioInverter I) → w.inverters serial ≡ some inv → IsCollected inv.rx

  -- The queue is orderly, and the fragments of every inverter are properly collected.
  pub record IsSound (w : World I) : Type 0 where
    pub orderly : IsOrderly w.radio
    pub collected : AllCollected w

  put_inverter_cases :
      (serial : ℕ) (inv : RadioInverter I) (w : World I)
      → AllCollected w
      → IsCollected inv.rx
      → (s : ℕ) (inv' : RadioInverter I) → (put_inverter serial inv w).inverters s ≡ some inv'
      → IsCollected inv'.rx
  unfolding put_inverter
  put_inverter_cases serial inv w c k s inv' e = elim (Bool-cases (s == serial)) [
    | inl y ↦ let e' : inv ≡ inv' = ground arith in rw (← e') k
    | inr n ↦ c.at s inv' (ground arith)
  ]

  put_inverter-AllCollected :
      (serial : ℕ) (inv : RadioInverter I) (r : Radio) (w : World I)
      → AllCollected w
      → IsCollected inv.rx
      → AllCollected (record (put_inverter serial inv w) { radio = r })
  put_inverter-AllCollected serial inv r w c k = record { at = put_inverter_cases serial inv w c k }

  either-AllCollected :
      (b : Bool) {v w : World I}
      → AllCollected v
      → AllCollected w
      → AllCollected (if b then v else w)
  either-AllCollected true c d = c
  either-AllCollected false c d = d

  after_verify-AllCollected :
      (now answer : ℕ) (cmd : Command) (inv : RadioInverter I) (w : World I)
      → AllCollected w
      → IsCollected inv.rx
      → AllCollected (after_verify now answer cmd inv w)
  unfolding after_verify
  after_verify-AllCollected now answer cmd inv w c k =
      let serial = cmd.target_address in
      let ended = record inv { radio_stats = count_end answer inv.radio_stats } in
      let asked = record inv { radio_stats = count_re_request inv.radio_stats } in
      either-AllCollected (answer == fragment_all_missing_resend)
        (put_inverter-AllCollected serial inv (send_esb_packet now cmd w.radio).0 w c k)
        (either-AllCollected (is_end answer)
          (put_inverter-AllCollected serial ended (finish_command now cmd (answer == 0) w.radio) w c
            k)
          (put_inverter-AllCollected serial asked (send_retransmit_packet now cmd w.radio) w c k))

module _ {I : Type 0} (h : Handler I) where
  pub verify_all_fragments-rx :
      (now similar : ℕ) (cmd : Command) (inv : RadioInverter I)
      → (verify_all_fragments h now similar cmd inv).0.rx
        ≡ (verify_received cmd.send_count
            (get_max_resend_count cmd.kind)
            get_max_retransmit_count
            inv.rx).0
  unfolding verify_all_fragments handle_reply
  verify_all_fragments-rx now similar cmd inv = ground arith

  pub verify_all_fragments-IsCollected :
      (now similar : ℕ) (cmd : Command) (inv : RadioInverter I)
      → IsCollected inv.rx
      → IsCollected (verify_all_fragments h now similar cmd inv).0.rx
  verify_all_fragments-IsCollected now similar cmd inv k =
      rw (verify_all_fragments-rx now similar cmd inv) (
        verify_received-IsCollected cmd.send_count (get_max_resend_count cmd.kind)
          get_max_retransmit_count inv.rx k)

  handle_timeout-AllCollected :
      (now : ℕ) (cmd : Command) (found : Option (RadioInverter I)) (w : World I)
      → AllCollected w
      → w.inverters cmd.target_address ≡ found
      → AllCollected (handle_timeout h now cmd found w)
  unfolding handle_timeout
  handle_timeout-AllCollected now cmd none w c e = record { at = c.at }
  handle_timeout-AllCollected now cmd (some inv) w c e =
      after_verify-AllCollected now _ cmd _ w c
        (verify_all_fragments-IsCollected now _ cmd inv (c.at cmd.target_address inv e))

  after_start-AllCollected :
      (now : ℕ) (tx : ℕ → Bool) (cmd : Command) (inv : RadioInverter I) (w : World I)
      → AllCollected w
      → IsCollected inv.rx
      → AllCollected (after_start h now tx cmd inv w)
  unfolding after_start complete_on_tx
  after_start-AllCollected now tx cmd inv w c k =
      either-AllCollected (awaits_reply w.radio.type cmd.kind) c
        (put_inverter-AllCollected _ _ _ w c k)

  start_command-AllCollected :
      (now : ℕ) (tx : ℕ → Bool) (cmd : Command) (found : Option (RadioInverter I)) (w : World I)
      → AllCollected w
      → AllCollected (start_command h now tx cmd found w)
  unfolding start_command
  start_command-AllCollected now tx cmd none w c = record { at = c.at }
  start_command-AllCollected now tx cmd (some inv) w c =
      let k = clear_rx_fragment_buffer-IsCollected inv.rx in
      after_start-AllCollected now tx _ _ _ (put_inverter-AllCollected _ _ _ w c k) k

  handle_front-AllCollected :
      (now : ℕ) (tx : ℕ → Bool) (front : Option Command) (w : World I)
      → AllCollected w
      → AllCollected (handle_front h now tx front w)
  unfolding handle_front
  handle_front-AllCollected now tx none w c = c
  handle_front-AllCollected now tx (some cmd) w c =
      either-AllCollected w.radio.busy_flag
        (either-AllCollected (occured now w.radio.rx_timeout)
          (handle_timeout-AllCollected now cmd _ w c refl) c)
        (start_command-AllCollected now tx cmd _ w c)

  -- Whatever happens, in any order: the queue stays orderly, with the command that is being sent in
  -- front while the radio is busy, and no command of high priority behind another one that waits;
  -- and the fragments of every inverter stay properly collected, as `IsCollected` says.
  pub Step-IsSound : {v w : World I} → Step h v w → IsSound v → IsSound w
  unfolding handle_received_package put_inverter
  Step-IsSound (cycles now tx w) s = record {
    orderly = handle_received_package-IsOrderly h now tx w s.orderly;
    collected = handle_front-AllCollected now tx (head? w.radio.command_queue) w s.collected;
  }
  Step-IsSound (enques now cmd w) s = record {
    orderly = (enque_command-IsOrderly now cmd w.radio s.orderly).0;
    collected = record { at = s.collected.at };
  }
  Step-IsSound (removes now serial w) s = record {
    orderly = remove_commands-IsOrderly now serial w.radio s.orderly;
    collected = record { at = s.collected.at };
  }
  Step-IsSound (hears fragment len rssi serial inv w e) s = record {
    orderly = s.orderly;
    collected =
        put_inverter-AllCollected serial _ _ w s.collected
          (add_rx_fragment-IsCollected fragment len rssi inv.rx (s.collected.at serial inv e));
  }
