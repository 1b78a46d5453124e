-- ===== src/Hoymiles/Cycle/Periods.antt =====
-- How long one command keeps the radio busy: fragments arrive and the radio's loop runs, in any
-- order, until its command is done.
use flux_dtu.Base.{
  ℕ, ◌+◌, ◌-◌, ◌≤◌, ◌<◌, ◌≡◌, ◌≢◌, inl, inr, Bool-cases, true, false, some, arith, has_value, head?,
  tail, ◌==◌, value_or,
}
use flux_dtu.Hoymiles.Command.{
  Command, CommandKind, get_max_resend_count, get_max_retransmit_count, active_power_control,
  power_control, real_time_run_data, system_config_para, alarm_data, dev_info_all, dev_info_simple,
  grid_on_pro_file_para, channel_change, request_frame,
}
use flux_dtu.Hoymiles.Fragments.{
  RxFragments, verify_received, ask_again, fragment_all_missing_resend,
}
use flux_dtu.Hoymiles.Fragments.Complete.{IsCollected, first_missing_lem}
use flux_dtu.Hoymiles.Inverter.{Handler, RadioInverter, verify_all_fragments, handle_reply}
use flux_dtu.Hoymiles.Radio.{send_esb_packet, send_retransmit_packet, finish_command}
use flux_dtu.Hoymiles.Cycle.{World, put_inverter, count_re_request, after_verify, is_end}

-- what is left to a command: how often it may be sent again, and a fragment asked for
-- what is left to a command: how often it may be sent again, and a fragment asked for
abbrev pub budget_of : (max_resend send_count retransmit_cnt : ℕ) → ℕ
budget_of max_resend send_count retransmit_cnt =
    (max_resend + 1 - send_count) + (get_max_retransmit_count + 1 - retransmit_cnt)

pub max_resend_bound : (kind : CommandKind) → get_max_resend_count kind ≤ 20
unfolding get_max_resend_count
max_resend_bound (active_power_control device type) = omega arith
max_resend_bound (power_control action true) = omega arith
max_resend_bound (power_control action false) = omega arith
max_resend_bound real_time_run_data = omega arith
max_resend_bound system_config_para = omega arith
max_resend_bound alarm_data = omega arith
max_resend_bound dev_info_all = omega arith
max_resend_bound dev_info_simple = omega arith
max_resend_bound grid_on_pro_file_para = omega arith
max_resend_bound channel_change = omega arith
max_resend_bound request_frame = omega arith

-- A command is sent again, or a fragment asked for, only while its budget lasts.
verify_received_budget :
    (send_count max_resend : ℕ) (r : RxFragments)
    → IsCollected r
    → r.retransmit_cnt ≤ 5
    → let (r', missing) = verify_received send_count max_resend get_max_retransmit_count r in
      let answer = value_or missing 0 in
      (answer ≡ fragment_all_missing_resend
        → (send_count ≤ max_resend) × (r'.retransmit_cnt ≡ r.retransmit_cnt))
      × (has_value missing ≡ true
          → is_end answer ≡ false
          → answer ≢ fragment_all_missing_resend
          → (r'.retransmit_cnt ≤ 5) × (r'.retransmit_cnt ≡ r.retransmit_cnt + 1))
unfolding verify_received ask_again is_end
verify_received_budget send_count max_resend r c p =
    ground (arith, first_missing_lem r.buffer (r.max_packet_id - 1) 0 0)

module _ {I : Type 0} (h : Handler I) where
  pub verify_all_fragments_budget :
      (now similar : ℕ) (cmd : Command) (inv : RadioInverter I)
      → IsCollected inv.rx
      → inv.rx.retransmit_cnt ≤ 5
      → let (inv', answer) = verify_all_fragments h now similar cmd inv in
        (answer ≡ fragment_all_missing_resend
          → (cmd.send_count ≤ get_max_resend_count cmd.kind)
            × (inv'.rx.retransmit_cnt ≡ inv.rx.retransmit_cnt))
        × (is_end answer ≡ false
            → answer ≢ fragment_all_missing_resend
            → (inv'.rx.retransmit_cnt ≤ 5) × (inv'.rx.retransmit_cnt ≡ inv.rx.retransmit_cnt + 1))
  unfolding verify_all_fragments handle_reply is_end
  verify_all_fragments_budget now similar cmd inv c p =
      ground
        (arith, verify_received_budget cmd.send_count (get_max_resend_count cmd.kind) inv.rx c p)

module _ {I : Type 0} where
  -- The radio is busy with the command, and its inverter is there.
  pub record IsServing (cmd : Command) (inv : RadioInverter I) (w : World I) : Type 0 where
    pub busy : w.radio.busy_flag ≡ true
    pub front : head? w.radio.command_queue ≡ some cmd
    pub found : w.inverters cmd.target_address ≡ some inv
    pub collected : IsCollected inv.rx
    pub few : inv.rx.retransmit_cnt ≤ get_max_retransmit_count

  abbrev pub budget : Command → RadioInverter I → ℕ
  budget cmd inv = budget_of (get_max_resend_count cmd.kind) cmd.send_count inv.rx.retransmit_cnt

  -- the command is done, or is still served and has less left
  pub data Progress (cmd : Command) (inv : RadioInverter I) (w w' : World I) : Type 0 where
    done :
        w'.radio.busy_flag ≡ false
        → w'.radio.command_queue ≡ tail w.radio.command_queue
        → Progress cmd inv w w'
    goes_on :
        (cmd' : Command) (inv' : RadioInverter I)
        → IsServing cmd' inv' w'
        → tail w'.radio.command_queue ≡ tail w.radio.command_queue
        → budget cmd' inv' < budget cmd inv
        → Progress cmd inv w w'

  pub put_inverter-found :
      (serial : ℕ) (inv : RadioInverter I) (w : World I)
      → (put_inverter serial inv w).inverters serial ≡ some inv
  unfolding put_inverter
  put_inverter-found serial inv w = ground arith

  send_again-Progress :
      (now : ℕ) (cmd : Command) (inv inv' : RadioInverter I) (w : World I)
      → IsServing cmd inv w
      → IsCollected inv'.rx
      → cmd.send_count ≤ get_max_resend_count cmd.kind
      → inv'.rx.retransmit_cnt ≡ inv.rx.retransmit_cnt
      → Progress cmd inv w (record (put_inverter cmd.target_address inv' w) {
        radio = (send_esb_packet now cmd w.radio).0;
      })
  unfolding send_esb_packet
  send_again-Progress now cmd inv inv' w s c p e =
      goes_on (send_esb_packet now cmd w.radio).1 inv'
        (record {
          busy = ground (arith, s.busy);
          front = ground arith;
          found = put_inverter-found cmd.target_address inv' w;
          collected = c;
          few = ground (arith, s.few);
        })
        (ground arith) (ground (arith, s.few, max_resend_bound cmd.kind))

  ask_again-Progress :
      (now : ℕ) (cmd : Command) (inv inv' : RadioInverter I) (w : World I)
      → IsServing cmd inv w
      → IsCollected inv'.rx
      → inv'.rx.retransmit_cnt ≤ 5
      → inv'.rx.retransmit_cnt ≡ inv.rx.retransmit_cnt + 1
      → Progress cmd inv w (record (put_inverter cmd.target_address inv' w) {
        radio = send_retransmit_packet now cmd w.radio;
      })
  unfolding send_retransmit_packet
  ask_again-Progress now cmd inv inv' w s c p e =
      goes_on cmd inv'
        (record {
          busy = ground (arith, s.busy);
          front = ground (arith, s.front);
          found = put_inverter-found cmd.target_address inv' w;
          collected = c;
          few = p;
        })
        (ground arith) (ground arith)

  abbrev counted : RadioInverter I → RadioInverter I
  counted inv = record inv { radio_stats = count_re_request inv.radio_stats }

  pub after_verify-Progress :
      (now answer : ℕ) (cmd : Command) (inv inv' : RadioInverter I) (w : World I)
      → IsServing cmd inv w
      → IsCollected inv'.rx
      → (answer ≡ fragment_all_missing_resend
          → (cmd.send_count ≤ get_max_resend_count cmd.kind)
            × (inv'.rx.retransmit_cnt ≡ inv.rx.retransmit_cnt))
      → (is_end answer ≡ false
          → answer ≢ fragment_all_missing_resend
          → (inv'.rx.retransmit_cnt ≤ 5) × (inv'.rx.retransmit_cnt ≡ inv.rx.retransmit_cnt + 1))
      → Progress cmd inv w (after_verify now answer cmd inv' w)
  unfolding after_verify finish_command
  after_verify-Progress now answer cmd inv inv' w s c resent asked =
      elim (Bool-cases (answer == fragment_all_missing_resend)) [
        | inl y ↦
            let e = resent (ground arith) in
            rw y (send_again-Progress now cmd inv inv' w s c e.0 e.1)
        | inr n ↦ elim (Bool-cases (is_end answer)) [
          | inl y ↦ rw (n, y) (done (ground arith) (ground arith))
          | inr m ↦
              let e = asked m (ground arith) in
              rw (n, m) (ask_again-Progress now cmd inv (counted inv') w s c e.0 e.1)
        ]
      ]
