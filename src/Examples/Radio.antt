-- ===== src/Examples/Radio.antt =====
-- A radio with two inverters, and what happens to its commands.
use flux_dtu.Base.{
  ℕ, ◌+◌, ◌-◌, ◌≤◌, ◌<◌, ◌≡◌, ◌≢◌, refl, Bool, true, false, List, [], ◌∷◌, none, some, arith, head?,
  ◌==◌, if◌then◌else◌,
}
use flux_dtu.Hoymiles.Device.{relativ_non_persistent, cmd_ok, cmd_pending}
use flux_dtu.Hoymiles.Command.{
  Command, active_power_control, hm_active_power_control, real_time_run_data, alarm_data,
  remove_oldest, remove_newest, allow_multiple, get_queue_insert_type,
}
use flux_dtu.Hoymiles.Fragments.{RxFragments, verify_received}
use flux_dtu.Hoymiles.Fragments.Complete.{IsCollected, verify_received_complete}
use flux_dtu.Hoymiles.Inverter.{Handler, RadioInverter}
use flux_dtu.Hoymiles.Queue.{count_similar_commands}
use flux_dtu.Hoymiles.History.{RequestHistoryRecord, success}
use flux_dtu.Hoymiles.Radio.{Radio, cmt, enque_command}
use flux_dtu.Hoymiles.Radio.Enque.{
  IsOrderly, enque_command-IsOrderly, enque_command_once, similar_waiting, waiting_for,
}
use flux_dtu.Float.{fixed}
use flux_dtu.Hoymiles.Command.{are_same_parameter, same_kind}
use flux_dtu.Hoymiles.Control.{ControlParsers, apply_limit_from_command}
use flux_dtu.Hoymiles.Control.Confirmed.{limit_command_confirmed}
use flux_dtu.Hoymiles.Cycle.{World, handle_received_package}
use flux_dtu.Hoymiles.Cycle.Steps.{cycles, IsSound, Step-IsSound}
use flux_dtu.Hoymiles.Cycle.Periods.{IsServing, budget}
use flux_dtu.Hoymiles.Cycle.Served.{Event, runs, serve, serve_ends}

-- What the handlers change is a count of timeouts.
abbrev pub counting : Handler ℕ
counting = record {
  handle_response = λ now similar cmd buffer n i. (i, true);
  handle_tx_result = λ now similar cmd ok i. if ok then i else i + 1;
  got_timeout = λ now cmd i. i + 1;
}

abbrev stats_request : Command
stats_request = record {
  kind = real_time_run_data;
  target_address = 7;
  router_address = 0;
  timeout = 500;
  send_count = 0;
  request_history_seq = 0;
  suppress_request_history = true;
}

abbrev pub limit_request : Command
limit_request = record {
  kind = active_power_control hm_active_power_control relativ_non_persistent;
  target_address = 7;
  router_address = 0;
  timeout = 2000;
  send_count = 0;
  request_history_seq = 0;
  suppress_request_history = false;
}

abbrev pub no_record : RequestHistoryRecord
no_record = record {
  seq = 0;
  queued_millis = 0;
  sent_millis = 0;
  updated_millis = 0;
  serial = 0;
  command = alarm_data;
  retransmit = false;
  state = success;
}

abbrev radio_with : Bool → List Command → Radio
radio_with busy queue = record {
  type = cmt;
  dtu_serial = 99;
  command_queue = queue;
  busy_flag = busy;
  rx_timeout = record { timeout = 500; start_millis = 1000 };
  history = record { slots = λ i. no_record; write = 0; count = 0; next_seq = 1 };
}

-- the first two of three fragments
abbrev two_fragments : RxFragments
two_fragments = record {
  buffer = λ i. record { main_cmd = 149; payload = 1 ∷ 2 ∷ []; was_received = (i == 0) };
  max_packet_id = 0;
  last_packet_id = 1;
  retransmit_cnt = 0;
  last_rssi = 0;
}

abbrev inverter_with : RxFragments → RadioInverter ℕ
inverter_with rx = record {
  rx = rx;
  radio_stats = record {
    tx_request_data = 1;
    tx_re_request_fragment = 0;
    rx_success = 0;
    rx_fail_no_answer = 0;
    rx_fail_partial_answer = 0;
    rx_fail_corrupt_data = 0;
  };
  parsers = 0;
}

abbrev pub world_with : Bool → World ℕ
world_with busy = record {
  radio = radio_with busy (stats_request ∷ limit_request ∷ []);
  inverters = λ s. some (inverter_with two_fragments);
}

collected : IsCollected two_fragments
collected = record {
  max_le_last = omega arith;
  last_lt = omega arith;
  max_received = λ p. absurd (omega arith);
  beyond = λ k p. ground arith;
}

orderly : IsOrderly (radio_with true (stats_request ∷ limit_request ∷ []))
orderly = record { has_front = refl; ordered = refl }

sound : IsSound (world_with true)
sound = record {
  orderly = orderly;
  collected = record {
    at = λ serial inv e.
        let e' : inverter_with two_fragments ≡ inv = ground arith in rw (← e') collected;
  };
}

serving : IsServing stats_request (inverter_with two_fragments) (world_with true)
serving = record {
  busy = refl;
  front = refl;
  found = refl;
  collected = collected;
  few = omega arith;
}

-- The last fragment is not there yet: fragment 2 is asked for.
verify_received_complete_example :
    let (r', answer) = verify_received 1 4 5 two_fragments in
    (answer ≡ none
      → (0 < two_fragments.max_packet_id)
        × ((k : ℕ)
            → k < two_fragments.max_packet_id
            → (two_fragments.buffer k).was_received ≡ true))
    × (0 < two_fragments.max_packet_id
        → ((k : ℕ) → k < two_fragments.max_packet_id → (two_fragments.buffer k).was_received ≡ true)
        → (answer ≡ none) × (r' ≡ two_fragments))
    × ((id : ℕ)
        → answer ≡ some id
        → id < 252
        → (1 ≤ id)
          × (id ≤ 13)
          × ((two_fragments.buffer (id - 1)).was_received ≡ false)
          × (two_fragments.retransmit_cnt < 5))
verify_received_complete_example = verify_received_complete 1 4 5 two_fragments collected

abbrev busy_radio : Radio
busy_radio = radio_with true (stats_request ∷ limit_request ∷ [])

-- A second limit command displaces the first, and the request that is being sent stays in front.
enque_command-IsOrderly_example :
    let r' = enque_command 1200 limit_request busy_radio in
    IsOrderly r'
    × (r'.busy_flag ≡ busy_radio.busy_flag)
    × (busy_radio.busy_flag ≡ true → head? r'.command_queue ≡ head? busy_radio.command_queue)
enque_command-IsOrderly_example = enque_command-IsOrderly 1200 limit_request busy_radio orderly

enque_command_once_example :
    let r' = enque_command 1200 limit_request busy_radio in
    let type = get_queue_insert_type limit_request.kind in
    (type ≡ remove_oldest → similar_waiting limit_request r' ≡ 1)
    × (type ≡ remove_newest
        → 0 < count_similar_commands limit_request busy_radio.command_queue
        → r' ≡ busy_radio)
    × (type ≡ remove_newest
        → count_similar_commands limit_request busy_radio.command_queue ≡ 0
        → similar_waiting limit_request r' ≡ similar_waiting limit_request busy_radio + 1)
    × (type ≡ allow_multiple
        → similar_waiting limit_request r' ≡ similar_waiting limit_request busy_radio + 1)
    × ((t : ℕ) → t ≢ limit_request.target_address → waiting_for t r' ≡ waiting_for t busy_radio)
enque_command_once_example = enque_command_once 1200 limit_request busy_radio orderly

abbrev pending_limit : ControlParsers
pending_limit = record {
  limit_tenths = 1000;
  last_limit_command_success = cmd_pending;
  last_limit_request_success = cmd_ok;
  limit_last_update_command = 0;
  limit_last_update = 0;
  last_power_command_success = cmd_ok;
  power_last_update_command = 0;
  power_last_update = 0;
}

-- The request that is being sent is of another kind: the limit is set.
limit_command_confirmed_example :
    let similar =
      count_similar_commands limit_request
        (enque_command 1200 limit_request busy_radio).command_queue in
    let s' =
      apply_limit_from_command {F = ℕ} 1500 similar 800 50_000 relativ_non_persistent
        pending_limit in
    (s'.last_limit_command_success ≡ cmd_ok) × (s'.limit_last_update_command ≡ 1500)
unfolding are_same_parameter same_kind
limit_command_confirmed_example =
    limit_command_confirmed 1200 1500 800 limit_request busy_radio 50_000 relativ_non_persistent
      pending_limit orderly refl

-- The time to wait is over: fragment 2 is asked for.
Step-IsSound_example : IsSound (handle_received_package counting 1600 (λ n. true) (world_with true))
Step-IsSound_example = Step-IsSound counting (cycles 1600 (λ n. true) (world_with true)) sound

abbrev periods : List Event
periods = runs 1600 (λ n. true) ∷ runs 1800 (λ n. true) ∷ []

serve_ends_example :
    let (w', n) = serve counting periods (world_with true) in
    (n ≤ budget stats_request (inverter_with two_fragments))
    × (budget stats_request (inverter_with two_fragments) ≤ 27)
    × (n ≡ budget stats_request (inverter_with two_fragments) → w'.radio.busy_flag ≡ false)
    × (w'.radio.busy_flag ≡ false → w'.radio.command_queue ≡ limit_request ∷ [])
serve_ends_example =
    serve_ends counting periods stats_request (inverter_with two_fragments) (world_with true)
      serving
