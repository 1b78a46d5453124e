-- ===== src/Examples/Frames.antt =====
-- Frames, fragments and records.
use flux_dtu.Base.{
  ℕ, ◌+◌, ◌-◌, ◌*◌, ◌≤◌, ◌≡◌, refl, some, true, false, List, [], ◌∷◌, ◌++◌, none, arith, length,
  drop,
}
use flux_dtu.Hoymiles.Crc.{crc8, crc16, check_fragment_crc, get_data_payload}
use flux_dtu.Hoymiles.Crc.Detects.{AllBytes, no_bytes, more_bytes}
use flux_dtu.Hoymiles.Crc.Parity.{check_fragment_crc-get_data_payload}
use flux_dtu.Hoymiles.Fragments.{Fragment}
use flux_dtu.Hoymiles.MultiData.{handle_response}
use flux_dtu.Hoymiles.MultiData.Accepted.{handle_response-eq-answer_of}
use flux_dtu.Hoymiles.History.{
  RequestHistory, record_queued_request_history, get_request_history, queued,
}
use flux_dtu.Hoymiles.History.Ring.{IsRing, record_queued_request_history_lem}
use flux_dtu.Hoymiles.Receive.{Packet, Receiver, parse, back}
use flux_dtu.Timeout.{occured}
use flux_dtu.Hoymiles.Receive.Parsed.{loops, loops-parse_last}
use flux_dtu.Hoymiles.Device.{relativ_persistent}
use flux_dtu.Hoymiles.Command.{hms_active_power_control}
use flux_dtu.Hoymiles.Control.{set_active_power_limit, get_limit, get_type, bytes_from}
use flux_dtu.Hoymiles.Control.Frame.{set_active_power_limit_lem}
use flux_dtu.Hoymiles.Crc.{crc16_round}
use flux_dtu.Hoymiles.MultiData.{
  check_from, check_last, crc_received, get_total_fragment_size, sum_from,
}
use flux_dtu.Hoymiles.MultiData.Accepted.{is_checked}
use flux_dtu.Hoymiles.RunData.{RunData, handle_run_data, after_check, store_run_data}
use flux_dtu.Hoymiles.RunData.Stored.{handle_run_data_stored}
use flux_dtu.Examples.Radio.{counting, limit_request, no_record, world_with}

one_byte : AllBytes (21 ∷ [])
one_byte = more_bytes 21 [] (omega arith) no_bytes

-- The second byte has become 9.
check_fragment_crc-get_data_payload_example :
    (check_fragment_crc (get_data_payload (21 ∷ 7 ∷ 21 ∷ [])) 4 ≡ true)
    × (check_fragment_crc ((21 ∷ 9 ∷ 21 ∷ []) ++ (crc8 (21 ∷ 7 ∷ 21 ∷ []) ∷ [])) 4 ≡ false)
check_fragment_crc-get_data_payload_example =
    check_fragment_crc-get_data_payload (21 ∷ []) (21 ∷ []) 7 9 one_byte one_byte (omega arith)
      (omega arith)

abbrev answers : (payload : List ℕ) → ℕ → Fragment
answers payload k = record { main_cmd = 149; payload = payload; was_received = true }

-- A last fragment with one byte only.
handle_response-eq-answer_of_example : handle_response (answers (5 ∷ [])) 2 ≡ none
handle_response-eq-answer_of_example = handle_response-eq-answer_of (answers (5 ∷ [])) 1

abbrev full_history : RequestHistory
full_history = record { slots = λ i. no_record; write = 7; count = 256; next_seq = 9 }

full_history-IsRing : IsRing full_history
full_history-IsRing = record {
  write_lt = omega arith;
  count_le = omega arith;
  next_seq_lt = omega arith;
}

record_queued_request_history_lem_example :
    let (h', cmd') = record_queued_request_history 5000 false limit_request full_history in
    let list = get_request_history full_history in
    IsRing h'
    × (cmd'.request_history_seq ≡ 9)
    × (h'.next_seq ≡ 10)
    × (limit_request.suppress_request_history ≡ true → (h' ≡ full_history) × (cmd' ≡ limit_request))
    × (get_request_history h'
        ≡ drop (length list - 255) list
          ++ (record {
            seq = 9;
            queued_millis = 5000;
            sent_millis = 0;
            updated_millis = 5000;
            serial = 7;
            command = limit_request.kind;
            retransmit = false;
            state = queued;
          }
              ∷ []))
record_queued_request_history_lem_example =
    record_queued_request_history_lem 5000 false limit_request full_history full_history-IsRing

-- fragment `id` for the inverter with serial number 7, with its checksum
abbrev packet : (id crc : ℕ) → Packet
packet id crc = record {
  fragment = 149 ∷ 0 ∷ 0 ∷ 0 ∷ 7 ∷ 0 ∷ 0 ∷ 0 ∷ 99 ∷ id ∷ 0 ∷ crc ∷ [];
  len = 12;
  rssi = 80;
}

-- Two packets wait; the second one is parsed twice.
abbrev two_packets : Receiver ℕ
two_packets = record {
  rx_buffer = packet 1 240 ∷ packet 2 243 ∷ [];
  packet_received = false;
  serials = 7 ∷ [];
  world = world_with true;
}

loops-parse_last_example :
    let r' = loops counting (1100 ∷ 1101 ∷ []) two_packets in
    (r'.rx_buffer ≡ [])
    × (r'.world ≡ parse (7 ∷ []) (packet 2 243) (parse (7 ∷ []) (packet 2 243) (world_with true)))
unfolding parse occured back
loops-parse_last_example =
    loops-parse_last counting (1100 ∷ 1101 ∷ []) (packet 1 240) (packet 2 243 ∷ []) two_packets refl
      refl refl refl refl

-- A limit of 85.5 percent.
set_active_power_limit_lem_example :
    let p' = set_active_power_limit hms_active_power_control 855 relativ_persistent (λ i. 0) in
    (get_limit p' ≡ 855)
    × (get_type hms_active_power_control p' ≡ relativ_persistent)
    × (p' 16 * 256 + p' 17 ≡ crc16 (bytes_from p' 6 10) 65_535)
set_active_power_limit_lem_example =
    set_active_power_limit_lem hms_active_power_control 855 relativ_persistent (λ i. 0)
      (omega arith) (omega arith) (omega arith)

abbrev no_data : RunData
no_data = record {
  payload_statistic = λ k. 0;
  statistic_length = 0;
  rx_failure_count = 3;
  last_update = 0;
}

abbrev run_data : ℕ → Fragment
run_data = answers (1 ∷ 2 ∷ 225 ∷ 129 ∷ [])

data_accepted :
    handle_run_data 5000 4 run_data 1 no_data ≡ some (store_run_data 5000 run_data 1 no_data, true)
unfolding handle_run_data after_check handle_response check_from check_last crc_received crc16
    crc16_round get_total_fragment_size sum_from
data_accepted = refl

-- two bytes of data, with their checksum
handle_run_data_stored_example :
    let s' = store_run_data 5000 run_data 1 no_data in
    (is_checked (1 ∷ 2 ∷ 225 ∷ 129 ∷ []) 65_535 ≡ true)
    × (4 ≤ 4)
    × (4 ≤ 112 → (s'.payload_statistic 1 ≡ 2) × (s'.statistic_length ≡ 4))
    × (s'.rx_failure_count ≡ 0)
    × (s'.last_update ≡ 5000)
handle_run_data_stored_example =
    handle_run_data_stored 5000 4 run_data 0 no_data (store_run_data 5000 run_data 1 no_data) 1
      (λ k. omega arith) (omega arith) data_accepted
