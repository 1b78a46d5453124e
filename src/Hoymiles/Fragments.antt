-- ===== src/Hoymiles/Fragments.antt =====
-- lib/Hoymiles/src/inverters/InverterAbstract.cpp: the fragments of a reply, as the inverter's
-- object collects them, and what is to be done when the time to receive them is over.
pub mod Complete
use flux_dtu.Base.{
  ℕ, zero, suc, ◌+◌, ◌-◌, ◌%◌, Bool, true, false, List, [], ltb, leb, ◌==◌, if◌then◌else◌, u8,
  get_or, take, drop, Option, none, some,
}

-- `fragment_t`: `payload` holds the first `len` bytes of the buffer, which are all that is read.
pub record Fragment : Type 0 where
  pub main_cmd : ℕ  -- uint8
  pub payload : List ℕ
  pub was_received : Bool

abbrev pub no_fragment : Fragment
no_fragment = record { main_cmd = 0; payload = []; was_received = false }

abbrev pub max_rf_fragment_count : ℕ
max_rf_fragment_count = 13

abbrev pub max_rf_payload_size : ℕ
max_rf_payload_size = 32

-- The array is a function of its index, below `max_rf_fragment_count`.
pub record RxFragments : Type 0 where
  pub buffer : ℕ → Fragment
  pub max_packet_id : ℕ  -- uint8
  pub last_packet_id : ℕ  -- uint8
  pub retransmit_cnt : ℕ  -- uint8
  pub last_rssi : ℕ

unfoldable pub clear_rx_fragment_buffer : RxFragments → RxFragments
clear_rx_fragment_buffer r = record r {
  buffer = λ i. no_fragment;
  max_packet_id = 0;
  last_packet_id = 0;
  retransmit_cnt = 0;
}

unfoldable pub store_fragment : (fragment : List ℕ) (len id : ℕ) → RxFragments → RxFragments
store_fragment fragment len id r =
    let received : Fragment = record {
      main_cmd = get_or fragment 0 0;
      payload = take (len - 11) (drop 10 fragment);
      was_received = true;
    } in
    record r {
      buffer = λ i. if i == id - 1 then received else r.buffer i;
      last_packet_id = if ltb r.last_packet_id id then id else r.last_packet_id;
      max_packet_id = if leb 128 (get_or fragment 9 0) then id else r.max_packet_id;
    }

-- The list holds at least `len` bytes.
unfoldable pub add_rx_fragment : (fragment : List ℕ) (len rssi : ℕ) → RxFragments → RxFragments
add_rx_fragment fragment len rssi r =
    let r' = record r { last_rssi = rssi } in
    let id = get_or fragment 9 0 % 128 in
    if ltb len 11
    then r'
    else if ltb max_rf_payload_size (len - 11)
    then r'
    else if id == 0
    then r'
    else if leb max_rf_fragment_count id
    then r'
    else store_fragment fragment len id r'

-- The answers of `verifyAllFragments` that are not the number of a fragment.
abbrev pub fragment_all_missing_resend : ℕ
fragment_all_missing_resend = 255

abbrev pub fragment_all_missing_timeout : ℕ
fragment_all_missing_timeout = 254

abbrev pub fragment_retransmit_timeout : ℕ
fragment_retransmit_timeout = 253

abbrev pub fragment_handle_error : ℕ
fragment_handle_error = 252

abbrev pub fragment_ok : ℕ
fragment_ok = 0

-- the first index from `i` on, of `n` many, whose fragment is missing; `i + n` if none is
unfoldable pub first_missing : (ℕ → Fragment) → (n i : ℕ) → ℕ
first_missing buffer zero i = i
first_missing buffer (suc n) i =
    let rest = first_missing buffer n (i + 1) in if (buffer i).was_received then rest else i

-- the two returns where a fragment is to be sent again, or has been too often
unfoldable pub ask_again : (max_retransmit id : ℕ) → RxFragments → RxFragments × ℕ
ask_again max_retransmit id r = (
  record r { retransmit_cnt = u8 (r.retransmit_cnt + 1) },
  if ltb r.retransmit_cnt max_retransmit then id else fragment_retransmit_timeout,
)

-- The answer, where something is missing; `none` for a reply to be handled.
unfoldable pub verify_received :
    (send_count max_resend max_retransmit : ℕ) → RxFragments → RxFragments × Option ℕ
verify_received send_count max_resend max_retransmit r =
    let missing = first_missing r.buffer (r.max_packet_id - 1) 0 in
    let (last, last_answer) = ask_again max_retransmit (u8 (r.last_packet_id + 1)) r in
    let (middle, middle_answer) = ask_again max_retransmit (missing + 1) r in
    if r.last_packet_id == 0
    then (
      r,
      some (
          if leb send_count max_resend
          then fragment_all_missing_resend
          else fragment_all_missing_timeout),
    )
    else if r.max_packet_id == 0
    then (last, some last_answer)
    else if ltb missing (r.max_packet_id - 1)
    then (middle, some middle_answer)
    else (r, none)
