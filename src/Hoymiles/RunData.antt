-- ===== src/Hoymiles/RunData.antt =====
-- lib/Hoymiles/src/commands/RealTimeRunDataCommand.cpp: a reply with run data is stored in the buffer
-- of lib/Hoymiles/src/parser/StatisticsParser.cpp. What
-- `endAppendFragment` corrects in the daily yield is left out.
pub mod Stored
use flux_dtu.Base.{
  ℕ, zero, suc, ◌+◌, ◌-◌, Bool, true, false, ◌&&◌, Option, none, some, List, ltb, leb,
  if◌then◌else◌, u8, length, get_or,
}
use flux_dtu.Hoymiles.Fragments.{Fragment}
use flux_dtu.Hoymiles.MultiData.{handle_response, get_total_fragment_size}

abbrev pub statistic_packet_size : ℕ
statistic_packet_size = 112

-- `_payloadStatistic`, as a function of the index, `_statisticLength`, and the two values that a
-- reply resets.
pub record RunData : Type 0 where
  pub payload_statistic : ℕ → ℕ
  pub statistic_length : ℕ  -- uint8
  pub rx_failure_count : ℕ  -- uint32
  pub last_update : ℕ  -- uint32

unfoldable pub clear_buffer : RunData → RunData
clear_buffer s = record s { payload_statistic = λ k. 0; statistic_length = 0 }

unfoldable pub append_fragment : (offset : ℕ) (payload : List ℕ) → RunData → RunData
append_fragment offset payload s =
    let end = offset + length payload in
    if ltb statistic_packet_size end then s else (record s {
      payload_statistic = λ k.
          if leb offset k && ltb k end
          then get_or payload (k - offset) 0
          else s.payload_statistic k;
      statistic_length = u8 (s.statistic_length + length payload);
    })

-- the loop, with `n` fragments left from `i` on
unfoldable pub append_from : (ℕ → Fragment) → (n i offs : ℕ) → RunData → RunData
append_from fragment zero i offs s = s
append_from fragment (suc n) i offs s =
    let payload = (fragment i).payload in
    append_from fragment n (i + 1) (u8 (offs + length payload)) (append_fragment offs payload s)

unfoldable pub store_run_data : (now : ℕ) → (ℕ → Fragment) → (n : ℕ) → RunData → RunData
store_run_data now fragment n s =
    let s' = append_from fragment n 0 0 (clear_buffer s) in
    record s' { rx_failure_count = 0; last_update = now }

-- `expected` bytes are needed by the fields of the model.
unfoldable pub after_check :
    (now expected : ℕ) → (ℕ → Fragment) → (n : ℕ) → Option Bool → RunData → Option (RunData × Bool)
after_check now expected fragment n none s = none
after_check now expected fragment n (some false) s = some (s, false)
after_check now expected fragment n (some true) s =
    if ltb (get_total_fragment_size fragment n) expected
    then some (s, false)
    else some (store_run_data now fragment n s, true)

unfoldable pub handle_run_data :
    (now expected : ℕ) → (ℕ → Fragment) → (max_fragment_id : ℕ) → RunData → Option (RunData × Bool)
handle_run_data now expected fragment n s =
    after_check now expected fragment n (handle_response fragment n) s
