-- ===== src/Hoymiles/Inverter.antt =====
-- The driver's object for one inverter, as the radio uses it, and the virtual methods of a command
-- that act on it.
use flux_dtu.Base.{ℕ, Bool, ◌==◌, if◌then◌else◌, value_or, has_value, not, ◌||◌}
use flux_dtu.Hoymiles.Command.{Command, get_max_resend_count, get_max_retransmit_count}
use flux_dtu.Hoymiles.Fragments.{
  Fragment, RxFragments, verify_received, fragment_handle_error, fragment_ok,
  fragment_all_missing_timeout, fragment_retransmit_timeout,
}

-- `handleResponse`, `handleTxResult` and `gotTimeout`. They read the time, and `similar`, the number
-- of similar commands in the queue, and change the inverter's parsers, whose state is `I`.
pub record Handler (I : Type 0) : Type 0 where
  pub handle_response :
      (now similar : ℕ) → Command → (ℕ → Fragment) → (max_fragment_id : ℕ) → I → I × Bool
  pub handle_tx_result : (now similar : ℕ) → Command → (success : Bool) → I → I
  pub got_timeout : (now : ℕ) → Command → I → I

-- `RadioStats`, as far as the radio counts; each is a uint32.
pub record RadioStats : Type 0 where
  pub tx_request_data : ℕ
  pub tx_re_request_fragment : ℕ
  pub rx_success : ℕ
  pub rx_fail_no_answer : ℕ
  pub rx_fail_partial_answer : ℕ
  pub rx_fail_corrupt_data : ℕ

pub record RadioInverter (I : Type 0) : Type 0 where
  pub rx : RxFragments
  pub radio_stats : RadioStats
  pub parsers : I

module _ {I : Type 0} (h : Handler I) where
  -- the last part of `verifyAllFragments`
  unfoldable pub handle_reply : (now similar : ℕ) → Command → RadioInverter I → RadioInverter I × ℕ
  handle_reply now similar cmd inv =
      let (parsers, ok) =
        h.handle_response now similar cmd inv.rx.buffer inv.rx.max_packet_id inv.parsers in
      if ok
      then (record inv { parsers = parsers }, fragment_ok)
      else (record inv { parsers = h.got_timeout now cmd parsers }, fragment_handle_error)

  -- Where the answer is a timeout, the command has been told.
  unfoldable pub verify_all_fragments :
      (now similar : ℕ) → Command → RadioInverter I → RadioInverter I × ℕ
  verify_all_fragments now similar cmd inv =
      let (rx, missing) =
        verify_received cmd.send_count (get_max_resend_count cmd.kind) get_max_retransmit_count
          inv.rx in
      let inv' = record inv { rx = rx } in
      let answer = value_or missing 0 in
      if not (has_value missing)
      then handle_reply now similar cmd inv'
      else if answer == fragment_all_missing_timeout || answer == fragment_retransmit_timeout
      then (record inv' { parsers = h.got_timeout now cmd inv.parsers }, answer)
      else (inv', answer)
