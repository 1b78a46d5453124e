-- ===== src/Hoymiles/Fragments/Complete.antt =====
-- A reply is handed over when it is complete, and the first fragment that is missing is asked for.
use flux_dtu.Base.{
  ℕ, zero, suc, ◌+◌, ◌-◌, ◌≤◌, ◌<◌, ◌≡◌, refl, true, false, List, none, some, arith,
}
use flux_dtu.Hoymiles.Fragments.{
  RxFragments, Fragment, add_rx_fragment, store_fragment, clear_rx_fragment_buffer, first_missing,
  verify_received, ask_again,
}

-- The number of the last fragment is that of a fragment that is there, and no larger than the
-- largest number seen, which fits the array.
pub record IsCollected (r : RxFragments) : Type 0 where
  pub max_le_last : r.max_packet_id ≤ r.last_packet_id
  pub last_lt : r.last_packet_id < 13
  pub max_received : 0 < r.max_packet_id → (r.buffer (r.max_packet_id - 1)).was_received ≡ true
  pub beyond : (k : ℕ) → r.last_packet_id ≤ k → (r.buffer k).was_received ≡ false

pub clear_rx_fragment_buffer-IsCollected :
    (r : RxFragments) → IsCollected (clear_rx_fragment_buffer r)
unfolding clear_rx_fragment_buffer
clear_rx_fragment_buffer-IsCollected r = record {
  max_le_last = omega arith;
  last_lt = omega arith;
  max_received = λ p. absurd (omega arith);
  beyond = λ k p. refl;
}

pub add_rx_fragment-IsCollected :
    (fragment : List ℕ) (len rssi : ℕ) (r : RxFragments)
    → IsCollected r
    → IsCollected (add_rx_fragment fragment len rssi r)
unfolding add_rx_fragment store_fragment
add_rx_fragment-IsCollected fragment len rssi r h = record {
  max_le_last = ground arith;
  last_lt = ground arith;
  max_received = ground arith;
  beyond = λ k p. ground (arith, h.beyond k);
}

pub first_missing_lem :
    (buffer : ℕ → Fragment) (n i k : ℕ)
    → let m = first_missing buffer n i in
      (i ≤ m)
      × (m ≤ i + n)
      × (i ≤ k → k < m → (buffer k).was_received ≡ true)
      × (m < i + n → (buffer m).was_received ≡ false)
unfolding first_missing
first_missing_lem buffer zero i k = ground arith
first_missing_lem buffer (suc n) i k = ground (arith, first_missing_lem buffer n (i + 1) k)

-- A reply is handed over exactly where its last fragment and all before it have been received; that
-- changes nothing. A fragment that is asked for has a number from 1 to 13, has not been received,
-- and is asked for only while the limit on retransmissions is not reached.
pub verify_received_complete :
    (send_count max_resend max_retransmit : ℕ) (r : RxFragments)
    → IsCollected r
    → let (r', answer) = verify_received send_count max_resend max_retransmit r in
      (answer ≡ none
        → (0 < r.max_packet_id)
          × ((k : ℕ) → k < r.max_packet_id → (r.buffer k).was_received ≡ true))
      × (0 < r.max_packet_id
          → ((k : ℕ) → k < r.max_packet_id → (r.buffer k).was_received ≡ true)
          → (answer ≡ none) × (r' ≡ r))
      × ((id : ℕ)
          → answer ≡ some id
          → id < 252
          → (1 ≤ id)
            × (id ≤ 13)
            × ((r.buffer (id - 1)).was_received ≡ false)
            × (r.retransmit_cnt < max_retransmit))
unfolding verify_received ask_again
verify_received_complete send_count max_resend max_retransmit r h =
    let m = first_missing r.buffer (r.max_packet_id - 1) 0 in
    (
      λ e. (
        ground arith,
        λ k p. ground (arith, first_missing_lem r.buffer (r.max_packet_id - 1) 0 k),
      ),
      λ p q. ground (arith, first_missing_lem r.buffer (r.max_packet_id - 1) 0 0, q m),
      λ id e p.
          ground (
            arith,
            h.beyond r.last_packet_id,
            first_missing_lem r.buffer (r.max_packet_id - 1) 0 0,
          ),
    )
