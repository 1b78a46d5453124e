-- ===== src/Hoymiles/RunData/Stored.antt =====
-- What is in the buffer after a reply.
use flux_dtu.Base.{
  ℕ, zero, suc, ◌+◌, ◌-◌, ◌≤◌, ◌<◌, ◌≡◌, refl, ap, Bool, true, false, ◌&&◌, Option, none, some,
  List, [], ◌∷◌, ◌++◌, arith, ltb, leb, if◌then◌else◌, u8, length, length-append, get_or,
}
use flux_dtu.Hoymiles.Fragments.{Fragment}
use flux_dtu.Hoymiles.MultiData.{get_total_fragment_size}
use flux_dtu.Hoymiles.MultiData.Accepted.{
  joined, AllShort, is_checked, handle_response-eq-answer_of, get_total_fragment_size_lem,
}
use flux_dtu.Hoymiles.RunData.{
  RunData, clear_buffer, append_fragment, append_from, store_run_data, after_check, handle_run_data,
  statistic_packet_size,
}

get_or-split :
    (xs ys : List ℕ) (j : ℕ)
    → get_or (xs ++ ys) j 0
      ≡ (if ltb j (length xs) then get_or xs j 0 else get_or ys (j - length xs) 0)
get_or-split [] ys j = let e : j - 0 ≡ j = omega arith in ground (arith, e)
get_or-split (x ∷ xs) ys zero = ground arith
get_or-split (x ∷ xs) ys (suc j) = ground (arith, get_or-split xs ys j)

-- what the buffer holds at index `k` when `bytes` were put at `offs`
abbrev byte_at : (bytes : List ℕ) (offs : ℕ) → RunData → ℕ → ℕ
byte_at bytes offs s k =
    if leb offs k && ltb k (offs + length bytes)
    then get_or bytes (k - offs) 0
    else s.payload_statistic k

append_fragment_lem :
    (offs : ℕ) (payload : List ℕ) (s : RunData)
    → offs + length payload ≤ statistic_packet_size
    → ((k : ℕ) → (append_fragment offs payload s).payload_statistic k ≡ byte_at payload offs s k)
      × ((append_fragment offs payload s).statistic_length
          ≡ u8 (s.statistic_length + length payload))
unfolding append_fragment
append_fragment_lem offs payload s p = (λ k. ground (arith, p), ground (arith, p))

append_from-suc :
    (fragment : ℕ → Fragment) (n i offs : ℕ) (s : RunData)
    → offs + length (fragment i).payload ≤ statistic_packet_size
    → append_from fragment (suc n) i offs s
      ≡ append_from fragment n
          (i + 1)
          (offs + length (fragment i).payload)
          (append_fragment offs (fragment i).payload s)
unfolding append_from
append_from-suc fragment n i offs s p =
    let next : u8 (offs + length (fragment i).payload) ≡ offs + length (fragment i).payload =
      omega (arith, p) in
    ap (λ (o : ℕ). append_from fragment n (i + 1) o (append_fragment offs (fragment i).payload s))
      next

append_from-zero :
    (fragment : ℕ → Fragment) (i offs : ℕ) (s : RunData) → append_from fragment 0 i offs s ≡ s
unfolding append_from
append_from-zero fragment i offs s = refl

append_from_lem :
    (fragment : ℕ → Fragment) (n i offs k : ℕ) (s : RunData)
    → offs + length (joined fragment n i) ≤ statistic_packet_size
    → s.statistic_length ≡ offs
    → let s' = append_from fragment n i offs s in
      (s'.payload_statistic k ≡ byte_at (joined fragment n i) offs s k)
      × (s'.statistic_length ≡ offs + length (joined fragment n i))
append_from_lem fragment zero i offs k s p e =
    rw (append_from-zero fragment i offs s) (ground arith, omega (arith, e))
append_from_lem fragment (suc n) i offs k s p e =
    let payload = (fragment i).payload in
    let rest = joined fragment n (i + 1) in
    let s1 = append_fragment offs payload s in
    let sum = length-append payload rest in
    let fits : offs + length payload ≤ 112 = omega (arith, p, sum) in
    let (bytes, len) = append_fragment_lem offs payload s fits in
    let (bytes', len') =
      append_from_lem fragment n (i + 1) (offs + length payload) k s1 (omega (arith, p, sum))
        (omega (arith, len, e, fits)) in
    rw (append_from-suc fragment n i offs s fits) (
      ground (arith, p, sum, bytes k, get_or-split payload rest (k - offs), bytes'),
      omega (arith, len', sum),
    )

after_check_lem :
    (now expected : ℕ) (fragment : ℕ → Fragment) (n : ℕ) (checked : Option Bool) (s s' : RunData)
    → after_check now expected fragment n checked s ≡ some (s', true)
    → (checked ≡ some true)
      × (expected ≤ get_total_fragment_size fragment n)
      × (s' ≡ store_run_data now fragment n s)
unfolding after_check
after_check_lem now expected fragment n none s s' e = ground (arith, e)
after_check_lem now expected fragment n (some false) s s' e = ground (arith, e)
after_check_lem now expected fragment n (some true) s s' e = ground (arith, e)

-- Run data is accepted only if the last two bytes of the payloads joined are the checksum of the
-- others, and the joined bytes, the two of the checksum counted, are at least as many as the fields
-- of the model of inverter take. The failures in a row are reset then, and the time is noted. Where
-- the joined bytes fit the buffer, it holds exactly them, the checksum too, and zeros behind them.
pub handle_run_data_stored :
    (now expected : ℕ) (fragment : ℕ → Fragment) (n : ℕ) (s s' : RunData) (k : ℕ)
    → AllShort fragment
    → n < 12
    → handle_run_data now expected fragment (suc n) s ≡ some (s', true)
    → let bytes = joined fragment (suc n) 0 in
      (is_checked bytes 65_535 ≡ true)
      × (expected ≤ length bytes)
      × (length bytes ≤ statistic_packet_size
          → (s'.payload_statistic k ≡ (if ltb k (length bytes) then get_or bytes k 0 else 0))
            × (s'.statistic_length ≡ length bytes))
      × (s'.rx_failure_count ≡ 0)
      × (s'.last_update ≡ now)
unfolding handle_run_data store_run_data clear_buffer
handle_run_data_stored now expected fragment n s s' k short lt e =
    let (checked, enough, stored) = after_check_lem now expected fragment (suc n) _ s s' e in
    let held : length (joined fragment (suc n) 0) ≤ statistic_packet_size
        → (s'.payload_statistic k ≡ byte_at (joined fragment (suc n) 0) 0 (clear_buffer s) k)
          × (s'.statistic_length ≡ 0 + length (joined fragment (suc n) 0)) =
      λ fits.
        let (bytes, len) =
          append_from_lem fragment (suc n) 0 0 k (clear_buffer s) (omega (arith, fits)) refl in
        (ground (arith, stored, bytes), ground (arith, stored, len)) in
    ground (
      arith,
      checked,
      enough,
      stored,
      held,
      handle_response-eq-answer_of fragment n,
      get_total_fragment_size_lem fragment (suc n) short (omega arith),
    )
