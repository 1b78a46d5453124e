-- ===== src/Hoymiles/MultiData.antt =====
-- lib/Hoymiles/src/commands/MultiDataCommand.cpp: is the reply that was put together the right one?
-- The result `none` stands for a read outside of a fragment's buffer.
pub mod Accepted
use flux_dtu.Base.{
  ℕ, zero, suc, ◌+◌, ◌-◌, ◌*◌, Bool, true, false, List, [], ◌∷◌, Option, none, some, ltb, ◌==◌,
  if◌then◌else◌, u8, length, take, get_or,
}
use flux_dtu.Hoymiles.Crc.{crc16}
use flux_dtu.Hoymiles.Fragments.{Fragment}

-- the first byte of a command, 0x15, with the top bit set
abbrev pub answer_main_cmd : ℕ
answer_main_cmd = 149

-- the two bytes from `i` on, the high one first
unfoldable pub crc_received : (payload : List ℕ) (i : ℕ) → ℕ
crc_received payload i = get_or payload i 0 * 256 + get_or payload (i + 1) 0

-- `fragment[i].len - 2` is computed in eight bits for a length below two, and leaves the buffer.
unfoldable pub check_last : Fragment → (crc : ℕ) → Option Bool
check_last f crc =
    if ltb (length f.payload) 2
    then none
    else some (
        crc16 (take (length f.payload - 2) f.payload) crc
        == crc_received f.payload (length f.payload - 2))

-- the loop, with `n` fragments left from `i` on; with none at all the CRC received counts as 0
unfoldable pub check_from : (ℕ → Fragment) → (n i crc : ℕ) → Option Bool
check_from fragment zero i crc = some (crc == 0)
check_from fragment (suc zero) i crc =
    if (fragment i).main_cmd == answer_main_cmd then check_last (fragment i) crc else some false
check_from fragment (suc (suc n)) i crc =
    let rest = check_from fragment (suc n) (i + 1) (crc16 (fragment i).payload crc) in
    if (fragment i).main_cmd == answer_main_cmd then rest else some false

unfoldable pub handle_response : (ℕ → Fragment) → (max_fragment_id : ℕ) → Option Bool
handle_response fragment n = check_from fragment n 0 65_535

-- the sum of the lengths of `n` fragments from `i` on, in a uint8
unfoldable pub sum_from : (ℕ → Fragment) → (n i sum : ℕ) → ℕ
sum_from fragment zero i sum = sum
sum_from fragment (suc n) i sum =
    sum_from fragment n (i + 1) (u8 (sum + length (fragment i).payload))

unfoldable pub get_total_fragment_size : (ℕ → Fragment) → (max_fragment_id : ℕ) → ℕ
get_total_fragment_size fragment n = sum_from fragment n 0 0
