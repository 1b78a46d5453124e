-- ===== src/Hoymiles/Crc.antt =====
-- lib/Hoymiles/src/crc.cpp, and `checkFragmentCrc` of HoymilesRadio.cpp.
pub mod Detects
pub mod Parity
use flux_dtu.Base.{
  ℕ, zero, suc, ◌+◌, ◌-◌, ◌*◌, ◌/◌, ◌%◌, Bool, true, false, List, [], ◌∷◌, ◌++◌, leb, ◌==◌,
  if◌then◌else◌, get_or, take, bit_xor, iterate,
}

-- one of the eight rounds for a byte, with the polynomial 0x01
unfoldable pub crc8_round : ℕ → ℕ
crc8_round crc = bit_xor (crc * 2 % 256) (if leb 128 crc then 1 else 0)

-- the `len` bytes are the list
unfoldable pub crc8_from : (crc : ℕ) → List ℕ → ℕ
crc8_from crc [] = crc
crc8_from crc (b ∷ bs) = crc8_from (iterate 8 crc8_round (bit_xor crc b)) bs

unfoldable pub crc8 : List ℕ → ℕ
crc8 buf = crc8_from 0 buf

unfoldable pub crc16_round : ℕ → ℕ
crc16_round crc = if crc % 2 == 0 then crc / 2 else bit_xor (crc / 2) 40_961

unfoldable pub crc16 : (buf : List ℕ) (start : ℕ) → ℕ
crc16 [] crc = crc
crc16 (b ∷ bs) crc = crc16 bs (iterate 8 crc16_round (bit_xor crc b))

-- `getDataPayload`: the frame that is sent for a payload
unfoldable pub get_data_payload : List ℕ → List ℕ
get_data_payload payload = payload ++ (crc8 payload ∷ [])

-- The list holds at least `len` bytes, and `len` is not 0.
unfoldable pub check_fragment_crc : (fragment : List ℕ) (len : ℕ) → Bool
check_fragment_crc fragment len = crc8 (take (len - 1) fragment) == get_or fragment (len - 1) 0
