-- ===== src/VeDirectHex/Sum.antt =====
-- The checksum of a hex message as the protocol has it: the response's digit and the bytes behind it
-- sum up to 0x55.
use flux_dtu.Base.{
  ℕ, ◌+◌, ◌-◌, ◌<◌, ◌≡◌, refl, ◌&&◌, List, [], ◌∷◌, Option, none, arith, ltb, ◌==◌, if◌then◌else◌,
  u8, length,
}
use flux_dtu.VeDirectHex.{
  HexData, ascii2hex, hex2byte, subtract_bytes, calc_hex_frame_check_sum, response_of, respond,
  disassemble_hex_data,
}

-- the sum of the bytes, modulo 256, each of two digits; a last digit alone has a zero behind it
abbrev pub sum_bytes : List ℕ → ℕ
sum_bytes [] = 0
sum_bytes (a ∷ []) = u8 (hex2byte (a ∷ []) 0)
sum_bytes (a ∷ b ∷ rest) = u8 (hex2byte (a ∷ b ∷ []) 0 + sum_bytes rest)

-- a message behind its colon
abbrev pub sum_message : List ℕ → ℕ
sum_message [] = 0
sum_message (digit ∷ digits) = u8 (ascii2hex digit + sum_bytes digits)

hex2byte_lt : (buffer : List ℕ) (i : ℕ) → hex2byte buffer i < 256
unfolding hex2byte
hex2byte_lt buffer i = omega arith

subtract_bytes_lem :
    (sum : ℕ) (digits : List ℕ)
    → sum < 256
    → (subtract_bytes sum digits < 256) × (u8 (subtract_bytes sum digits + sum_bytes digits) ≡ sum)
unfolding subtract_bytes
subtract_bytes_lem sum [] p = (p, omega (arith, p))
subtract_bytes_lem sum (a ∷ []) p = (omega arith, omega (arith, p, hex2byte_lt (a ∷ []) 0))
subtract_bytes_lem sum (a ∷ b ∷ rest) p =
    let byte = hex2byte (a ∷ b ∷ []) 0 in
    let (lt, e) = subtract_bytes_lem (u8 (sum + 256 - byte)) rest (omega arith) in
    (lt, omega (arith, p, e, lt, hex2byte_lt (a ∷ b ∷ []) 0))

calc_hex_frame_check_sum_lem :
    (colon digit : ℕ) (digits : List ℕ)
    → (calc_hex_frame_check_sum (colon ∷ digit ∷ digits) == 0)
      ≡ (sum_message (digit ∷ digits) == 85)
unfolding calc_hex_frame_check_sum ascii2hex
calc_hex_frame_check_sum_lem colon digit digits =
    let start = u8 (85 + 256 - ascii2hex digit) in
    let (lt, e) = subtract_bytes_lem start digits (omega arith) in ground (arith, lt, e)

-- what is read of a message with a right sum
abbrev pub content : (strtoul : List ℕ → ℕ) → List ℕ → Option HexData
content strtoul [] = none
content strtoul (digit ∷ digits) =
    respond strtoul (response_of (u8 (strtoul (digit ∷ [])))) (58 ∷ digit ∷ digits)

-- A message of fewer than three characters behind its colon, or with another sum, is not read.
pub disassemble_hex_data_lem :
    (strtoul : List ℕ → ℕ) (message : List ℕ)
    → disassemble_hex_data strtoul (58 ∷ message) ≡ (
        if ltb 2 (length message) && sum_message message == 85
        then content strtoul message
        else none)
unfolding disassemble_hex_data
disassemble_hex_data_lem strtoul [] = refl
disassemble_hex_data_lem strtoul (digit ∷ digits) =
    ground (arith, calc_hex_frame_check_sum_lem 58 digit digits)
