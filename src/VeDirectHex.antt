-- ===== src/VeDirectHex.antt =====
-- lib/VeDirectFrameHandler/VeDirectFrameHexHandler.cpp: `disassembleHexData`, which takes a hex
-- message apart. The C library's `strtoul` is a parameter, as a function of the characters it is
-- given, for base 16.
pub mod Sum
use flux_dtu.Base.{
  ℕ, zero, suc, ◌+◌, ◌-◌, ◌*◌, ◌&&◌, List, [], ◌∷◌, Option, none, some, ltb, leb, ◌==◌,
  if◌then◌else◌, u8, u16, u32, length, get_or, take, drop,
}

pub data HexResponse : Type 0 where
  done unknown error ping get set async : HexResponse

pub record HexData : Type 0 where
  pub rsp : HexResponse
  pub addr : ℕ  -- uint16
  pub flags : ℕ  -- uint8
  pub value : ℕ  -- uint32
  pub text : List ℕ

-- The value of a hex digit, modulo 256. What is no digit has a value too.
unfoldable pub ascii2hex : ℕ → ℕ
ascii2hex v = u8 (v + (if leb 65 v then 201 else 208))

-- the digits at index `i`; behind the message there is a zero
unfoldable pub hex2byte : List ℕ → (i : ℕ) → ℕ
hex2byte buffer i = u8 (ascii2hex (get_or buffer i 0) * 16 + ascii2hex (get_or buffer (i + 1) 0))

-- `checksum -= hex2byte(buffer + i)` for every second index `i` from `2` on
unfoldable pub subtract_bytes : (sum : ℕ) → List ℕ → ℕ
subtract_bytes sum [] = sum
subtract_bytes sum (a ∷ []) = u8 (sum + 256 - hex2byte (a ∷ []) 0)
subtract_bytes sum (a ∷ b ∷ rest) = subtract_bytes (u8 (sum + 256 - hex2byte (a ∷ b ∷ []) 0)) rest

unfoldable pub calc_hex_frame_check_sum : (buffer : List ℕ) → ℕ
calc_hex_frame_check_sum buffer =
    subtract_bytes (u8 (85 + 256 - ascii2hex (get_or buffer 1 0))) (drop 2 buffer)

-- the values of `VeDirectHexResponse`; any other one is not known
unfoldable pub response_of : ℕ → Option HexResponse
response_of n =
    if n == 1
    then some done
    else if n == 3
    then some unknown
    else if n == 4
    then some error
    else if n == 5
    then some ping
    else if n == 7
    then some get
    else if n == 8
    then some set
    else if n == 10
    then some async
    else none

abbrev pub history_total : ℕ
history_total = 4175

abbrev pub history_mppt_d30 : ℕ
history_mppt_d30 = 4286

-- The bytes of a little endian number, the last one first. What is behind the message is only read
-- where the result is not used.
unfoldable pub bytes_reversed : List ℕ → (bytes i : ℕ) → (text : List ℕ) → List ℕ
bytes_reversed buffer zero i text = text
bytes_reversed buffer (suc n) i text =
    bytes_reversed buffer n (i + 2) (get_or buffer i 0 ∷ get_or buffer (i + 1) 0 ∷ text)

module _ (strtoul : (text : List ℕ) → ℕ) where
  unfoldable pub ascii_hex_le2_int : List ℕ → (offs bytes : ℕ) → ℕ
  unfolding bytes_reversed
  ascii_hex_le2_int buffer offs bytes = strtoul (bytes_reversed buffer bytes offs [])

  -- a register's value, of 8, 16 or 32 bits
  unfoldable pub read_value : (buffer : List ℕ) → HexData → Option HexData
  unfolding ascii_hex_le2_int
  read_value buffer data_read =
      if length buffer == 12
      then some (record data_read { value = u32 (ascii_hex_le2_int buffer 8 1) })
      else if length buffer == 14
      then some (record data_read { value = u32 (ascii_hex_le2_int buffer 8 2) })
      else if length buffer == 18
      then some (record data_read { value = u32 (ascii_hex_le2_int buffer 8 4) })
      else none

  abbrev pub text_response : HexResponse → List ℕ → Option HexData
  text_response rsp buffer = some (record {
    rsp = rsp;
    addr = 0;
    flags = 0;
    value = 0;
    text = take (length buffer - 4) (drop 2 buffer);
  })

  -- Data of the history is not read.
  unfoldable pub register_response : HexResponse → List ℕ → Option HexData
  unfolding ascii_hex_le2_int read_value
  register_response rsp buffer =
      let addr = u16 (ascii_hex_le2_int buffer 2 2) in
      let flags = u8 (ascii_hex_le2_int buffer 6 1) in
      if leb history_total addr && leb addr history_mppt_d30
      then some (record { rsp = rsp; addr = addr; flags = 0; value = 0; text = [] })
      else read_value buffer
          (record { rsp = rsp; addr = addr; flags = flags; value = 0; text = [] })

  -- the switch over the response
  unfoldable pub respond : Option HexResponse → List ℕ → Option HexData
  respond none buffer = none
  respond (some done) buffer = text_response done buffer
  respond (some error) buffer = text_response error buffer
  respond (some ping) buffer = text_response ping buffer
  respond (some unknown) buffer = text_response unknown buffer
  respond (some get) buffer = register_response get buffer
  respond (some set) buffer = register_response set buffer
  respond (some async) buffer = register_response async buffer

  -- `none` where it answers `false`
  unfoldable pub disassemble_hex_data : (buffer : List ℕ) → Option HexData
  disassemble_hex_data buffer =
      if ltb 3 (length buffer) && calc_hex_frame_check_sum buffer == 0
      then respond (response_of (u8 (strtoul (get_or buffer 1 0 ∷ [])))) buffer
      else none
