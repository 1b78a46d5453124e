-- ===== src/Hoymiles/Receive.antt =====
-- `loop` of lib/Hoymiles/src/HoymilesRadio_NRF.cpp and HoymilesRadio_CMT.cpp: the packets that the
-- chip has received wait in a `std::queue`, oldest first, until one is handed to its inverter.
-- `incoming` are the packets that the chip hands out during a call.
pub mod Parsed
use flux_dtu.Base.{
  ℕ, zero, suc, ◌+◌, ◌-◌, ◌*◌, ◌/◌, ◌%◌, ◌^◌, Bool, true, false, ◌&&◌, ◌||◌, not, List, [], ◌∷◌,
  ◌++◌, Option, none, some, ltb, leb, ◌==◌, if◌then◌else◌, length, get_or, tail,
}
use flux_dtu.Hoymiles.Crc.{check_fragment_crc}
use flux_dtu.Hoymiles.Fragments.{add_rx_fragment}
use flux_dtu.Hoymiles.Inverter.{Handler, RadioInverter}
use flux_dtu.Hoymiles.Radio.{Radio, RadioType, is_nrf}
use flux_dtu.Hoymiles.Cycle.{World, put_inverter, handle_received_package}

-- `fragment_t` as the chip fills it: 32 bytes, of which `len`, at least one, were received.
pub record Packet : Type 0 where
  pub fragment : List ℕ
  pub len : ℕ  -- uint8
  pub rssi : ℕ

abbrev pub fragment_buffer_size : ℕ
fragment_buffer_size = 30

-- The radio's further state, with the serial numbers of the inverters in their order.
pub record Receiver (I : Type 0) : Type 0 where
  pub rx_buffer : List Packet
  pub packet_received : Bool
  pub serials : List ℕ
  pub world : World I

-- byte `k` of a `serial_u`
abbrev pub byte : (k serial : ℕ) → ℕ
byte k serial = serial / 256 ^ k % 256

-- the loop of `getInverterByFragment`
unfoldable pub find_inverter : List ℕ → (fragment : List ℕ) → Option ℕ
find_inverter [] fragment = none
find_inverter (s ∷ ss) fragment =
    let rest = find_inverter ss fragment in
    if byte 3 s == get_or fragment 1 0
      && byte 2 s == get_or fragment 2 0
      && byte 1 s == get_or fragment 3 0
      && byte 0 s == get_or fragment 4 0
    then some s
    else rest

unfoldable pub get_inverter_by_fragment : List ℕ → Packet → Option ℕ
get_inverter_by_fragment serials f = if leb f.len 4 then none else find_inverter serials f.fragment

-- Only a CMT chip hands out packets for others; `convertSerialToRadioId` turns the bytes around.
unfoldable pub is_for_dtu : RadioType → (dtu_serial : ℕ) → Packet → Bool
is_for_dtu type serial f =
    is_nrf type
    || (get_or f.fragment 5 0 == byte 3 serial
        && get_or f.fragment 6 0 == byte 2 serial
        && get_or f.fragment 7 0 == byte 1 serial
        && get_or f.fragment 8 0 == byte 0 serial)

-- the part of `while (_radio->available())`; a full buffer empties the chip
unfoldable pub receive : (incoming buffer : List Packet) → List Packet
receive [] buffer = buffer
receive (f ∷ fs) buffer =
    let rest = receive fs (buffer ++ (f ∷ [])) in
    if ltb fragment_buffer_size (length buffer) then buffer else rest

-- `back`
unfoldable pub back : Packet → List Packet → Packet
back f [] = f
back f (g ∷ gs) = back g gs

module _ {I : Type 0} where
  unfoldable pub add_to : Packet → (serial : ℕ) → Option (RadioInverter I) → World I → World I
  add_to f serial none w = w
  add_to f serial (some inv) w =
      put_inverter serial (record inv { rx = add_rx_fragment f.fragment f.len f.rssi inv.rx }) w

  unfoldable pub hand_over : Packet → Option ℕ → World I → World I
  hand_over f none w = w
  hand_over f (some serial) w = add_to f serial (w.inverters serial) w

  unfoldable pub parse : (serials : List ℕ) → Packet → World I → World I
  parse serials f w =
      if check_fragment_crc f.fragment f.len && is_for_dtu w.radio.type w.radio.dtu_serial f
      then hand_over f (get_inverter_by_fragment serials f) w
      else w

  -- The newest packet is parsed, and the oldest one removed.
  unfoldable pub parse_buffer : List Packet → Receiver I → Receiver I
  parse_buffer [] r = r
  parse_buffer (f ∷ fs) r = record r { rx_buffer = fs; world = parse r.serials (back f fs) r.world }

  unfoldable pub listens : World I → Bool
  listens w = not (is_nrf w.radio.type) || w.radio.busy_flag || length w.radio.command_queue == 0

  unfoldable pub receive_or_parse : (incoming : List Packet) → Receiver I → Receiver I
  receive_or_parse incoming r =
      if r.packet_received
      then record r { rx_buffer = receive incoming r.rx_buffer; packet_received = false }
      else parse_buffer r.rx_buffer r

module _ {I : Type 0} (h : Handler I) where
  unfoldable pub loop :
      (now : ℕ) → (tx : ℕ → Bool) → (incoming : List Packet) → Receiver I → Receiver I
  loop now tx incoming r =
      let r' = if listens r.world then receive_or_parse incoming r else r in
      record r' { world = handle_received_package h now tx r'.world }
