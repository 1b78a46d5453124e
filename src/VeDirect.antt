-- ===== src/VeDirect.antt =====
-- lib/VeDirectFrameHandler/VeDirectFrameHandler.cpp: the bytes that a Victron device sends are put
-- together to a frame, which is taken if its checksum is right. A hex message may interrupt a frame.
pub mod Print
pub mod RoundTrip
pub mod Frames
pub mod Hex
pub mod Bounds
use flux_dtu.Base.{
  ℕ, zero, suc, ◌+◌, ◌-◌, Bool, true, false, ◌&&◌, ◌||◌, not, List, [], ◌∷◌, ◌++◌, Option, none,
  some, ltb, leb, ◌==◌, if◌then◌else◌, u8, sub32, length, codes, same_text,
}
use flux_dtu.VeDirectHex.{HexData, disassemble_hex_data}

pub data State : Type 0 where
  idle record_begin record_name record_value record_checksum record_hex : State

-- one record of a frame, `std::pair<std::string, std::string>`
pub record TextData : Type 0 where
  pub name : List ℕ
  pub value : List ℕ

-- The fields of `veStruct` that text sets.
pub data BaseField : Type 0 where
  pid ser fw fwe voltage current : BaseField

-- What a derived class adds, over its data `T`: `processTextDataDerived`, where `none` means that
-- the record is not for it; `hexDataHandler`, whose answer is only logged; and `frameValidEvent`. Then
-- what is of the C library: the assignment to a field of the base class, by `strtol` and `strncpy`,
-- and `strtoul`.
pub record Derived (T : Type 0) : Type 0 where
  pub process_text_data_derived : (name value : List ℕ) → T → Option T
  pub assign : BaseField → (value : List ℕ) → T → T
  pub hex_data_handler : HexData → T → T
  pub frame_valid_event : T → T
  pub strtoul : (text : List ℕ) → ℕ

abbrev pub ve_max_value_len : ℕ
ve_max_value_len = 33

abbrev pub ve_max_hex_len : ℕ
ve_max_hex_len = 100

-- The two buffers hold what was written up to `_textPointer`; `name_ended` says whether a zero was
-- put behind the name.
pub record FrameHandler (T : Type 0) : Type 0 where
  pub state : State
  pub prev_state : State
  pub checksum : ℕ  -- uint8
  pub hex_buffer : List ℕ
  pub name : List ℕ
  pub name_ended : Bool
  pub value : List ℕ
  pub text_data : List TextData
  pub tmp_frame : T
  pub last_byte_millis : ℕ  -- uint32
  pub last_update : ℕ  -- uint32
  pub data_valid : Bool
  pub start_up_passed : Bool
  pub frame_contains_field_v : Bool

abbrev pub is_idle : State → Bool
is_idle idle = true
is_idle _ = false

abbrev pub is_checksum : State → Bool
is_checksum record_checksum = true
is_checksum _ = false

abbrev pub is_hex : State → Bool
is_hex record_hex = true
is_hex _ = false

unfoldable pub is_valid_char : ℕ → Bool
is_valid_char b = b == 9 || b == 10 || b == 13 || (leb 32 b && ltb b 128)

unfoldable pub toupper : ℕ → ℕ
toupper b = if leb 97 b && leb b 122 then b - 32 else b

unfoldable pub base_field : (name : List ℕ) → Option BaseField
base_field name =
    if same_text name (codes "PID")
    then some pid
    else if same_text name (codes "SER")
    then some ser
    else if same_text name (codes "FW")
    then some fw
    else if same_text name (codes "FWE")
    then some fwe
    else if same_text name (codes "V")
    then some voltage
    else if same_text name (codes "I")
    then some current
    else none

abbrev pub is_voltage : Option BaseField → Bool
is_voltage (some voltage) = true
is_voltage _ = false

-- a byte at `*_textPointer++`, where there is room
unfoldable pub put : (b : ℕ) → List ℕ → List ℕ
put b buffer = if ltb (length buffer) ve_max_value_len then buffer ++ (b ∷ []) else buffer

module _ {T : Type 0} where
  unfoldable pub reset : FrameHandler T → FrameHandler T
  reset h = record h { checksum = 0; state = idle; text_data = [] }

  unfoldable pub rx_idle : (b : ℕ) → FrameHandler T → FrameHandler T
  rx_idle b h = record h { state = if b == 10 then record_begin else idle }

  unfoldable pub rx_begin : (b : ℕ) → FrameHandler T → FrameHandler T
  rx_begin b h = record h { name = b ∷ []; name_ended = false; state = record_name }

  -- A name that fills its buffer is not ended, and not compared.
  unfoldable pub rx_name : (b : ℕ) → FrameHandler T → FrameHandler T
  rx_name b h =
      let ends = ltb (length h.name) ve_max_value_len in
      let is_checksum_name = ends && same_text h.name (codes "CHECKSUM") in
      if b == 9
      then (record h {
        name_ended = ends;
        value = if is_checksum_name then h.value else [];
        state = if is_checksum_name then record_checksum else record_value;
      })
      else if b == 35
      then h
      else (record h { name = put b h.name })

  -- The name as a C string: one that is not ended runs on into `_value`, the member behind it.
  unfoldable pub read_name : FrameHandler T → List ℕ
  read_name h = if h.name_ended then h.name else h.name ++ h.value

  unfoldable pub rx_value : (b : ℕ) → FrameHandler T → FrameHandler T
  rx_value b h =
      let ends = ltb (length h.value) ve_max_value_len in
      let record_read : TextData = record { name = read_name h; value = h.value } in
      if b == 10
      then (record h {
        text_data = if ends then h.text_data ++ (record_read ∷ []) else h.text_data;
        state = record_begin;
      })
      else if b == 13
      then h
      else (record h { value = put b h.value })

  -- The switch of `rxData`, but for the two states that use what a derived class adds.
  unfoldable pub rx_text : State → (b : ℕ) → FrameHandler T → FrameHandler T
  rx_text idle b h = rx_idle b h
  rx_text record_begin b h = rx_begin b h
  rx_text record_name b h = rx_name b h
  rx_text record_value b h = rx_value b h
  rx_text record_checksum b h = h
  rx_text record_hex b h = h

module _ {T : Type 0} (d : Derived T) where
  unfoldable pub process_base : Option BaseField → TextData → FrameHandler T → FrameHandler T
  process_base none r h = h
  process_base (some f) r h = record h {
    tmp_frame = d.assign f r.value h.tmp_frame;
    frame_contains_field_v = if is_voltage (some f) then true else h.frame_contains_field_v;
  }

  unfoldable pub process_derived : Option T → TextData → FrameHandler T → FrameHandler T
  process_derived none r h = process_base (base_field r.name) r h
  process_derived (some t) r h = record h { tmp_frame = t }

  unfoldable pub process_text_data : TextData → FrameHandler T → FrameHandler T
  process_text_data r h =
      process_derived (d.process_text_data_derived r.name r.value h.tmp_frame) r h

  unfoldable pub process_all : List TextData → FrameHandler T → FrameHandler T
  process_all [] h = h
  process_all (r ∷ rs) h = process_all rs (process_text_data r h)

  -- Only a frame with the field "V" counts as a dataset, and the first one after a start does not
  -- make the data valid.
  unfoldable pub accept_frame : (now : ℕ) → FrameHandler T → FrameHandler T
  accept_frame now h =
      let h' = process_all h.text_data (record h { frame_contains_field_v = false }) in
      let valid = h'.frame_contains_field_v && h'.start_up_passed in
      record h' {
        tmp_frame = d.frame_valid_event h'.tmp_frame;
        last_update = if valid then now else h'.last_update;
        data_valid = if valid then true else h'.data_valid;
        start_up_passed = if h'.frame_contains_field_v then true else h'.start_up_passed;
      }

  unfoldable pub rx_checksum : (now : ℕ) → FrameHandler T → FrameHandler T
  rx_checksum now h = reset (if h.checksum == 0 then accept_frame now h else h)

  abbrev pub handled : Option HexData → T → T
  handled none t = t
  handled (some data_read) t = d.hex_data_handler data_read t

  -- what the end of a hex message does to the data
  unfoldable pub hex_received : (message : List ℕ) → T → T
  hex_received message t = handled (disassemble_hex_data d.strtoul message) t

  -- A hex message that is too long for its buffer is given up, and the frame with it.
  unfoldable pub hex_rx_event : (b : ℕ) → FrameHandler T → FrameHandler T
  hex_rx_event b h =
      let buffer = h.hex_buffer ++ (b ∷ []) in
      if b == 10
      then (record h { tmp_frame = hex_received h.hex_buffer h.tmp_frame; state = h.prev_state })
      else if leb ve_max_hex_len (length buffer)
      then (record h { hex_buffer = []; state = idle })
      else (record h { hex_buffer = buffer })

  -- the switch
  unfoldable pub rx_switch : (now b : ℕ) → State → FrameHandler T → FrameHandler T
  rx_switch now b record_checksum h = rx_checksum now h
  rx_switch now b record_hex h = hex_rx_event b h
  rx_switch now b s h = rx_text s b h

  -- a colon begins a hex message, wherever it stands
  unfoldable pub enter_hex : (b : ℕ) → FrameHandler T → FrameHandler T
  enter_hex b h =
      if b == 58 && not (is_checksum h.state)
      then (record h { prev_state = h.state; state = record_hex; hex_buffer = [] })
      else h

  unfoldable pub rx_data : (now b : ℕ) → FrameHandler T → FrameHandler T
  rx_data now b h =
      let h' = enter_hex b h in
      let sum = if is_hex h'.state then h'.checksum else u8 (h'.checksum + b) in
      let received = rx_switch now (toupper b) h'.state (record h' { checksum = sum }) in
      if not (is_checksum h.state) && not (is_valid_char b) then reset h else received

  -- the loop over the bytes that have arrived
  unfoldable pub rx_all : (now : ℕ) → List ℕ → FrameHandler T → FrameHandler T
  rx_all now [] h = h
  rx_all now (b ∷ bs) h = rx_all now bs (record (rx_data now b h) { last_byte_millis = now })

  unfoldable pub outdate : (now : ℕ) → FrameHandler T → FrameHandler T
  outdate now h =
      if h.data_valid && ltb 10_000 (sub32 now h.last_update)
      then (record h { data_valid = false; start_up_passed = false })
      else h

  -- A gap of half a second ends what was begun.
  unfoldable pub loop : (now : ℕ) → (available : List ℕ) → FrameHandler T → FrameHandler T
  loop now available h =
      let h' = rx_all now available (outdate now h) in
      if not (is_idle h'.state) && ltb 500 (sub32 now h'.last_byte_millis) then reset h' else h'
