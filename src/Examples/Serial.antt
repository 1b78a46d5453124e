-- ===== src/Examples/Serial.antt =====
-- Frames and hex messages of a Victron device, for a derived class that counts.
use flux_dtu.Base.{
  ℕ, ◌+◌, ◌-◌, ◌*◌, ◌≡◌, refl, true, false, List, length, leb, ltb, ◌&&◌, if◌then◌else◌, [], ◌∷◌,
  ◌++◌, none, arith, codes, same_text,
}
use flux_dtu.VeDirect.{Derived, FrameHandler, idle, record_value, rx_all, reset, toupper}
use flux_dtu.VeDirectHex.{hex2byte, ascii2hex, respond, response_of}
use flux_dtu.VeDirect.Print.{Fields, no_fields, field, records, print_body, sum_up, IsField}
use flux_dtu.VeDirect.Frames.{RxFrame, rx_all-print_body}
use flux_dtu.VeDirect.Hex.{rx_all-hex}

-- the digits in front
abbrev strtoul_from : (sum : ℕ) → List ℕ → ℕ
strtoul_from sum [] = sum
strtoul_from sum (c ∷ cs) =
    if leb 48 c && ltb c 58
    then strtoul_from (sum * 16 + (c - 48)) cs
    else if leb 65 c && ltb c 71
    then strtoul_from (sum * 16 + (c - 55)) cs
    else sum

abbrev counting : Derived ℕ
counting = record {
  process_text_data_derived = λ name value t. none;
  assign = λ f value t. t + 1;
  hex_data_handler = λ data_read t. t + 100 + length data_read.text;
  frame_valid_event = λ t. t + 1000;
  strtoul = strtoul_from 0;
}

abbrev fresh : FrameHandler ℕ
fresh = record {
  state = idle;
  prev_state = idle;
  checksum = 0;
  hex_buffer = [];
  name = [];
  name_ended = false;
  value = [];
  text_data = [];
  tmp_frame = 0;
  last_byte_millis = 0;
  last_update = 0;
  data_valid = false;
  start_up_passed = true;
  frame_contains_field_v = false;
}

ser-IsField : IsField 83 (codes "ER#") (codes "HQ2206")
unfolding same_text toupper
ser-IsField = record {
  first_plain = refl;
  name_plain = refl;
  name_short = refl;
  not_checksum = refl;
  value_plain = refl;
  value_short = refl;
}

voltage-IsField : IsField 86 [] (codes "12800")
unfolding same_text toupper
voltage-IsField = record {
  first_plain = refl;
  name_plain = refl;
  name_short = refl;
  not_checksum = refl;
  value_plain = refl;
  value_short = refl;
}

-- a frame with "SER#" and "V"
abbrev two_fields : Fields
two_fields =
    field 83 (codes "ER#") (codes "HQ2206") ser-IsField
      (field 86 [] (codes "12800") voltage-IsField no_fields)

abbrev closing : ℕ
closing = 256 - sum_up 0 (print_body two_fields)

rx_all-print_body_example :
    RxFrame counting 1000 true
      (records two_fields)
      fresh
      (rx_all counting 1000 (print_body two_fields ++ (closing ∷ [])) (reset fresh))
rx_all-print_body_example = rx_all-print_body counting 1000 closing two_fields fresh

abbrev reading : FrameHandler ℕ
reading = record fresh { state = record_value; name = codes "V"; name_ended = true; checksum = 9 }

-- the answer to a ping
rx_all-hex_example :
    rx_all counting 2000 (58 ∷ (codes "51641f9" ++ 10 ∷ [])) reading ≡ (record reading {
      prev_state = record_value;
      hex_buffer = codes ":51641F9";
      tmp_frame = 104;
      last_byte_millis = 2000;
    })
unfolding toupper hex2byte ascii2hex respond response_of
rx_all-hex_example = rx_all-hex counting 2000 reading (codes "51641f9") refl refl (omega arith)
