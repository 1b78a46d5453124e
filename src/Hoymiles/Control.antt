-- ===== src/Hoymiles/Control.antt =====
-- lib/Hoymiles/src/commands/ActivePowerControlCommand.cpp, DevControlCommand.cpp and
-- PowerControlCommand.cpp: the frame of a limit command, and what the control commands do to the
-- parsers when they are done.
pub mod Frame
pub mod Settled
pub mod Confirmed
use flux_dtu.Base.{
  ℕ, zero, suc, ◌+◌, ◌*◌, ◌/◌, ◌%◌, Bool, true, false, ◌&&◌, ◌||◌, not, List, [], ◌∷◌, ltb, ◌==◌,
  if◌then◌else◌, u8,
}
use flux_dtu.Float.{Float}
use flux_dtu.Hoymiles.Crc.{crc16}
use flux_dtu.Hoymiles.Device.{
  LastCommandSuccess, cmd_ok, cmd_nok, PowerLimitControlType, absolut_non_persistent,
  relativ_non_persistent, absolut_persistent, relativ_persistent, is_relativ,
}
use flux_dtu.Hoymiles.Command.{
  ActivePowerControlDeviceType, hm_active_power_control, hms_active_power_control, Action, restart,
}
use flux_dtu.Hoymiles.Fragments.{Fragment}

-- `_payload`, as a function of the index
abbrev pub Payload : Type 0
Payload = ℕ → ℕ

unfoldable pub put_byte : (k value : ℕ) → Payload → Payload
put_byte k value p = λ i. if i == k then u8 value else p i

-- `n` bytes from `i` on
unfoldable pub bytes_from : Payload → (n i : ℕ) → List ℕ
bytes_from p zero i = []
bytes_from p (suc n) i = p i ∷ bytes_from p n (i + 1)

unfoldable pub udpate_crc : (len : ℕ) → Payload → Payload
udpate_crc len p =
    let crc = crc16 (bytes_from p len 10) 65_535 in
    put_byte (11 + len) crc (put_byte (10 + len) (crc / 256) p)

unfoldable pub get_control_type_value : ActivePowerControlDeviceType → PowerLimitControlType → ℕ
get_control_type_value device absolut_non_persistent = 0
get_control_type_value device relativ_non_persistent = 1
get_control_type_value hm_active_power_control absolut_persistent = 256
get_control_type_value hm_active_power_control relativ_persistent = 257
get_control_type_value hms_active_power_control absolut_persistent = 2
get_control_type_value hms_active_power_control relativ_persistent = 3

-- `l` is the limit in tenths, a uint16.
unfoldable pub set_active_power_limit :
    ActivePowerControlDeviceType → (l : ℕ) → PowerLimitControlType → Payload → Payload
set_active_power_limit device l type p =
    let value = get_control_type_value device type in
    let limited = put_byte 13 l (put_byte 12 (l / 256) p) in
    udpate_crc 6 (put_byte 15 value (put_byte 14 (value / 256) limited))

-- `getLimit`, in tenths
unfoldable pub get_limit : Payload → ℕ
get_limit p = p 12 * 256 + p 13

-- The loop tries the types in the order of the enumeration.
unfoldable pub get_type : ActivePowerControlDeviceType → Payload → PowerLimitControlType
get_type device p =
    let value = p 14 * 256 + p 15 in
    if value == get_control_type_value device absolut_non_persistent
    then absolut_non_persistent
    else if value == get_control_type_value device relativ_non_persistent
    then relativ_non_persistent
    else if value == get_control_type_value device absolut_persistent
    then absolut_persistent
    else if value == get_control_type_value device relativ_persistent
    then relativ_persistent
    else relativ_non_persistent

-- `DevControlCommand::handleResponse`: 0x51 with the top bit set, in `n` fragments from `i` on
unfoldable pub is_answer : (ℕ → Fragment) → (n i : ℕ) → Bool
is_answer fragment zero i = true
is_answer fragment (suc n) i = (fragment i).main_cmd == 209 && is_answer fragment n (i + 1)

-- The fields of `SystemConfigParaParser` and `PowerCommandParser` that are set.
pub record ControlParsers : Type 0 where
  pub limit_tenths : ℕ  -- the two payload bytes
  pub last_limit_command_success : LastCommandSuccess
  pub last_limit_request_success : LastCommandSuccess
  pub limit_last_update_command : ℕ  -- uint32
  pub limit_last_update : ℕ  -- uint32
  pub last_power_command_success : LastCommandSuccess
  pub power_last_update_command : ℕ  -- uint32
  pub power_last_update : ℕ  -- uint32

abbrev limit_updated : (now : ℕ) → ControlParsers → ControlParsers
limit_updated now s = record s { limit_last_update_command = now; limit_last_update = now }

abbrev power_updated : (now : ℕ) → ControlParsers → ControlParsers
power_updated now s = record s { power_last_update_command = now; power_last_update = now }

module _ {F : Type 0} ⦃fl : Float F⦄ where
  unfoldable pub set_limit_percent : F → ControlParsers → ControlParsers
  set_limit_percent value s = record s { limit_tenths = fl.to_u16 (fl.mul value (fl.of_nat 10)) }

  -- `similar` commands are in the queue, this one among them.
  unfoldable pub apply_limit_from_command :
      (now similar max_power : ℕ) (limit : F)
      → PowerLimitControlType
      → ControlParsers
      → ControlParsers
  apply_limit_from_command now similar max_power limit type s =
      let percent = fl.mul (fl.div limit (fl.of_nat max_power)) (fl.of_nat 100) in
      let known =
        if is_relativ type
        then set_limit_percent limit s
        else if ltb 0 max_power
        then set_limit_percent percent s
        else s in
      let updated = limit_updated now known in
      record updated {
        last_limit_command_success = if similar == 1 then cmd_ok else s.last_limit_command_success;
      }

unfoldable pub limit_got_timeout : (now : ℕ) → ControlParsers → ControlParsers
limit_got_timeout now s =
    let updated = limit_updated now s in record updated { last_limit_command_success = cmd_nok }

unfoldable pub apply_power_state_from_command : (now : ℕ) → Action → ControlParsers → ControlParsers
apply_power_state_from_command now restart s =
    let updated = power_updated now s in
    record updated {
      last_power_command_success = cmd_ok;
      limit_tenths = 0;
      last_limit_request_success = cmd_nok;
    }
apply_power_state_from_command now _ s =
    let updated = power_updated now s in record updated { last_power_command_success = cmd_ok }

unfoldable pub power_got_timeout :
    (now : ℕ) → Action → (complete_on_tx_success : Bool) → ControlParsers → ControlParsers
power_got_timeout now action complete s =
    let updated = power_updated now s in
    if complete
    then apply_power_state_from_command now action s
    else (record updated { last_power_command_success = cmd_nok })

unfoldable pub power_handle_tx_result :
    (now : ℕ) → Action → (complete_on_tx_success success : Bool) → ControlParsers → ControlParsers
power_handle_tx_result now action complete success s =
    if complete
    then apply_power_state_from_command now action s
    else if success
    then s
    else power_got_timeout now action complete s
