-- ===== src/Hoymiles/Device.antt =====
-- lib/Hoymiles/src/inverters/InverterAbstract.cpp and HM_Abstract.cpp: the driver's object for one
-- inverter, what it last heard of the inverter, and the requests that hand a command to the radio. What
-- the radio does with it, `enqueCommand`, is in Hoymiles/Radio. Radio replies change the fields between two calls of the power limiter.
pub mod Requests
use flux_dtu.Base.{
  ℕ, Bool, true, false, ◌&&◌, ◌||◌, not, Option, none, some, List, [], ◌∷◌, ◌++◌, ltb, leb, ◌==◌,
  if◌then◌else◌,
}
use flux_dtu.Float.{Float, float_min}

pub data LastCommandSuccess : Type 0 where
  cmd_ok cmd_nok cmd_pending : LastCommandSuccess

abbrev pub is_pending : LastCommandSuccess → Bool
is_pending cmd_pending = true
is_pending _ = false

abbrev pub is_ok : LastCommandSuccess → Bool
is_ok cmd_ok = true
is_ok _ = false

pub data PowerLimitControlType : Type 0 where
  absolut_non_persistent relativ_non_persistent absolut_persistent relativ_persistent :
      PowerLimitControlType

-- What a request hands to the radio.
pub data RadioCommand (F : Type 0) : Type 0 where
  active_power_control : F → PowerLimitControlType → Bool → RadioCommand F
  power_control : (turn_on complete_on_tx_success suppress : Bool) → RadioCommand F
  restart_control : Bool → RadioCommand F

-- One entry of the model's channel table.
pub record ChannelMetaData : Type 0 where
  pub ch : ℕ
  pub mppt : ℕ

-- The fields of `StatisticsParser` that are read; `none` is a field that the model lacks.
pub record Statistics (F : Type 0) : Type 0 where
  pub last_update : ℕ  -- uint32
  pub rx_failure_count : ℕ
  pub ac_channels : List (Option F)  -- FLD_PAC of each TYPE_AC channel
  pub ac_power : F  -- FLD_PAC of TYPE_AC, CH0
  pub ac_voltage : F  -- FLD_UAC of TYPE_AC, CH0
  pub efficiency : Option F  -- FLD_EFF of TYPE_INV, CH0
  pub dc_power : ℕ → Option F  -- FLD_PDC of each TYPE_DC channel

pub record SystemConfigPara : Type 0 where
  pub limit_tenths : ℕ  -- the two payload bytes
  pub last_limit_command_success : LastCommandSuccess
  pub last_update_command : ℕ  -- uint32
  pub last_update_request : ℕ  -- uint32

pub record PowerCommand : Type 0 where
  pub last_power_command_success : LastCommandSuccess
  pub last_update_command : ℕ  -- uint32

pub record Device (F : Type 0) : Type 0 where
  pub enable_polling : Bool
  pub enable_commands : Bool
  pub reachable_threshold : ℕ
  pub max_power_override : ℕ  -- uint16
  pub detected_max_power : ℕ  -- uint16
  pub channel_meta_data : List ChannelMetaData
  pub supports_power_distribution_logic : Bool
  pub statistics : Statistics F
  pub system_config_para : SystemConfigPara
  pub power_command : PowerCommand
  pub suppress_next_request_history : Bool
  pub active_power_control_limit : F
  pub active_power_control_type : PowerLimitControlType
  pub active_power_control_suppress_request_history : Bool
  pub power_state : ℕ
  pub power_control_suppress_request_history : Bool
  -- The arguments of all calls of the radio's `enqueCommand`, the oldest first. This is not the
  -- radio's queue, from which commands are taken.
  pub enqueued : List (RadioCommand F)

-- Is the limit given relative to the inverter's maximum?
unfoldable pub is_relativ : PowerLimitControlType → Bool
is_relativ relativ_non_persistent = true
is_relativ relativ_persistent = true
is_relativ _ = false

-- the table's channels, in its order
unfoldable pub get_channels_dc : List ChannelMetaData → List ℕ
get_channels_dc [] = []
get_channels_dc (m ∷ ms) = m.ch ∷ get_channels_dc ms

-- `std::find`
contains : ℕ → List ℕ → Bool
contains m [] = false
contains m (x ∷ xs) = x == m || contains m xs

-- each MPPT once, in the order of the table; `seen` is the list so far
collect_mppts : List ℕ → List ChannelMetaData → List ℕ
collect_mppts seen [] = seen
collect_mppts seen (m ∷ ms) =
    collect_mppts (if contains m.mppt seen then seen else seen ++ (m.mppt ∷ [])) ms

unfoldable pub get_mppts : List ChannelMetaData → List ℕ
unfolding collect_mppts contains
get_mppts ms = collect_mppts [] ms

unfoldable pub get_channels_dc_by_mppt : ℕ → List ChannelMetaData → List ℕ
get_channels_dc_by_mppt k [] = []
get_channels_dc_by_mppt k (m ∷ ms) =
    let rest = get_channels_dc_by_mppt k ms in if m.mppt == k then m.ch ∷ rest else rest

module _ {F : Type 0} where
  unfoldable pub get_max_power : Device F → ℕ
  get_max_power d =
      if ltb 0 d.max_power_override then d.max_power_override else d.detected_max_power

  unfoldable pub suppress_next_request : Device F → Device F
  suppress_next_request d = record d { suppress_next_request_history = true }

module _ {F : Type 0} ⦃fl : Float F⦄ where
  -- the sum over the AC channels
  unfoldable pub total_ac : F → List (Option F) → F
  total_ac total [] = total
  total_ac total (none ∷ fields) = total_ac total fields
  total_ac total (some p ∷ fields) = total_ac (fl.add total p) fields

  unfoldable pub is_producing : Device F → Bool
  is_producing d =
      d.enable_polling && fl.lt (fl.of_nat 0) (total_ac (fl.of_nat 0) d.statistics.ac_channels)

  unfoldable pub is_reachable : Device F → Bool
  is_reachable d = d.enable_polling && leb d.statistics.rx_failure_count d.reachable_threshold

  unfoldable pub get_limit_percent : Device F → F
  get_limit_percent d = float_min (fl.of_nat 100) (fl.rational d.system_config_para.limit_tenths 10)

  -- The flag is consumed also where the request is refused.
  unfoldable pub send_active_power_control_request :
      F → PowerLimitControlType → Device F → Device F × Bool
  unfolding is_relativ
  send_active_power_control_request limit type d =
      let suppress = d.suppress_next_request_history in
      let d' = record d { suppress_next_request_history = false } in
      let limit' = if is_relativ type then float_min (fl.of_nat 100) limit else limit in
      if not d.enable_commands
      then (d', false)
      else if is_pending d.system_config_para.last_limit_command_success
      then (d', false)
      else (
        record d' {
          active_power_control_limit = limit';
          active_power_control_type = type;
          active_power_control_suppress_request_history = suppress;
          system_config_para = record (d.system_config_para) {
            last_limit_command_success = cmd_pending;
          };
          enqueued = d.enqueued ++ (active_power_control limit' type suppress ∷ []);
        },
        true,
      )

  unfoldable pub send_power_control_request :
      (turn_on complete_on_tx_success : Bool) → Device F → Device F × Bool
  send_power_control_request on complete d =
      let suppress = d.suppress_next_request_history in
      let d' = record d { suppress_next_request_history = false } in
      if not d.enable_commands
      then (d', false)
      else if is_pending d.power_command.last_power_command_success
      then (d', false)
      else (
        record d' {
          power_state = if on then 1 else 0;
          power_control_suppress_request_history = suppress;
          power_command = record (d.power_command) { last_power_command_success = cmd_pending };
          enqueued = d.enqueued ++ (power_control on complete suppress ∷ []);
        },
        true,
      )

  unfoldable pub send_restart_control_request : Device F → Device F × Bool
  send_restart_control_request d =
      let suppress = d.suppress_next_request_history in
      let d' = record d { suppress_next_request_history = false } in
      if not d.enable_commands then (d', false) else (
        record d' {
          power_state = 2;
          power_control_suppress_request_history = suppress;
          power_command = record (d.power_command) { last_power_command_success = cmd_pending };
          enqueued = d.enqueued ++ (restart_control suppress ∷ []);
        },
        true,
      )
