-- ===== src/Hoymiles/Command.antt =====
-- lib/Hoymiles/src/commands: the commands, as the queue and the radio see them.
use flux_dtu.Base.{ℕ, Bool, true, false, ◌&&◌, same, ◌==◌, if◌then◌else◌}
use flux_dtu.Hoymiles.Device.{
  PowerLimitControlType, absolut_non_persistent, relativ_non_persistent, absolut_persistent,
  relativ_persistent,
}

pub data ActivePowerControlDeviceType : Type 0 where
  hm_active_power_control hms_active_power_control : ActivePowerControlDeviceType

pub data Action : Type 0 where
  turn_on turn_off restart : Action

-- The classes of commands, with the fields that decide how one is queued.
pub data CommandKind : Type 0 where
  real_time_run_data system_config_para alarm_data dev_info_all dev_info_simple : CommandKind
  grid_on_pro_file_para channel_change request_frame : CommandKind
  active_power_control : ActivePowerControlDeviceType → PowerLimitControlType → CommandKind
  power_control : Action → (complete_on_tx_success : Bool) → CommandKind

pub data QueueInsertType : Type 0 where
  allow_multiple remove_oldest remove_newest replace_existent : QueueInsertType

pub record Command : Type 0 where
  pub kind : CommandKind
  pub target_address : ℕ  -- uint64
  pub router_address : ℕ  -- uint64
  pub timeout : ℕ  -- uint32
  pub send_count : ℕ  -- uint8
  pub request_history_seq : ℕ  -- uint32
  pub suppress_request_history : Bool

abbrev pub get_queue_insert_type : CommandKind → QueueInsertType
get_queue_insert_type (active_power_control device type) = remove_oldest
get_queue_insert_type (power_control action complete) =
    if complete then remove_oldest else allow_multiple
get_queue_insert_type _ = remove_newest

abbrev pub is_high_priority : CommandKind → Bool
is_high_priority (active_power_control device type) = true
is_high_priority (power_control action complete) = complete
is_high_priority _ = false

abbrev pub is_complete_on_tx_success : CommandKind → Bool
is_complete_on_tx_success (active_power_control device type) = true
is_complete_on_tx_success (power_control action complete) = complete
is_complete_on_tx_success _ = false

unfoldable pub get_max_resend_count : CommandKind → ℕ
get_max_resend_count (active_power_control device type) = 20
get_max_resend_count (power_control action complete) = if complete then 8 else 4
get_max_resend_count channel_change = 0
get_max_resend_count _ = 4

-- No class overrides `CommandAbstract::getMaxRetransmitCount`.
abbrev pub get_max_retransmit_count : ℕ
get_max_retransmit_count = 5

-- Only a `MultiDataCommand` can ask for a single fragment.
unfoldable pub has_request_frame_command : CommandKind → Bool
has_request_frame_command channel_change = false
has_request_frame_command request_frame = false
has_request_frame_command (active_power_control device type) = false
has_request_frame_command (power_control action complete) = false
has_request_frame_command _ = true

unfoldable pub same_type : PowerLimitControlType → PowerLimitControlType → Bool
same_type absolut_non_persistent absolut_non_persistent = true
same_type relativ_non_persistent relativ_non_persistent = true
same_type absolut_persistent absolut_persistent = true
same_type relativ_persistent relativ_persistent = true
same_type _ _ = false

unfoldable pub same_device : ActivePowerControlDeviceType → ActivePowerControlDeviceType → Bool
same_device hm_active_power_control hm_active_power_control = true
same_device hms_active_power_control hms_active_power_control = true
same_device _ _ = false

-- The names are the same, and so are the further parameters that a class compares.
unfoldable pub same_kind : CommandKind → CommandKind → Bool
unfolding same_type same_device
same_kind real_time_run_data real_time_run_data = true
same_kind system_config_para system_config_para = true
same_kind alarm_data alarm_data = true
same_kind dev_info_all dev_info_all = true
same_kind dev_info_simple dev_info_simple = true
same_kind grid_on_pro_file_para grid_on_pro_file_para = true
same_kind channel_change channel_change = true
same_kind request_frame request_frame = true
same_kind (active_power_control d t) (active_power_control d' t') =
    same_device d d' && same_type t t'
same_kind (power_control a c) (power_control a' c') = same c c'
same_kind _ _ = false

unfoldable pub are_same_parameter : Command → Command → Bool
are_same_parameter cmd other =
    same_kind cmd.kind other.kind && cmd.target_address == other.target_address
