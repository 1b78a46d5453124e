-- ===== src/Hoymiles/Handed.antt =====
-- What becomes of the commands that an inverter's object hands to the radio: they are prepared as
-- lib/Hoymiles/src/inverters/HM_Abstract.cpp does, and `enqueCommand` is called with each.
use flux_dtu.Base.{ℕ, ◌≡◌, ◌++◌, refl, Bool, false, List, [], ◌∷◌, if◌then◌else◌}
use flux_dtu.Hoymiles.Command.{
  Command, CommandKind, turn_on, turn_off, restart, hm_active_power_control,
}
use flux_dtu.Hoymiles.Device.{RadioCommand, PowerLimitControlType}
use flux_dtu.Hoymiles.Radio.{Radio, enque_command}
use flux_dtu.Hoymiles.Radio.Enque.{
  IsOrderly, enque_command-IsOrderly, enque_command_once, similar_waiting,
}

module _ {F : Type 0} where
  abbrev pub kind_of : RadioCommand F → CommandKind
  kind_of (RadioCommand.active_power_control limit type suppress) =
      CommandKind.active_power_control hm_active_power_control type
  kind_of (RadioCommand.power_control on complete suppress) =
      CommandKind.power_control (if on then turn_on else turn_off) complete
  kind_of (RadioCommand.restart_control suppress) = CommandKind.power_control restart false

  abbrev pub is_suppressed : RadioCommand F → Bool
  is_suppressed (RadioCommand.active_power_control limit type suppress) = suppress
  is_suppressed (RadioCommand.power_control on complete suppress) = suppress
  is_suppressed (RadioCommand.restart_control suppress) = suppress

  -- `prepareCommand` for the inverter, with the router's address left at 0
  unfoldable pub prepared : (serial : ℕ) → RadioCommand F → Command
  prepared serial c = record {
    kind = kind_of c;
    target_address = serial;
    router_address = 0;
    timeout = 2000;
    send_count = 0;
    request_history_seq = 0;
    suppress_request_history = is_suppressed c;
  }

  -- the calls of `enqueCommand`, one after another
  unfoldable pub enque_all : (now serial : ℕ) → List (RadioCommand F) → Radio → Radio
  enque_all now serial [] r = r
  enque_all now serial (c ∷ cs) r =
      enque_all now serial cs (enque_command now (prepared serial c) r)

  -- Of several limit commands of one type for one inverter the last one waits alone: the radio takes
  -- those before it out of its queue, but for one that is being sent.
  pub enque_all-limit :
      (now serial : ℕ) (limit : F) (type : PowerLimitControlType) (suppress : Bool)
      (cs : List (RadioCommand F)) (r : Radio)
      → IsOrderly r
      → let c = RadioCommand.active_power_control limit type suppress in
        similar_waiting (prepared serial c) (enque_all now serial (cs ++ (c ∷ [])) r) ≡ 1
  unfolding enque_all prepared
  enque_all-limit now serial limit type suppress [] r h = (enque_command_once now _ r h).0 refl
  enque_all-limit now serial limit type suppress (c ∷ cs) r h =
      enque_all-limit now serial limit type suppress cs _
        (enque_command-IsOrderly now (prepared serial c) r h).0
