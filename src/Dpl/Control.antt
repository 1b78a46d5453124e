-- ===== src/Dpl/Control.antt =====
-- The virtual methods of `PowerLimiterInverter`, by the inverter's power source, and the base
-- class's methods that call them.
use flux_dtu.Base.{ℕ, Bool, true, some, if◌then◌else◌}
use flux_dtu.Float.{Float}
use flux_dtu.Hoymiles.Device.{suppress_next_request, send_restart_control_request}
use flux_dtu.Dpl.State.{Inverter, Env, battery, solar, smart_buffer}
use flux_dtu.Dpl.Readings.{get_configured_max_power_watts}
use flux_dtu.Dpl.Update.{update}
use flux_dtu.Dpl.Battery
use flux_dtu.Dpl.Overscaling
use flux_dtu.Dpl.Solar
use flux_dtu.Dpl.SmartBuffer

module _ {F : Type 0} ⦃fl : Float F⦄ where
  unfoldable pub get_max_reduction_watts : Env → (allow_standby : Bool) → Inverter F → ℕ
  get_max_reduction_watts e allow s = elim s.config.power_source [
    | battery ↦ Battery.get_max_reduction_watts e allow s
    | solar ↦ Solar.get_max_reduction_watts e allow s
    | smart_buffer ↦ SmartBuffer.get_max_reduction_watts e allow s
  ]

  unfoldable pub get_max_increase_watts : Env → Inverter F → ℕ
  get_max_increase_watts e s = elim s.config.power_source [
    | battery ↦ Battery.get_max_increase_watts e s
    | solar ↦ Solar.get_max_increase_watts e s
    | smart_buffer ↦ SmartBuffer.get_max_increase_watts e s
  ]

  unfoldable pub apply_reduction :
      Env → (reduction : ℕ) (allow_standby : Bool) → Inverter F → Inverter F × ℕ
  apply_reduction e reduction allow s = elim s.config.power_source [
    | battery ↦ Battery.apply_reduction e reduction allow s
    | solar ↦ Solar.apply_reduction e reduction allow s
    | smart_buffer ↦ SmartBuffer.apply_reduction e reduction allow s
  ]

  unfoldable pub apply_increase : Env → (increase : ℕ) → Inverter F → Inverter F × ℕ
  apply_increase e increase s = elim s.config.power_source [
    | battery ↦ Battery.apply_increase e increase s
    | solar ↦ Overscaling.apply_increase e (Solar.get_max_increase_watts e s) increase s
    | smart_buffer ↦
        Overscaling.apply_increase e (SmartBuffer.get_max_increase_watts e s) increase s
  ]

  unfoldable pub standby : Env → Inverter F → Inverter F × ℕ
  standby e s = elim s.config.power_source [
    | battery ↦ Battery.standby e s
    | solar ↦ Solar.standby e s
    | smart_buffer ↦ SmartBuffer.standby e s
  ]

  unfoldable pub set_ac_output : Env → (expected_output_watts : ℕ) → Inverter F → Inverter F
  set_ac_output e output s = elim s.config.power_source [
    | battery ↦ Battery.set_ac_output e output s
    | solar ↦ Overscaling.set_ac_output e output s
    | smart_buffer ↦ Overscaling.set_ac_output e output s
  ]

  unfoldable pub set_max_output : Env → (fast_start : Bool) → Inverter F → Inverter F
  set_max_output e fast s =
      set_ac_output e (get_configured_max_power_watts e s)
        (record s { allow_parallel_startup_commands = fast; target_power_state = some true })

  unfoldable pub retire : Env → (allow_new_dispatch : Bool) → Inverter F → Inverter F × Bool
  retire e allow s =
      let s' = if s.retired then s else (standby e s).0 in
      update e allow (record s' { retired = true })

  unfoldable pub restart : Inverter F → Inverter F × Bool
  restart s =
      let (d, queued) = send_restart_control_request (suppress_next_request s.device) in
      (record s { device = d }, queued)
