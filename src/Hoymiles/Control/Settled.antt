-- ===== src/Hoymiles/Control/Settled.antt =====
-- What is known of a control command when it is done.
use flux_dtu.Base.{ℕ, ◌≡◌, Bool, true, false, arith, if◌then◌else◌}
use flux_dtu.Hoymiles.Device.{cmd_ok, cmd_nok}
use flux_dtu.Hoymiles.Command.{Action, restart, turn_on, turn_off}
use flux_dtu.Hoymiles.Control.{
  ControlParsers, apply_power_state_from_command, power_got_timeout, power_handle_tx_result,
}

abbrev is_restart : Action → Bool
is_restart restart = true
is_restart _ = false

-- A power command that is done when it is sent counts as carried out at the time of its last
-- attempt, whether that was acknowledged or not, and also where the time to wait runs out; any other
-- one fails in both cases, and leaves everything as it is where it was sent. Where it is carried
-- out, the limit is unknown after a restart only.
pub power_command_settled :
    (now : ℕ) (action : Action) (success : Bool) (s : ControlParsers)
    → let sent = power_handle_tx_result now action true success s in
      let timed_out = power_got_timeout now action false s in
      (sent ≡ power_got_timeout now action true s)
      × (sent.last_power_command_success ≡ cmd_ok)
      × (sent.power_last_update_command ≡ now)
      × (sent.limit_tenths ≡ (if is_restart action then 0 else s.limit_tenths))
      × (power_handle_tx_result now action false success s ≡ (if success then s else timed_out))
      × (timed_out.last_power_command_success ≡ cmd_nok)
      × (timed_out.limit_tenths ≡ s.limit_tenths)
unfolding power_handle_tx_result power_got_timeout apply_power_state_from_command
power_command_settled now turn_on success s = ground arith
power_command_settled now turn_off success s = ground arith
power_command_settled now restart success s = ground arith
