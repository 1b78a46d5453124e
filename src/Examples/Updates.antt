-- ===== src/Examples/Updates.antt =====
-- Rounds of `update`.
use flux_dtu.Base.{ℕ, ◌+◌, ◌≡◌, refl, true, false, none, some, arith}
use flux_dtu.Float.{fixed}
use flux_dtu.Hoymiles.Device.{cmd_ok, cmd_nok, cmd_pending}
use flux_dtu.Hoymiles.Device.Requests.{stops, restarts}
use flux_dtu.Dpl.Clock.{millis_at_or_after}
use flux_dtu.Dpl.State.{Inverter, Env, battery, solar}
use flux_dtu.Dpl.Readings.{is_using_assumed_output}
use flux_dtu.Dpl.PowerState.{startup_from_assumed_standby}
use flux_dtu.Dpl.Update.{update, limit_reply_arrived, parallel_startup_allowed}
use flux_dtu.Dpl.Update.Idle.{IsIdle, update-IsIdle}
use flux_dtu.Dpl.Update.Commands.{IsOneRound, update-IsOneRound}
use flux_dtu.Dpl.Update.Backoff.{update_timed_out, update-failed_limit}
use flux_dtu.Dpl.Update.Progress.{update-limit_succeeded}
use flux_dtu.Dpl.Update.Consistency.{IsConsistent}
use flux_dtu.Dpl.Trace.{updates, hears, here, next}
use flux_dtu.Dpl.Trace.Safety.{Step-IsConsistent, solar_never_stopped}
use flux_dtu.Examples.Samples.{now, device_after, quiet, running, running-eligible}

-- The sample with an answered limit command, with a failed one, and with one that is unanswered
-- while the inverter is to be started.
abbrev succeeded : Inverter ℕ
succeeded = running battery (device_after cmd_ok 998_000) 995_000 none

abbrev failed : Inverter ℕ
failed = running battery (device_after cmd_nok 998_000) 995_000 none

abbrev starting : Inverter ℕ
starting = running solar (device_after cmd_pending 900_000) 995_000 (some true)

abbrev overdue : Inverter ℕ
overdue = running solar (device_after cmd_pending 900_000) 960_000 (some true)

reply_arrived : limit_reply_arrived succeeded ≡ true
unfolding limit_reply_arrived millis_at_or_after
reply_arrived = refl

failure_arrived : limit_reply_arrived failed ≡ true
unfolding limit_reply_arrived millis_at_or_after
failure_arrived = refl

update-limit_succeeded_example :
    let s' = (update now true succeeded).0 in
    ((update now true succeeded).1 ≡ false)
    × (s'.update_timeouts ≡ 0)
    × (s'.next_update_attempt_millis ≡ none)
    × (s'.restored_limit_millis ≡ none)
    × (s'.assumed_output_ac_watts ≡ some 280)
update-limit_succeeded_example =
    update-limit_succeeded now true succeeded (running-eligible battery cmd_ok 998_000 995_000 none)
      refl refl refl refl refl (omega arith) refl reply_arrived

update-IsIdle_example : IsIdle (update now true succeeded).0
update-IsIdle_example = update-IsIdle now true succeeded update-limit_succeeded_example.0

update-failed_limit_example :
    let s' = (update now true failed).0 in
    ((update now true failed).1 ≡ false)
    × (s'.update_timeouts ≡ 0)
    × (s'.next_update_attempt_millis ≡ some 1_003_000)
update-failed_limit_example =
    update-failed_limit now true failed (running-eligible battery cmd_nok 998_000 995_000 none) refl
      refl refl refl (omega arith) refl failure_arrived

no_parallel_start : parallel_startup_allowed now starting ≡ false
unfolding parallel_startup_allowed startup_from_assumed_standby is_using_assumed_output
no_parallel_start = refl

update_timed_out_example :
    let s' = (update now true overdue).0 in
    ((update now true overdue).1 ≡ false)
    × (s'.update_timeouts ≡ 20)
    × (s'.next_update_attempt_millis ≡ some 1_003_000)
    × (s'.restart_triggered ≡ true)
    × (restarts s'.device ≡ restarts overdue.device + 0)
update_timed_out_example =
    update_timed_out now true overdue
      (running-eligible solar cmd_pending 900_000 960_000 (some true)) refl refl (omega arith)

abbrev soon : Env
soon = record { millis = 1_002_999; is_day_period = true }

update-IsOneRound_example :
    IsOneRound true (some true) starting.device (update now true starting).0.device
update-IsOneRound_example = update-IsOneRound now true starting

starting-IsConsistent : IsConsistent starting
starting-IsConsistent = ground arith

Step-IsConsistent_example : IsConsistent (update now true starting).0
Step-IsConsistent_example = Step-IsConsistent (updates now true starting) starting-IsConsistent

solar_never_stopped_example :
    stops (update now true (record starting { device = quiet })).0.device ≡ stops quiet
solar_never_stopped_example =
    solar_never_stopped now true starting-IsConsistent (next here (hears starting quiet)) refl
