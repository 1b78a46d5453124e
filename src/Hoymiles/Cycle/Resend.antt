-- ===== src/Hoymiles/Cycle/Resend.antt =====
-- The loop that sends a packet again has rounds enough.
use flux_dtu.Base.{ℕ, zero, suc, ◌+◌, ◌<◌, ◌≡◌, refl, Bool, false, ◌&&◌, not, arith, leb, u8}
use flux_dtu.Hoymiles.Command.{Command, get_max_resend_count}
use flux_dtu.Hoymiles.Radio.{Radio, send_esb_packet}
use flux_dtu.Hoymiles.Cycle.{resend}
use flux_dtu.Hoymiles.Cycle.Periods.{max_resend_bound}

-- the test of the loop
abbrev tries_again : (tx : ℕ → Bool) → Command → Bool
tries_again tx cmd = not (tx cmd.send_count) && leb cmd.send_count (get_max_resend_count cmd.kind)

sent_lem :
    (now : ℕ) (cmd : Command) (r : Radio)
    → let cmd' = (send_esb_packet now cmd r).1 in
      (cmd'.kind ≡ cmd.kind) × (cmd'.send_count ≡ u8 (cmd.send_count + 1))
unfolding send_esb_packet
sent_lem now cmd r = (refl, refl)

-- Where the rounds and the attempts so far together exceed the limit, the loop ends by its test: the
-- packet was acknowledged, or the limit on attempts is exceeded.
pub resend_ends :
    (now : ℕ) (tx : ℕ → Bool) (n : ℕ) (cmd : Command) (r : Radio)
    → get_max_resend_count cmd.kind < cmd.send_count + n
    → tries_again tx (resend now tx n cmd r).1 ≡ false
unfolding resend
resend_ends now tx zero cmd r p = ground arith
resend_ends now tx (suc n) cmd r p =
    let (r', cmd') = send_esb_packet now cmd r in
    ground (arith, sent_lem now cmd r, max_resend_bound cmd.kind, resend_ends now tx n cmd' r')
