-- ===== src/Hoymiles/Device/Requests.antt =====
-- What the requests of the driver hand to the radio's `enqueCommand`.
use flux_dtu.Base.{
  ℕ, ◌+◌, ◌≤◌, ◌≡◌, Bool, true, false, not, List, [], ◌∷◌, ◌++◌, arith, if◌then◌else◌,
}
use flux_dtu.Float.{Float, float_min}
use flux_dtu.Hoymiles.Device.{
  Device, RadioCommand, active_power_control, power_control, restart_control, PowerLimitControlType,
  is_relativ, send_active_power_control_request, send_power_control_request,
  send_restart_control_request, suppress_next_request,
}

module _ {F : Type 0} where
  -- The kinds of commands, and their number in a list.
  abbrev pub is_limit_command : RadioCommand F → Bool
  is_limit_command (active_power_control limit type suppress) = true
  is_limit_command _ = false

  abbrev pub is_start : RadioCommand F → Bool
  is_start (power_control on complete suppress) = on
  is_start _ = false

  abbrev pub is_stop : RadioCommand F → Bool
  is_stop (power_control on complete suppress) = not on
  is_stop _ = false

  abbrev pub is_restart : RadioCommand F → Bool
  is_restart (restart_control suppress) = true
  is_restart _ = false

  abbrev pub count_if : (RadioCommand F → Bool) → List (RadioCommand F) → ℕ
  count_if f [] = 0
  count_if f (c ∷ cs) = (if f c then 1 else 0) + count_if f cs

  pub count_if-append_one :
      (f : RadioCommand F → Bool) (q : List (RadioCommand F)) (c : RadioCommand F)
      → count_if f (q ++ c ∷ []) ≡ count_if f q + (if f c then 1 else 0)
  count_if-append_one f [] c = omega arith
  count_if-append_one f (x ∷ q) c = omega (arith, count_if-append_one f q c)

  abbrev pub limits : Device F → ℕ
  limits d = count_if is_limit_command d.enqueued

  abbrev pub starts : Device F → ℕ
  starts d = count_if is_start d.enqueued

  abbrev pub stops : Device F → ℕ
  stops d = count_if is_stop d.enqueued

  abbrev pub restarts : Device F → ℕ
  restarts d = count_if is_restart d.enqueued

module _ {F : Type 0} ⦃fl : Float F⦄ where
  -- While a limit command is unanswered, a further limit request is refused: of two requests in a
  -- row at most one is accepted. A request hands one limit command to the radio if it is
  -- accepted, and none if it is not.
  pub send_active_power_control_request_once :
      (limit limit' : F) (type type' : PowerLimitControlType) (d : Device F)
      → let (d', sent) = send_active_power_control_request limit type d in
        let (d'', sent') = send_active_power_control_request limit' type' d' in
        (sent ≡ true → sent' ≡ false)
        × (limits d' ≡ limits d + (if sent then 1 else 0))
        × (sent' ≡ false → d''.enqueued ≡ d'.enqueued)
  unfolding send_active_power_control_request is_relativ
  send_active_power_control_request_once limit limit' type type' d =
      let capped = if is_relativ type then float_min (fl.of_nat 100) limit else limit in
      ground (
        arith,
        count_if-append_one is_limit_command d.enqueued
            (active_power_control capped type d.suppress_next_request_history),
      )

  -- What one power request hands to the radio, for a predicate on commands.
  pub send_power_control_request_count :
      (f : RadioCommand F → Bool) (on complete : Bool) (d : Device F)
      → let (d', sent) = send_power_control_request on complete (suppress_next_request d) in
        count_if f d'.enqueued
        ≡ count_if f d.enqueued
          + (if sent then (if f (power_control on complete true) then 1 else 0) else 0)
  unfolding send_power_control_request suppress_next_request
  send_power_control_request_count f on complete d =
      ground (arith, count_if-append_one f d.enqueued (power_control on complete true))

  pub send_active_power_control_request_count :
      (f : RadioCommand F → Bool) (limit : F) (type : PowerLimitControlType) (d : Device F)
      → ((l : F) (t : PowerLimitControlType) (b : Bool) → f (active_power_control l t b) ≡ false)
      → let d' = (send_active_power_control_request limit type (suppress_next_request d)).0 in
        count_if f d'.enqueued ≡ count_if f d.enqueued
  unfolding send_active_power_control_request suppress_next_request is_relativ
  send_active_power_control_request_count f limit type d none =
      let capped = if is_relativ type then float_min (fl.of_nat 100) limit else limit in
      ground (
        arith,
        none capped type true,
        count_if-append_one f d.enqueued (active_power_control capped type true),
      )

  pub send_active_power_control_request-limits :
      (limit : F) (type : PowerLimitControlType) (d : Device F)
      → let d' = (send_active_power_control_request limit type (suppress_next_request d)).0 in
        (limits d ≤ limits d') × (limits d' ≤ limits d + 1)
  unfolding send_active_power_control_request suppress_next_request is_relativ
  send_active_power_control_request-limits limit type d =
      let capped = if is_relativ type then float_min (fl.of_nat 100) limit else limit in
      ground (
        arith,
        count_if-append_one is_limit_command d.enqueued (active_power_control capped type true),
      )

  pub send_restart_control_request_count :
      (f : RadioCommand F → Bool) (d : Device F)
      → let (d', sent) = send_restart_control_request (suppress_next_request d) in
        (count_if f d'.enqueued
          ≡ count_if f d.enqueued
            + (if sent then (if f (restart_control true) then 1 else 0) else 0))
        × (sent ≡ d.enable_commands)
  unfolding send_restart_control_request suppress_next_request
  send_restart_control_request_count f d =
      ground (arith, count_if-append_one f d.enqueued (restart_control true))
