-- ===== src/Hoymiles/Cycle/Served.antt =====
-- One command keeps the radio busy for a bounded number of periods, whatever arrives meanwhile.
use flux_dtu.Base.{
  ℕ, ◌+◌, ◌≤◌, ◌<◌, ◌≡◌, inl, inr, refl, Bool, true, false, List, [], ◌∷◌, Option, none, some,
  arith, head?, tail, ◌==◌, if◌then◌else◌, Bool-cases,
}
use flux_dtu.Timeout.{occured}
use flux_dtu.Hoymiles.Command.{Command}
use flux_dtu.Hoymiles.Fragments.{
  RxFragments, add_rx_fragment, store_fragment, clear_rx_fragment_buffer,
}
use flux_dtu.Hoymiles.Fragments.Complete.{
  IsCollected, add_rx_fragment-IsCollected, clear_rx_fragment_buffer-IsCollected,
}
use flux_dtu.Hoymiles.Inverter.{Handler, RadioInverter}
use flux_dtu.Hoymiles.Radio.{awaits_reply, send_esb_packet}
use flux_dtu.Hoymiles.History.{
  RequestHistory, mark_request_history_in_process, record_queued_request_history,
}
use flux_dtu.Hoymiles.Queue.{count_similar_commands}
use flux_dtu.Hoymiles.Cycle.{
  World, put_inverter, handle_timeout, handle_front, handle_received_package, start_command,
  after_start, count_request,
}
use flux_dtu.Hoymiles.Cycle.Steps.{verify_all_fragments-IsCollected}
use flux_dtu.Hoymiles.Cycle.Periods.{
  IsServing, Progress, done, goes_on, budget, after_verify-Progress, verify_all_fragments_budget,
  max_resend_bound,
}

-- A frame as `addRxFragment` gets it.
pub record Frame : Type 0 where
  pub serial : ℕ
  pub bytes : List ℕ
  pub len : ℕ
  pub rssi : ℕ

add_rx_fragment-retransmit_cnt :
    (fragment : List ℕ) (len rssi : ℕ) (r : RxFragments)
    → (add_rx_fragment fragment len rssi r).retransmit_cnt ≡ r.retransmit_cnt
unfolding add_rx_fragment store_fragment
add_rx_fragment-retransmit_cnt fragment len rssi r = ground arith

-- What happens while the radio is busy: a frame arrives, or the radio's loop runs.
pub data Event : Type 0 where
  hears : Frame → Event
  runs : (now : ℕ) → (tx : ℕ → Bool) → Event

module _ {I : Type 0} (h : Handler I) where
  abbrev hear : Frame → Option (RadioInverter I) → World I → World I
  hear f none w = w
  hear f (some inv) w =
      put_inverter f.serial (record inv { rx = add_rx_fragment f.bytes f.len f.rssi inv.rx }) w

  abbrev happen : Event → World I → World I
  happen (hears f) w = hear f (w.inverters f.serial) w
  happen (runs now tx) w = handle_received_package h now tx w

  -- does the time to wait for a reply end with the event?
  abbrev expirations : Event → World I → ℕ
  expirations (hears f) w = 0
  expirations (runs now tx) w = if occured now w.radio.rx_timeout then 1 else 0

  -- until the radio is no longer busy: the world, and how often the time was over
  unfoldable pub serve : List Event → World I → World I × ℕ
  serve [] w = (w, 0)
  serve (e ∷ es) w =
      let (w', n) = serve es (happen e w) in
      if w.radio.busy_flag then (w', expirations e w + n) else (w, 0)

  serve-idle : (es : List Event) (w : World I) → w.radio.busy_flag ≡ false → serve es w ≡ (w, 0)
  unfolding serve
  serve-idle [] w b = refl
  serve-idle (e ∷ es) w b = ground arith

  handle_timeout-Progress :
      (now : ℕ) (cmd : Command) (inv : RadioInverter I) (w : World I)
      → IsServing cmd inv w
      → Progress cmd inv w (handle_timeout h now cmd (some inv) w)
  unfolding handle_timeout
  handle_timeout-Progress now cmd inv w s =
      let similar = count_similar_commands cmd w.radio.command_queue in
      let (resent, asked) = verify_all_fragments_budget h now similar cmd inv s.collected s.few in
      after_verify-Progress now _ cmd inv _ w s
        (verify_all_fragments-IsCollected h now similar cmd inv s.collected) resent asked

  hear-IsServing :
      (f : Frame) (found : Option (RadioInverter I)) (cmd : Command) (inv : RadioInverter I)
      (w : World I)
      → IsServing cmd inv w
      → w.inverters f.serial ≡ found
      → (inv' : RadioInverter I) × IsServing cmd inv' (hear f found w)
        × (inv'.rx.retransmit_cnt ≡ inv.rx.retransmit_cnt)
  unfolding put_inverter
  hear-IsServing f none cmd inv w s e = (inv, s, refl)
  hear-IsServing f (some other) cmd inv w s e =
      let heard = record other { rx = add_rx_fragment f.bytes f.len f.rssi other.rx } in
      elim (Bool-cases (cmd.target_address == f.serial)) [
        | inl y ↦
            let same_inverter : other ≡ inv = ground (arith, s.found) in
            let collected : IsCollected other.rx = rw same_inverter s.collected in
            (
              heard,
              record {
                busy = s.busy;
                front = s.front;
                found = ground arith;
                collected = add_rx_fragment-IsCollected f.bytes f.len f.rssi other.rx collected;
                few =
                    ground
                      (arith, s.few, add_rx_fragment-retransmit_cnt f.bytes f.len f.rssi other.rx);
              },
              ground (arith, add_rx_fragment-retransmit_cnt f.bytes f.len f.rssi other.rx),
            )
        | inr n ↦ (
          inv,
          record {
            busy = s.busy;
            front = s.front;
            found = ground (arith, s.found);
            collected = s.collected;
            few = s.few;
          },
          refl,
        )
      ]

  -- what the theorem says of a world from which the command is served
  abbrev IsServed : (limit : ℕ) → (rest : List Command) → World I × ℕ → Type 0
  IsServed limit rest (w, n) =
      (n ≤ limit)
      × (w.radio.busy_flag ≡ true → n < limit)
      × (w.radio.busy_flag ≡ false → w.radio.command_queue ≡ rest)

  hear-radio :
      (f : Frame) (found : Option (RadioInverter I)) (w : World I)
      → (hear f found w).radio ≡ w.radio
  unfolding put_inverter
  hear-radio f none w = refl
  hear-radio f (some inv) w = refl

  -- one run of the loop, while the command is served
  runs_lem :
      (now : ℕ) (tx : ℕ → Bool) (cmd : Command) (inv : RadioInverter I) (w : World I)
      → IsServing cmd inv w
      → handle_received_package h now tx w
        ≡ (if occured now w.radio.rx_timeout then handle_timeout h now cmd (some inv) w else w)
  unfolding handle_received_package handle_front
  runs_lem now tx cmd inv w s = rw (s.front, s.busy, s.found)

  serve-cons :
      (e : Event) (es : List Event) (w : World I)
      → w.radio.busy_flag ≡ true
      → let (w', n) = serve es (happen e w) in serve (e ∷ es) w ≡ (w', expirations e w + n)
  unfolding serve
  serve-cons e es w b = ground (arith, b)

  after_run :
      (now : ℕ) (es : List Event) (cmd : Command) (inv : RadioInverter I) (w w' : World I)
      → IsServing cmd inv w
      → Progress cmd inv w w'
      → ((cmd' : Command) (inv' : RadioInverter I)
          → IsServing cmd' inv' w'
          → IsServed (budget cmd' inv') (tail w'.radio.command_queue) (serve es w'))
      → let (w'', n) = serve es w' in
        IsServed (budget cmd inv) (tail w.radio.command_queue) (w'', 1 + n)
  after_run now es cmd inv w w' s (done b q) ih = ground (arith, serve-idle es w' b, s.few, b)
  after_run now es cmd inv w w' s (goes_on cmd' inv' s' q lt) ih = ground (arith, ih cmd' inv' s')

  serve-IsServed :
      (es : List Event) (cmd : Command) (inv : RadioInverter I) (w : World I)
      → IsServing cmd inv w
      → IsServed (budget cmd inv) (tail w.radio.command_queue) (serve es w)
  unfolding serve
  serve-IsServed [] cmd inv w s = ground (arith, s.busy, s.few)
  serve-IsServed (hears f ∷ es) cmd inv w s =
      let (inv', s', same_count) = hear-IsServing f (w.inverters f.serial) cmd inv w s refl in
      let heard = hear f (w.inverters f.serial) w in
      rw (serve-cons (hears f) es w s.busy) (
        ground (
          arith,
          serve-IsServed es cmd inv' heard s',
          same_count,
          hear-radio f (w.inverters f.serial) w,
        ))
  serve-IsServed (runs now tx ∷ es) cmd inv w s =
      elim (Bool-cases (occured now w.radio.rx_timeout)) [
        | inl y ↦
            rw (serve-cons (runs now tx) es w s.busy, runs_lem now tx cmd inv w s, y)
              (after_run now es cmd inv w (handle_timeout h now cmd (some inv) w) s
                (handle_timeout-Progress now cmd inv w s)
                (λ cmd' inv' s'. serve-IsServed es cmd' inv' _ s'))
        | inr n ↦
            rw (serve-cons (runs now tx) es w s.busy, runs_lem now tx cmd inv w s, n)
              (ground (arith, serve-IsServed es cmd inv w s))
      ]

  -- Once a command is being sent, the time to wait for its reply runs out a bounded number of times,
  -- whatever frames arrive in between and however the chip answers: at most as often as the attempts
  -- to send it that its class leaves, the requests for a fragment that are left of five, and one more
  -- make together, which is at most 27. If the time has run out as often as that, the radio is no longer busy; and when it is not, the
  -- command has left the queue, and no other has.
  pub serve_ends :
      (es : List Event) (cmd : Command) (inv : RadioInverter I) (w : World I)
      → IsServing cmd inv w
      → let (w', n) = serve es w in
        (n ≤ budget cmd inv)
        × (budget cmd inv ≤ 27)
        × (n ≡ budget cmd inv → w'.radio.busy_flag ≡ false)
        × (w'.radio.busy_flag ≡ false → w'.radio.command_queue ≡ tail w.radio.command_queue)
  serve_ends es cmd inv w s =
      ground (arith, serve-IsServed es cmd inv w s, max_resend_bound cmd.kind)

  mark_keeps :
      (now : ℕ) (cmd : Command) (history : RequestHistory)
      → let cmd' = (mark_request_history_in_process now cmd history).1 in
        (cmd'.kind ≡ cmd.kind) × (cmd'.target_address ≡ cmd.target_address)
  unfolding mark_request_history_in_process record_queued_request_history
  mark_keeps now cmd history = ground arith

  -- A radio that is not busy, with a command in front that awaits a reply, is serving that command
  -- after its next run.
  pub runs-IsServing :
      (now : ℕ) (tx : ℕ → Bool) (cmd : Command) (inv : RadioInverter I) (w : World I)
      → w.radio.busy_flag ≡ false
      → head? w.radio.command_queue ≡ some cmd
      → w.inverters cmd.target_address ≡ some inv
      → awaits_reply w.radio.type cmd.kind ≡ true
      → (cmd' : Command) × (inv' : RadioInverter I) × IsServing cmd' inv'
          (handle_received_package h now tx w)
        × (cmd'.kind ≡ cmd.kind)
        × (cmd'.target_address ≡ cmd.target_address)
  unfolding handle_received_package handle_front start_command after_start send_esb_packet
      put_inverter clear_rx_fragment_buffer
  runs-IsServing now tx cmd inv w b f e a =
      let (history, recorded) = mark_request_history_in_process now cmd w.radio.history in
      let cleared = record inv {
        rx = clear_rx_fragment_buffer inv.rx;
        radio_stats = count_request inv.radio_stats;
      } in
      let marked = w.radio in
      let (r, sent) = send_esb_packet now recorded (record marked { history = history }) in
      let keeps = mark_keeps now cmd w.radio.history in
      rw (f, b, e)
        (
          sent,
          cleared,
          record {
            busy = ground (arith, keeps);
            front = ground (arith, keeps);
            found = ground (arith, keeps);
            collected = clear_rx_fragment_buffer-IsCollected inv.rx;
            few = omega arith;
          },
          keeps.0,
          keeps.1,
        )
