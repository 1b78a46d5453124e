-- ===== src/Hoymiles/Receive/Parsed.antt =====
-- Which of the packets in the buffer are parsed.
use flux_dtu.Base.{
  ℕ, ◌≡◌, refl, Bool, true, false, ◌&&◌, not, List, [], ◌∷◌, Option, none, some, arith, length,
  iterate,
}
use flux_dtu.Timeout.{TimeoutHelper, occured}
use flux_dtu.Hoymiles.Inverter.{Handler, RadioInverter}
use flux_dtu.Hoymiles.Command.{Command}
use flux_dtu.Hoymiles.Cycle.{World, put_inverter, handle_received_package, handle_front}
use flux_dtu.Hoymiles.Receive.{
  Packet, Receiver, back, parse, parse_buffer, hand_over, add_to, loop, listens, receive_or_parse,
  get_inverter_by_fragment,
}

module _ {I : Type 0} where
  add_to-radio :
      (f : Packet) (serial : ℕ) (found : Option (RadioInverter I)) (w : World I)
      → (add_to f serial found w).radio ≡ w.radio
  unfolding add_to put_inverter
  add_to-radio f serial none w = refl
  add_to-radio f serial (some inv) w = refl

  hand_over-radio :
      (f : Packet) (found : Option ℕ) (w : World I) → (hand_over f found w).radio ≡ w.radio
  unfolding hand_over
  hand_over-radio f none w = refl
  hand_over-radio f (some serial) w = add_to-radio f serial _ w

  parse-radio : (serials : List ℕ) (f : Packet) (w : World I) → (parse serials f w).radio ≡ w.radio
  unfolding parse
  parse-radio serials f w = ground (arith, hand_over-radio f (get_inverter_by_fragment serials f) w)

  listens-busy : (w : World I) → w.radio.busy_flag ≡ true → listens w ≡ true
  unfolding listens
  listens-busy w b = ground (arith, b)

-- At none of the times the time to wait is over.
abbrev pub all_waiting : TimeoutHelper → List ℕ → Bool
all_waiting t [] = true
all_waiting t (now ∷ nows) = not (occured now t) && all_waiting t nows

module _ {I : Type 0} (h : Handler I) where
  front_waits :
      (now : ℕ) (tx : ℕ → Bool) (front : Option Command) (w : World I)
      → w.radio.busy_flag ≡ true
      → occured now w.radio.rx_timeout ≡ false
      → handle_front h now tx front w ≡ w
  unfolding handle_front
  front_waits now tx none w b t = refl
  front_waits now tx (some cmd) w b t = rw (b, t) refl

  waits :
      (now : ℕ) (tx : ℕ → Bool) (w : World I)
      → w.radio.busy_flag ≡ true
      → occured now w.radio.rx_timeout ≡ false
      → handle_received_package h now tx w ≡ w
  unfolding handle_received_package
  waits now tx w b t = front_waits now tx _ w b t

  -- one call of `loop` for each time, with nothing new from the chip
  abbrev pub loops : List ℕ → Receiver I → Receiver I
  loops [] r = r
  loops (now ∷ nows) r = loops nows (loop h now (λ n. true) [] r)

  loop-parse :
      (now : ℕ) (f : Packet) (fs : List Packet) (r : Receiver I)
      → r.rx_buffer ≡ f ∷ fs
      → r.packet_received ≡ false
      → r.world.radio.busy_flag ≡ true
      → occured now r.world.radio.rx_timeout ≡ false
      → loop h now (λ n. true) [] r
        ≡ record r { rx_buffer = fs; world = parse r.serials (back f fs) r.world }
  unfolding loop receive_or_parse parse_buffer
  loop-parse now f fs r e p b t =
      let w = parse r.serials (back f fs) r.world in
      let same = parse-radio r.serials (back f fs) r.world in
      let kept : handle_received_package h now (λ n. true) w ≡ w =
        waits now (λ n. true) w (rw same b) (rw same t) in
      rw (listens-busy r.world b, p, e, kept) refl

  -- While the radio waits for a reply and nothing new arrives, as many calls of `loop` as there are
  -- packets in the buffer empty it; but only the packet that arrived last is parsed, in each of the
  -- calls, and the others are dropped unread.
  pub loops-parse_last :
      (nows : List ℕ) (f : Packet) (fs : List Packet) (r : Receiver I)
      → r.rx_buffer ≡ f ∷ fs
      → r.packet_received ≡ false
      → r.world.radio.busy_flag ≡ true
      → length nows ≡ length (f ∷ fs)
      → all_waiting r.world.radio.rx_timeout nows ≡ true
      → ((loops nows r).rx_buffer ≡ [])
        × ((loops nows r).world ≡ iterate (length nows) (parse r.serials (back f fs)) r.world)
  unfolding back
  loops-parse_last [] f fs r e p b l t = absurd (omega (arith, l))
  loops-parse_last (now ∷ []) f [] r e p b l t =
      rw (loops, loop-parse now f [] r e p b (ground (arith, t))) (refl, refl)
  loops-parse_last (now ∷ now' ∷ nows) f [] r e p b l t = absurd (omega (arith, l))
  loops-parse_last (now ∷ nows) f (g ∷ fs) r e p b l t =
      let same = parse-radio r.serials (back g fs) r.world in
      rw (loops, loop-parse now f (g ∷ fs) r e p b (ground (arith, t)))
        (loops-parse_last nows g fs
          (record r { rx_buffer = g ∷ fs; world = parse r.serials (back g fs) r.world }) refl p
          (rw same b) (omega (arith, l)) (rw same (ground (arith, t))))
