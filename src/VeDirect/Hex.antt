-- ===== src/VeDirect/Hex.antt =====
-- A hex message between the bytes of a frame.
use flux_dtu.Base.{
  ℕ, ◌+◌, ◌≤◌, ◌<◌, ◌≡◌, refl, ap, ◌∙◌, true, false, ◌&&◌, ◌||◌, ltb, ◌==◌, if◌then◌else◌, List, [],
  ◌∷◌, ◌++◌, arith, length, length-append, append-[], append_assoc,
}
use flux_dtu.VeDirect.{
  record_hex, FrameHandler, Derived, rx_all, rx_data, rx_switch, handled, hex_received,
  hex_rx_event, enter_hex, is_valid_char, toupper, is_hex, is_checksum,
}
use flux_dtu.VeDirectHex.Sum.{sum_message, content, disassemble_hex_data_lem}
use flux_dtu.VeDirect.Print.{upper, length-upper, is_plain, all_plain}

module _ {T : Type 0} (d : Derived T) (now : ℕ) (base : FrameHandler T) where
  abbrev in_hex : (buffer : List ℕ) → FrameHandler T
  in_hex buffer = record base {
    prev_state = base.state;
    state = record_hex;
    hex_buffer = buffer;
    last_byte_millis = now;
  }

  rx_all-colon :
      (rest : List ℕ)
      → is_checksum base.state || is_hex base.state ≡ false
      → rx_all d now (58 ∷ rest) base ≡ rx_all d now rest (in_hex (58 ∷ []))
  unfolding rx_all rx_data enter_hex is_valid_char rx_switch hex_rx_event toupper
  rx_all-colon rest p = ground (arith, p)

  rx_data-in_hex :
      (b : ℕ) (buffer : List ℕ)
      → is_plain b ≡ true
      → length buffer < 99
      → rx_data d now b (in_hex buffer) ≡ in_hex (buffer ++ (toupper b ∷ []))
  unfolding rx_data enter_hex is_valid_char rx_switch hex_rx_event toupper
  rx_data-in_hex b buffer p q = ground (arith, length-append buffer (toupper b ∷ []))

  rx_all-in_hex_step :
      (b : ℕ) (rest buffer : List ℕ)
      → is_plain b ≡ true
      → length buffer < 99
      → rx_all d now (b ∷ rest) (in_hex buffer)
        ≡ rx_all d now rest (in_hex (buffer ++ (toupper b ∷ [])))
  unfolding rx_all
  rx_all-in_hex_step b rest buffer p q = rw (rx_data-in_hex b buffer p q) refl

  rx_all-in_hex :
      (cs rest buffer : List ℕ)
      → all_plain cs ≡ true
      → length buffer + length cs ≤ 99
      → rx_all d now (cs ++ rest) (in_hex buffer) ≡ rx_all d now rest (in_hex (buffer ++ upper cs))
  rx_all-in_hex [] rest buffer p q = rw (append-[] buffer) refl
  rx_all-in_hex (c ∷ cs) rest buffer p q =
      rx_all-in_hex_step c (cs ++ rest) buffer (ground (arith, p)) (omega (arith, q))
      ∙ rx_all-in_hex cs rest (buffer ++ (toupper c ∷ [])) (ground (arith, p))
          (omega (arith, q, length-append buffer (toupper c ∷ [])))
      ∙ ap (λ l. rx_all d now rest (in_hex l)) (append_assoc buffer (toupper c ∷ []) (upper cs))

  rx_all-line_feed :
      (buffer : List ℕ)
      → rx_all d now (10 ∷ []) (in_hex buffer) ≡ (record base {
        prev_state = base.state;
        hex_buffer = buffer;
        tmp_frame = hex_received d buffer base.tmp_frame;
        last_byte_millis = now;
      })
  unfolding rx_all rx_data enter_hex is_valid_char rx_switch hex_rx_event toupper
  rx_all-line_feed buffer = refl

hex_received_lem :
    {T : Type 0} (d : Derived T) (message : List ℕ) (t : T)
    → hex_received d (58 ∷ upper message) t ≡ (
        if ltb 2 (length message) && sum_message (upper message) == 85
        then handled d (content d.strtoul (upper message)) t
        else t)
unfolding hex_received
hex_received_lem d message t =
    rw (disassemble_hex_data_lem d.strtoul (upper message), length-upper message) (ground arith)

-- A hex message of at most 99 characters, the colon included, that comes while a frame is read, in
-- any of the states but that of the checksum byte and that of a hex message, is recorded in
-- capital letters. Where it has at least three characters behind the colon, whose response digit and
-- bytes sum up to 0x55 modulo 256, what is read of it, if anything, is handed to `hexDataHandler`; else
-- the data stays as it was. The frame goes on as it was: the state, the name and the value read so far,
-- the checksum and the records.
pub rx_all-hex :
    {T : Type 0} (d : Derived T) (now : ℕ) (h : FrameHandler T) (message : List ℕ)
    → is_checksum h.state || is_hex h.state ≡ false
    → all_plain message ≡ true
    → length message ≤ 98
    → rx_all d now (58 ∷ (message ++ 10 ∷ [])) h ≡ (record h {
      prev_state = h.state;
      hex_buffer = 58 ∷ upper message;
      tmp_frame =
          if ltb 2 (length message) && sum_message (upper message) == 85
          then handled d (content d.strtoul (upper message)) h.tmp_frame
          else h.tmp_frame;
      last_byte_millis = now;
    })
rx_all-hex d now h message p q r =
    rx_all-colon d now h (message ++ 10 ∷ []) p
    ∙ rx_all-in_hex d now h message (10 ∷ []) (58 ∷ []) q (omega (arith, r))
    ∙ rx_all-line_feed d now h (58 ∷ upper message)
    ∙ ap
        (λ t. record h {
          prev_state = h.state;
          hex_buffer = 58 ∷ upper message;
          tmp_frame = t;
          last_byte_millis = now;
        })
        (hex_received_lem d message h.tmp_frame)
