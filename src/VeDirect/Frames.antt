-- ===== src/VeDirect/Frames.antt =====
-- What comes of a whole frame.
use flux_dtu.Base.{
  ℕ, ◌+◌, ◌≡◌, refl, ap, sym, ◌∙◌, Bool, true, false, ◌&&◌, ◌||◌, List, [], ◌∷◌, ◌++◌, Option, none,
  some, arith, ◌==◌, if◌then◌else◌, u8, append_assoc, codes,
}
use flux_dtu.VeDirect.{
  idle, record_begin, record_checksum, TextData, FrameHandler, Derived, BaseField, rx_all, rx_data,
  rx_text, rx_idle, rx_switch, rx_checksum, enter_hex, is_valid_char, toupper, reset, accept_frame,
  process_all, process_text_data, process_derived, process_base, base_field, is_voltage,
}
use flux_dtu.VeDirect.Print.{Fields, print_fields, print_body, records, sum_up}
use flux_dtu.VeDirect.RoundTrip.{at, rx_fields, rx_checksum_name, sum_up-append, last_value}

module _ {T : Type 0} (d : Derived T) where
  -- What one record does to the data: it is the derived class's, or a field of the base class.
  abbrev assigned : Option BaseField → (value : List ℕ) → T → T
  assigned none value t = t
  assigned (some f) value t = d.assign f value t

  abbrev absorbed : Option T → TextData → T → T
  absorbed (some t') r t = t'
  absorbed none r t = assigned (base_field r.name) r.value t

  abbrev pub absorb : List TextData → T → T
  absorb [] t = t
  absorb (r ∷ rs) t = absorb rs (absorbed (d.process_text_data_derived r.name r.value t) r t)

  -- whether the base class reads a voltage
  abbrev is_voltage_read : Option T → TextData → Bool
  is_voltage_read (some t') r = false
  is_voltage_read none r = is_voltage (base_field r.name)

  abbrev pub has_voltage : List TextData → T → Bool
  has_voltage [] t = false
  has_voltage (r ∷ rs) t =
      let read = d.process_text_data_derived r.name r.value t in
      is_voltage_read read r || has_voltage rs (absorbed read r t)

  process_base_lem :
      (f : Option BaseField) (r : TextData) (h : FrameHandler T)
      → process_base d f r h ≡ (record h {
        tmp_frame = assigned f r.value h.tmp_frame;
        frame_contains_field_v = is_voltage f || h.frame_contains_field_v;
      })
  unfolding process_base
  process_base_lem none r h = refl
  process_base_lem (some BaseField.pid) r h = refl
  process_base_lem (some BaseField.ser) r h = refl
  process_base_lem (some BaseField.fw) r h = refl
  process_base_lem (some BaseField.fwe) r h = refl
  process_base_lem (some BaseField.voltage) r h = refl
  process_base_lem (some BaseField.current) r h = refl

  process_derived_lem :
      (read : Option T) (r : TextData) (h : FrameHandler T)
      → process_derived d read r h ≡ (record h {
        tmp_frame = absorbed read r h.tmp_frame;
        frame_contains_field_v = is_voltage_read read r || h.frame_contains_field_v;
      })
  unfolding process_derived
  process_derived_lem (some t) r h = refl
  process_derived_lem none r h = process_base_lem (base_field r.name) r h

  or_assoc : (a b c : Bool) → b || (a || c) ≡ (a || b) || c
  or_assoc true true c = refl
  or_assoc true false c = refl
  or_assoc false true c = refl
  or_assoc false false c = refl

  process_all_lem :
      (rs : List TextData) (h : FrameHandler T)
      → process_all d rs h ≡ (record h {
        tmp_frame = absorb rs h.tmp_frame;
        frame_contains_field_v = has_voltage rs h.tmp_frame || h.frame_contains_field_v;
      })
  unfolding process_all process_text_data
  process_all_lem [] h = refl
  process_all_lem (r ∷ rs) h =
      let read = d.process_text_data_derived r.name r.value h.tmp_frame in
      ap (λ h'. process_all d rs h') (process_derived_lem read r h)
      ∙ process_all_lem rs _
      ∙ ap (λ v. record h { tmp_frame = absorb (r ∷ rs) h.tmp_frame; frame_contains_field_v = v })
          (or_assoc (is_voltage_read read r) (has_voltage rs (absorbed read r h.tmp_frame))
            h.frame_contains_field_v)

  pub accept_frame_lem :
      (now : ℕ) (h : FrameHandler T)
      → accept_frame d now h ≡ (
          let has_v = has_voltage h.text_data h.tmp_frame in
          let valid = has_v && h.start_up_passed in
          record h {
            tmp_frame = d.frame_valid_event (absorb h.text_data h.tmp_frame);
            frame_contains_field_v = has_v;
            last_update = if valid then now else h.last_update;
            data_valid = if valid then true else h.data_valid;
            start_up_passed = if has_v then true else h.start_up_passed;
          })
  unfolding accept_frame
  accept_frame_lem now h =
      rw
        (
          process_all_lem h.text_data (record h { frame_contains_field_v = false }),
          or_false (has_voltage h.text_data h.tmp_frame),
        )
        refl
    where
      or_false : (a : Bool) → a || false ≡ a
      or_false true = refl
      or_false false = refl

  rx_start :
      (now : ℕ) (bytes : List ℕ) (h : FrameHandler T)
      → rx_all d now (13 ∷ 10 ∷ bytes) (reset h)
        ≡ rx_all d now bytes (at d now h record_begin h.name h.name_ended h.value 23 [])
  unfolding rx_all rx_data enter_hex is_valid_char rx_switch rx_text rx_idle reset toupper
  rx_start now bytes h = refl

  rx_end :
      (now c : ℕ) (h : FrameHandler T) (name value : List ℕ) (ended : Bool) (sum : ℕ)
      (text : List TextData)
      → rx_all d now (c ∷ []) (at d now h record_checksum name ended value sum text)
        ≡ (record (rx_checksum d now
            (at d now h record_checksum name ended value (u8 (sum + c)) text)) {
              last_byte_millis = now;
            })
  unfolding rx_all rx_data enter_hex rx_switch
  rx_end now c h name value ended sum text = ground arith

  -- the bytes of a frame up to the byte of its checksum
  rx_body :
      (now : ℕ) (fs : Fields) (rest : List ℕ) (h : FrameHandler T)
      → rx_all d now (print_body fs ++ rest) (reset h)
        ≡ rx_all d now rest (
            at d now h record_checksum
              (codes "CHECKSUM")
              true
              (last_value fs h.value)
              (sum_up 0 (print_body fs))
              (records fs))
  rx_body now fs rest h =
      ap (λ bytes. rx_all d now (13 ∷ 10 ∷ bytes) (reset h))
        (append_assoc (print_fields fs) (codes "Checksum\t") rest)
      ∙ rx_start now _ h
      ∙ rx_fields d now h fs _ h.name h.value h.name_ended 23 []
      ∙ rx_checksum_name d now h rest _ _ _ _ _
      ∙ ap
          (λ sum. rx_all d now rest (
            at d now h record_checksum (codes "CHECKSUM") true (last_value fs h.value) sum
              (records fs)))
          (sym (sum_up-append (print_fields fs) (codes "Checksum\t") 23))

  -- the data after a frame
  abbrev pub RxFrame :
      (now : ℕ) (sum_right : Bool) (text : List TextData) (h h' : FrameHandler T) → Type 0
  RxFrame now sum_right text h h' =
      (h'.state ≡ idle)
      × (h'.checksum ≡ 0)
      × (h'.text_data ≡ [])
      × (h'.tmp_frame
          ≡ (if sum_right then d.frame_valid_event (absorb text h.tmp_frame) else h.tmp_frame))
      × (h'.last_update ≡ (
          if sum_right && has_voltage text h.tmp_frame && h.start_up_passed
          then now
          else h.last_update))
      × (h'.data_valid
          ≡ (sum_right && has_voltage text h.tmp_frame && h.start_up_passed) || h.data_valid)
      × (h'.start_up_passed ≡ (sum_right && has_voltage text h.tmp_frame) || h.start_up_passed)

  rx_checksum-RxFrame :
      (now : ℕ) (h0 : FrameHandler T) (name value : List ℕ) (ended : Bool) (sum : ℕ)
      (text : List TextData)
      → RxFrame now
          (sum == 0)
          text
          h0
          (record (rx_checksum d now (at d now h0 record_checksum name ended value sum text)) {
            last_byte_millis = now;
          })
  unfolding rx_checksum reset
  rx_checksum-RxFrame now h0 name value ended sum text =
      rw (accept_frame_lem now (at d now h0 record_checksum name ended value sum text))
        (ground arith)

  -- The records of a frame that is sent to a handler at rest are read from it, the names and values in
  -- capital letters and the names without the number signs behind their first character. If its bytes
  -- sum up to 0, the checksum byte included, the records are taken in their order, each by the derived class or
  -- as a field of the base class, and the frame is passed on; else the data stays as it was. The
  -- data becomes valid by a right frame with a voltage that is not the first such one after a start.
  -- The handler is at rest again.
  pub rx_all-print_body :
      (now c : ℕ) (fs : Fields) (h : FrameHandler T)
      → RxFrame now
          (sum_up 0 (print_body fs ++ (c ∷ [])) == 0)
          (records fs)
          h
          (rx_all d now (print_body fs ++ (c ∷ [])) (reset h))
  rx_all-print_body now c fs h =
      rw
        (
          rx_body now fs (c ∷ []) h,
          rx_end now c h (codes "CHECKSUM") (last_value fs h.value) true (sum_up 0 (print_body fs))
              (records fs),
          sum_up-append (print_body fs) (c ∷ []) 0,
        )
        (rx_checksum-RxFrame now h (codes "CHECKSUM") (last_value fs h.value) true
          (u8 (sum_up 0 (print_body fs) + c)) (records fs))
