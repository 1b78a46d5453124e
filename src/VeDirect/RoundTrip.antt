-- ===== src/VeDirect/RoundTrip.antt =====
-- The records of a frame that is sent are read from it.
use flux_dtu.Base.{
  ℕ, ◌+◌, ◌≤◌, ◌<◌, ◌≡◌, refl, ap, sym, ◌∙◌, inl, inr, Bool-cases, Bool, true, false, ◌&&◌, not,
  List, [], ◌∷◌, ◌++◌, arith, ◌==◌, u8, length, length-append, append-[], append_assoc, codes,
  same_text,
}
use flux_dtu.VeDirect.{
  State, record_begin, record_name, record_value, record_checksum, TextData, FrameHandler, Derived,
  rx_all, rx_data, rx_text, rx_begin, rx_name, rx_value, rx_switch, enter_hex, is_valid_char,
  toupper, put, read_name,
}
use flux_dtu.VeDirect.Print.{
  upper, length-upper, kept, is_plain, all_plain, IsField, Fields, no_fields, field, print_fields,
  records, sum_up,
}

length-snoc : (xs : List ℕ) (x : ℕ) → length (xs ++ (x ∷ [])) ≡ length xs + 1
length-snoc xs x = length-append xs (x ∷ [])

bytes_of-append :
    (first : ℕ) (name value : List ℕ) (fs : Fields) (rest : List ℕ)
    → (first ∷ (name ++ 9 ∷ (value ++ 13 ∷ 10 ∷ print_fields fs))) ++ rest
      ≡ first ∷ (name ++ 9 ∷ (value ++ 13 ∷ 10 ∷ (print_fields fs ++ rest)))
bytes_of-append first name value fs rest =
    rw
      (
        append_assoc name (9 ∷ (value ++ 13 ∷ 10 ∷ print_fields fs)) rest,
        append_assoc value (13 ∷ 10 ∷ print_fields fs) rest,
      )
      refl

pub sum_up-append : (xs ys : List ℕ) (sum : ℕ) → sum_up sum (xs ++ ys) ≡ sum_up (sum_up sum xs) ys
sum_up-append [] ys sum = refl
sum_up-append (x ∷ xs) ys sum = sum_up-append xs ys (u8 (sum + x))

sum_up-field :
    (first : ℕ) (name value : List ℕ) (fs : Fields) (sum : ℕ)
    → sum_up sum (first ∷ (name ++ 9 ∷ (value ++ 13 ∷ 10 ∷ print_fields fs)))
      ≡ sum_up
          (u8 (u8 (sum_up (u8 (sum_up (u8 (sum + first)) name + 9)) value + 13) + 10))
          (print_fields fs)
sum_up-field first name value fs sum =
    sum_up-append name (9 ∷ (value ++ 13 ∷ 10 ∷ print_fields fs)) (u8 (sum + first))
    ∙ sum_up-append value (13 ∷ 10 ∷ print_fields fs) (u8 (sum_up (u8 (sum + first)) name + 9))

-- the buffers after some records
abbrev pub last_name : Fields → List ℕ → List ℕ
last_name no_fields name = name
last_name (field first name value p fs) name0 = last_name fs (toupper first ∷ kept name)

abbrev pub last_value : Fields → List ℕ → List ℕ
last_value no_fields value = value
last_value (field first name value p fs) value0 = last_value fs (upper value)

abbrev pub last_ended : Fields → Bool → Bool
last_ended no_fields ended = ended
last_ended (field first name value p fs) ended0 = last_ended fs true

module _ {T : Type 0} (d : Derived T) (now : ℕ) (base : FrameHandler T) where
  abbrev pub at :
      State
      → (name : List ℕ) (ended : Bool) (value : List ℕ) (sum : ℕ) (text : List TextData)
      → FrameHandler T
  at s name ended value sum text = record base {
    state = s;
    name = name;
    name_ended = ended;
    value = value;
    checksum = sum;
    text_data = text;
    last_byte_millis = now;
  }

  rx_name_char :
      (b : ℕ) (name value : List ℕ) (ended : Bool) (sum : ℕ) (text : List TextData)
      → is_plain b && not (b == 35) ≡ true
      → length name < 33
      → rx_data d now b (at record_name name ended value sum text)
        ≡ at record_name (name ++ (toupper b ∷ [])) ended value (u8 (sum + b)) text
  unfolding rx_data enter_hex is_valid_char rx_switch rx_text rx_name put toupper
  rx_name_char b name value ended sum text p q = ground arith

  rx_name_sign :
      (b : ℕ) (name value : List ℕ) (ended : Bool) (sum : ℕ) (text : List TextData)
      → b == 35 ≡ true
      → rx_data d now b (at record_name name ended value sum text)
        ≡ at record_name name ended value (u8 (sum + b)) text
  unfolding rx_data enter_hex is_valid_char rx_switch rx_text rx_name toupper
  rx_name_sign b name value ended sum text p = ground (arith, p)

  rx_name_tab :
      (name value : List ℕ) (ended : Bool) (sum : ℕ) (text : List TextData)
      → length name < 33
      → same_text name (codes "CHECKSUM") ≡ false
      → rx_data d now 9 (at record_name name ended value sum text)
        ≡ at record_value name true [] (u8 (sum + 9)) text
  unfolding rx_data enter_hex is_valid_char rx_switch rx_text rx_name toupper
  rx_name_tab name value ended sum text p q = ground arith

  rx_value_char :
      (b : ℕ) (name value : List ℕ) (sum : ℕ) (text : List TextData)
      → is_plain b ≡ true
      → length value < 33
      → rx_data d now b (at record_value name true value sum text)
        ≡ at record_value name true (value ++ (toupper b ∷ [])) (u8 (sum + b)) text
  unfolding rx_data enter_hex is_valid_char rx_switch rx_text rx_value put toupper
  rx_value_char b name value sum text p q = ground arith

  -- the loop, at one byte
  pub rx_all-step :
      (b : ℕ) (bs : List ℕ) (h : FrameHandler T) (s : State) (name value : List ℕ) (ended : Bool)
      (sum : ℕ) (text : List TextData)
      → rx_data d now b h ≡ at s name ended value sum text
      → rx_all d now (b ∷ bs) h ≡ rx_all d now bs (at s name ended value sum text)
  unfolding rx_all
  rx_all-step b bs h s name value ended sum text e = rw e refl

  rx_name_chars :
      (cs rest name value : List ℕ) (ended : Bool) (sum : ℕ) (text : List TextData)
      → all_plain cs ≡ true
      → length name + length (kept cs) ≤ 33
      → rx_all d now (cs ++ rest) (at record_name name ended value sum text)
        ≡ rx_all d now rest (at record_name (name ++ kept cs) ended value (sum_up sum cs) text)
  rx_name_chars [] rest name value ended sum text p q = rw (append-[] name) refl
  rx_name_chars (c ∷ cs) rest name value ended sum text p q = elim (Bool-cases (c == 35)) [
    | inl sign ↦
        let kept_same : kept (c ∷ cs) ≡ kept cs = rw sign refl in
        rx_all-step c (cs ++ rest) _ record_name name value ended _ text
          (rx_name_sign c name value ended sum text sign)
        ∙ rx_name_chars cs rest name value ended (u8 (sum + c)) text (ground (arith, p))
            (ground (arith, q, ap length kept_same))
        ∙ ap
            (λ l.
              rx_all d now rest
                (at record_name (name ++ l) ended value (sum_up (u8 (sum + c)) cs) text))
            (sym kept_same)
    | inr other ↦
        let kept_one : kept (c ∷ cs) ≡ toupper c ∷ kept cs = rw other refl in
        rx_all-step c (cs ++ rest) _ record_name (name ++ (toupper c ∷ [])) value ended _ text (
          rx_name_char c name value ended sum text (ground (arith, p, other))
            (ground (arith, q, ap length kept_one)))
        ∙ rx_name_chars cs rest (name ++ (toupper c ∷ [])) value ended (u8 (sum + c)) text
            (ground (arith, p))
            (ground (arith, q, ap length kept_one, length-snoc name (toupper c)))
        ∙ ap (λ l. rx_all d now rest (at record_name l ended value (sum_up (u8 (sum + c)) cs) text))
            (append_assoc name (toupper c ∷ []) (kept cs))
        ∙ ap
            (λ l.
              rx_all d now rest
                (at record_name (name ++ l) ended value (sum_up (u8 (sum + c)) cs) text))
            (sym kept_one)
  ]

  rx_value_chars :
      (cs rest name value : List ℕ) (sum : ℕ) (text : List TextData)
      → all_plain cs ≡ true
      → length value + length cs ≤ 33
      → rx_all d now (cs ++ rest) (at record_value name true value sum text)
        ≡ rx_all d now rest (at record_value name true (value ++ upper cs) (sum_up sum cs) text)
  rx_value_chars [] rest name value sum text p q = rw (append-[] value) refl
  rx_value_chars (c ∷ cs) rest name value sum text p q =
      rx_all-step c (cs ++ rest) _ record_value name (value ++ (toupper c ∷ [])) true _ text
        (rx_value_char c name value sum text (ground (arith, p)) (omega (arith, q)))
      ∙ rx_value_chars cs rest name (value ++ (toupper c ∷ [])) (u8 (sum + c)) text
          (ground (arith, p)) (omega (arith, q, length-snoc value (toupper c)))
      ∙ ap (λ l. rx_all d now rest (at record_value name true l (sum_up (u8 (sum + c)) cs) text))
          (append_assoc value (toupper c ∷ []) (upper cs))

  -- the carriage return and the line feed behind a value
  rx_line_end :
      (rest name value : List ℕ) (sum : ℕ) (text : List TextData)
      → length value < 33
      → rx_all d now (13 ∷ 10 ∷ rest) (at record_value name true value sum text)
        ≡ rx_all d now rest (
            at record_begin name true value
              (u8 (u8 (sum + 13) + 10))
              (text ++ (record { name = name; value = value } ∷ [])))
  unfolding rx_all rx_data enter_hex is_valid_char rx_switch rx_text rx_value put toupper read_name
  rx_line_end rest name value sum text p = ground (arith, p)

  rx_begin_char :
      (b : ℕ) (name value : List ℕ) (ended : Bool) (sum : ℕ) (text : List TextData)
      → is_plain b ≡ true
      → rx_data d now b (at record_begin name ended value sum text)
        ≡ at record_name (toupper b ∷ []) false value (u8 (sum + b)) text
  unfolding rx_data enter_hex is_valid_char rx_switch rx_text rx_begin toupper
  rx_begin_char b name value ended sum text p = ground arith

  -- a name, its tab, a value and the end of the line
  rx_field :
      (first : ℕ) (name value rest name0 value0 : List ℕ) (ended0 : Bool) (sum : ℕ)
      (text : List TextData)
      → IsField first name value
      → rx_all d now
          (first ∷ (name ++ 9 ∷ (value ++ 13 ∷ 10 ∷ rest)))
          (at record_begin name0 ended0 value0 sum text)
        ≡ rx_all d now rest (
            at record_begin
              (toupper first ∷ kept name)
              true
              (upper value)
              (u8 (u8 (sum_up (u8 (sum_up (u8 (sum + first)) name + 9)) value + 13) + 10))
              (text ++ (record { name = toupper first ∷ kept name; value = upper value } ∷ [])))
  rx_field first name value rest name0 value0 ended0 sum text p =
      let sum_name = sum_up (u8 (sum + first)) name in
      let full = toupper first ∷ kept name in
      rx_all-step first _ _ record_name (toupper first ∷ []) value0 false _ text
        (rx_begin_char first name0 value0 ended0 sum text p.first_plain)
      ∙ rx_name_chars name _ (toupper first ∷ []) value0 false _ text p.name_plain
          (ground (arith, p.name_short))
      ∙ rx_all-step 9 _ _ record_value full [] true _ text (
          rx_name_tab full value0 false sum_name text (ground (arith, p.name_short)) p.not_checksum)
      ∙ rx_value_chars value _ full [] (u8 (sum_name + 9)) text p.value_plain
          (ground (arith, p.value_short))
      ∙ rx_line_end rest full (upper value) _ text
          (ground (arith, p.value_short, length-upper value))

  pub rx_fields :
      (fs : Fields) (rest name value : List ℕ) (ended : Bool) (sum : ℕ) (text : List TextData)
      → rx_all d now (print_fields fs ++ rest) (at record_begin name ended value sum text)
        ≡ rx_all d now rest (
            at record_begin
              (last_name fs name)
              (last_ended fs ended)
              (last_value fs value)
              (sum_up sum (print_fields fs))
              (text ++ records fs))
  rx_fields no_fields rest name value ended sum text = rw (append-[] text) refl
  rx_fields (field first n v p fs) rest name value ended sum text =
      let r : TextData = record { name = toupper first ∷ kept n; value = upper v } in
      ap (λ bytes. rx_all d now bytes (at record_begin name ended value sum text))
        (bytes_of-append first n v fs rest)
      ∙ rx_field first n v (print_fields fs ++ rest) name value ended sum text p
      ∙ rx_fields fs rest (toupper first ∷ kept n) (upper v) true _ (text ++ (r ∷ []))
      ∙ rw (append_assoc text (r ∷ []) (records fs), sum_up-field first n v fs sum) refl

  pub rx_checksum_name :
      (rest name value : List ℕ) (ended : Bool) (sum : ℕ) (text : List TextData)
      → rx_all d now (codes "Checksum\t" ++ rest) (at record_begin name ended value sum text)
        ≡ rx_all d now rest (
            at record_checksum (codes "CHECKSUM") true value (sum_up sum (codes "Checksum\t")) text)
  unfolding rx_all rx_data enter_hex is_valid_char rx_switch rx_text rx_begin rx_name toupper put
      same_text
  rx_checksum_name rest name value ended sum text = refl
