-- ===== src/Hoymiles/History/Ring.antt =====
-- The ring implements a list of the latest records.
use flux_dtu.Base.{
  ℕ, zero, suc, ◌+◌, ◌-◌, ◌%◌, ◌≤◌, ◌<◌, ◌≡◌, refl, Bool, true, [], ◌∷◌, ◌++◌, arith, drop, ltb,
  ◌==◌, u32, if◌then◌else◌, length, inl, inr, Bool-cases,
}
use flux_dtu.Hoymiles.Command.{Command}
use flux_dtu.Hoymiles.History.{
  RequestHistory, RequestHistoryRecord, append_record, write_slot, collect, get_request_history,
  record_queued_request_history, request_history_capacity, queued,
}

-- The next record is written inside of the array, no more records count than it holds, and the next
-- sequence number fits its 32 bits.
pub record IsRing (h : RequestHistory) : Type 0 where
  pub write_lt : h.write < request_history_capacity
  pub count_le : h.count ≤ request_history_capacity
  pub next_seq_lt : h.next_seq < 4_294_967_296

collect_ext :
    (s s' : ℕ → RequestHistoryRecord) (n a b : ℕ)
    → ((j : ℕ) → j < n → s ((a + j) % 256) ≡ s' ((b + j) % 256))
    → collect s n a ≡ collect s' n b
unfolding collect
collect_ext s s' zero a b h = refl
collect_ext s s' (suc n) a b h = ground (
  arith,
  h 0 (omega arith),
  collect_ext s s' n (a + 1) (b + 1) (λ j p. ground (arith, h (suc j) (omega arith))),
)

collect_snoc :
    (s : ℕ → RequestHistoryRecord) (n a : ℕ)
    → collect s (suc n) a ≡ collect s n a ++ (s ((a + n) % 256) ∷ [])
unfolding collect
collect_snoc s zero a = ground arith
collect_snoc s (suc n) a = ground (arith, collect_snoc s n (a + 1))

pub length-collect : (s : ℕ → RequestHistoryRecord) (n a : ℕ) → length (collect s n a) ≡ n
unfolding collect
length-collect s zero a = refl
length-collect s (suc n) a = omega (arith, length-collect s n (a + 1))

collect_at :
    (s : ℕ → RequestHistoryRecord) (n n' a a' : ℕ)
    → n ≡ n'
    → a ≡ a'
    → collect s n a ≡ collect s n' a'
collect_at s n n' a a' p q = rw (p, q) refl

append_record-some_free :
    (r : RequestHistoryRecord) (h : RequestHistory)
    → IsRing h
    → h.count < 256
    → get_request_history (append_record r h) ≡ get_request_history h ++ (r ∷ [])
unfolding get_request_history append_record write_slot
append_record-some_free r h ring lt =
    let s : ℕ → RequestHistoryRecord = λ i. if i == h.write then r else h.slots i in
    let a = (h.write + 1) % 256 + 256 - (h.count + 1) in
    ground (
      arith,
      ring.write_lt,
      collect_snoc s h.count a,
      collect_ext s h.slots h.count a (h.write + 256 - h.count)
          (λ j p. ground (arith, ring.write_lt)),
    )

module _ (r : RequestHistoryRecord) (h : RequestHistory) (full : h.count ≡ 256) where
  abbrev overwritten : ℕ → RequestHistoryRecord
  overwritten i = if i == h.write then r else h.slots i

  get_request_history-append_record :
      get_request_history (append_record r h) ≡ collect overwritten 256 ((h.write + 1) % 256)
  unfolding get_request_history append_record write_slot
  get_request_history-append_record =
      collect_at overwritten _ 256 _ _ (omega (arith, full)) (omega (arith, full))

  get_request_history-full : get_request_history h ≡ collect h.slots 256 h.write
  unfolding get_request_history
  get_request_history-full = collect_at h.slots h.count 256 _ h.write full (omega (arith, full))

  drop-collect : drop 1 (collect h.slots 256 h.write) ≡ collect h.slots 255 (h.write + 1)
  unfolding collect
  drop-collect = refl

  append_record-full :
      IsRing h
      → get_request_history (append_record r h) ≡ drop 1 (get_request_history h) ++ (r ∷ [])
  append_record-full ring =
      rw (get_request_history-append_record, get_request_history-full, drop-collect)
        (ground (
          arith,
          ring.write_lt,
          collect_snoc overwritten 255 ((h.write + 1) % 256),
          collect_ext overwritten h.slots 255 ((h.write + 1) % 256) (h.write + 1)
              (λ j p. ground (arith, ring.write_lt)),
        ))

append_record-IsRing :
    (r : RequestHistoryRecord) (h : RequestHistory) → IsRing h → IsRing (append_record r h)
unfolding append_record write_slot
append_record-IsRing r h ring = record {
  write_lt = omega arith;
  count_le = omega arith;
  next_seq_lt = ring.next_seq_lt;
}

pub length-get_request_history : (h : RequestHistory) → length (get_request_history h) ≡ h.count
unfolding get_request_history
length-get_request_history h = length-collect h.slots h.count _

get_request_history-next_seq :
    (n : ℕ) (h : RequestHistory)
    → get_request_history (record h { next_seq = n }) ≡ get_request_history h
unfolding get_request_history
get_request_history-next_seq n h = refl

append_record_lem :
    (r : RequestHistoryRecord) (h : RequestHistory)
    → IsRing h
    → get_request_history (append_record r h)
      ≡ drop (length (get_request_history h) - 255) (get_request_history h) ++ (r ∷ [])
append_record_lem r h ring =
    rw (length-get_request_history h) (elim (Bool-cases (ltb h.count 256)) [
      | inl y ↦
          let e : h.count - 255 ≡ 0 = ground arith in
          rw e (append_record-some_free r h ring (ground arith))
      | inr n ↦
          let full : h.count ≡ 256 = ground (arith, ring.count_le) in
          let e : h.count - 255 ≡ 1 = omega (arith, full) in rw e (append_record-full r h full ring)
    ])

next_seq_lem :
    (seq : ℕ)
    → seq < 4_294_967_296
    → (if u32 (seq + 1) == 0 then 1 else u32 (seq + 1))
      ≡ (if seq == 4_294_967_295 then 1 else (seq + 1))
next_seq_lem seq p = ground (arith, p)

append_record-next_seq :
    (r : RequestHistoryRecord) (h : RequestHistory) → (append_record r h).next_seq ≡ h.next_seq
unfolding append_record
append_record-next_seq r h = refl

-- The array and its two counters implement a list of the latest records. Where a command is queued
-- whose requests are recorded, a record of it with the next sequence number, which the command
-- gets, is read last, behind all that were read before; only where that makes more than 256, the
-- oldest is gone. The number after it is the next one then, 1 behind the last of 32 bits. Where they
-- are not recorded, neither the history nor the command changes. The ring stays one, so that any number of
-- records can follow.
pub record_queued_request_history_lem :
    (now : ℕ) (retransmit : Bool) (cmd : Command) (h : RequestHistory)
    → IsRing h
    → let (h', cmd') = record_queued_request_history now retransmit cmd h in
      let list = get_request_history h in
      IsRing h'
      × (cmd'.request_history_seq
          ≡ (if cmd.suppress_request_history then cmd.request_history_seq else h.next_seq))
      × (h'.next_seq ≡ (
          if cmd.suppress_request_history
          then h.next_seq
          else if h.next_seq == 4_294_967_295
          then 1
          else (h.next_seq + 1)))
      × (cmd.suppress_request_history ≡ true → (h' ≡ h) × (cmd' ≡ cmd))
      × (get_request_history h' ≡ (
          if cmd.suppress_request_history
          then list
          else drop (length list - 255) list
            ++ (record {
              seq = h.next_seq;
              queued_millis = now;
              sent_millis = 0;
              updated_millis = now;
              serial = cmd.target_address;
              command = cmd.kind;
              retransmit = retransmit;
              state = queued;
            }
                ∷ [])))
unfolding record_queued_request_history
record_queued_request_history_lem now retransmit cmd h ring =
    let seq = h.next_seq in
    let next = u32 (seq + 1) in
    let h' : RequestHistory = record h { next_seq = if next == 0 then 1 else next } in
    let ring' : IsRing h' = record {
      write_lt = ring.write_lt;
      count_le = ring.count_le;
      next_seq_lt = ground arith;
    } in
    let r : RequestHistoryRecord = record {
      seq = seq;
      queued_millis = now;
      sent_millis = 0;
      updated_millis = now;
      serial = cmd.target_address;
      command = cmd.kind;
      retransmit = retransmit;
      state = queued;
    } in
    elim (Bool-cases cmd.suppress_request_history) [
      | inl y ↦ ground (arith, ring)
      | inr n ↦ ground (
        arith,
        next_seq_lem h.next_seq ring.next_seq_lt,
        append_record-next_seq r h',
        append_record-IsRing r h' ring',
        append_record_lem r h' ring',
        get_request_history-next_seq (if next == 0 then 1 else next) h,
      )
    ]
