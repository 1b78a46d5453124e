-- ===== src/Hoymiles/History.antt =====
-- lib/Hoymiles/src/HoymilesRadio.cpp: the history of requests, in an array that is used as a ring.
pub mod Ring
use flux_dtu.Base.{
  ℕ, zero, suc, ◌+◌, ◌-◌, ◌%◌, Bool, true, false, List, [], ◌∷◌, Option, none, some, min, ◌==◌,
  if◌then◌else◌, u32,
}
use flux_dtu.Hoymiles.Command.{Command, CommandKind}

pub data RequestHistoryState : Type 0 where
  queued in_process success failed : RequestHistoryState

-- The command's name is given by its kind.
pub record RequestHistoryRecord : Type 0 where
  pub seq : ℕ  -- uint32
  pub queued_millis : ℕ  -- uint32
  pub sent_millis : ℕ  -- uint32
  pub updated_millis : ℕ  -- uint32
  pub serial : ℕ  -- uint64
  pub command : CommandKind
  pub retransmit : Bool
  pub state : RequestHistoryState

abbrev pub request_history_capacity : ℕ
request_history_capacity = 256

-- The array is a function of its index.
pub record RequestHistory : Type 0 where
  pub slots : ℕ → RequestHistoryRecord
  pub write : ℕ
  pub count : ℕ
  pub next_seq : ℕ  -- `_requestHistorySeq`, a uint32

-- the index of the record that is `i`-th in age
unfoldable pub index_of : RequestHistory → ℕ → ℕ
index_of h i = (h.write + request_history_capacity - h.count + i) % request_history_capacity

-- the loop of `findRequestHistoryRecord`, with `n` rounds left
find_from : RequestHistory → (seq n i : ℕ) → Option ℕ
unfolding index_of
find_from h seq zero i = none
find_from h seq (suc n) i =
    let rest = find_from h seq n (i + 1) in
    if (h.slots (index_of h i)).seq == seq then some (index_of h i) else rest

unfoldable pub find_request_history_record : RequestHistory → (seq : ℕ) → Option ℕ
unfolding find_from
find_request_history_record h seq = if seq == 0 then none else find_from h seq h.count 0

unfoldable pub write_slot : ℕ → RequestHistoryRecord → RequestHistory → RequestHistory
write_slot k r h = record h { slots = λ i. if i == k then r else h.slots i }

unfoldable pub append_record : RequestHistoryRecord → RequestHistory → RequestHistory
unfolding write_slot
append_record r h =
    let h' = write_slot h.write r h in
    record h' {
      write = (h.write + 1) % request_history_capacity;
      count = min (h.count + 1) request_history_capacity;
    }

-- The sequence number 0 is left out: it stands for a command with no record.
unfoldable pub record_queued_request_history :
    (now : ℕ) (retransmit : Bool) → Command → RequestHistory → RequestHistory × Command
record_queued_request_history now retransmit cmd h =
    let seq = h.next_seq in
    let next = u32 (seq + 1) in
    let r : RequestHistoryRecord = record {
      seq = seq;
      queued_millis = now;
      sent_millis = 0;
      updated_millis = now;
      serial = cmd.target_address;
      command = cmd.kind;
      retransmit = retransmit;
      state = queued;
    } in
    let h' = record h { next_seq = if next == 0 then 1 else next } in
    if cmd.suppress_request_history
    then (h, cmd)
    else (append_record r h', record cmd { request_history_seq = seq })

-- a record that is found gets a new state
unfoldable pub mark :
    (now : ℕ) → RequestHistoryState → (place : Option ℕ) → RequestHistory → RequestHistory
unfolding write_slot
mark now state none h = h
mark now state (some k) h =
    let r = h.slots k in
    write_slot k
      (record r {
        sent_millis = if r.sent_millis == 0 then now else r.sent_millis;
        updated_millis = now;
        state = state;
      })
      h

unfoldable pub mark_request_history_in_process :
    (now : ℕ) → Command → RequestHistory → RequestHistory × Command
mark_request_history_in_process now cmd h =
    let (h', cmd') =
      if cmd.request_history_seq == 0
      then record_queued_request_history now false cmd h
      else (h, cmd) in
    if cmd.suppress_request_history
    then (h, cmd)
    else (mark now in_process (find_request_history_record h' cmd'.request_history_seq) h', cmd')

unfoldable pub mark_request_history_finished :
    (now : ℕ) → Command → (ok : Bool) → RequestHistory → RequestHistory
mark_request_history_finished now cmd ok h =
    if cmd.suppress_request_history
    then h
    else mark now (if ok then success else failed)
        (find_request_history_record h cmd.request_history_seq) h

unfoldable pub mark_request_history_removed :
    (now : ℕ) → List Command → RequestHistory → RequestHistory
mark_request_history_removed now [] h = h
mark_request_history_removed now (c ∷ cs) h =
    mark_request_history_removed now cs (mark_request_history_finished now c false h)

-- the loop of `getRequestHistory`
unfoldable pub collect : (ℕ → RequestHistoryRecord) → (n start : ℕ) → List RequestHistoryRecord
collect slots zero start = []
collect slots (suc n) start = slots (start % request_history_capacity) ∷ collect slots n (start + 1)

unfoldable pub get_request_history : RequestHistory → List RequestHistoryRecord
unfolding collect
get_request_history h = collect h.slots h.count (h.write + request_history_capacity - h.count)
