-- ===== src/Hoymiles/Radio/Enque.antt =====
-- What a new command does to the queue.
use flux_dtu.Base.{
  ℕ, ◌+◌, ◌<◌, ◌≡◌, ◌≢◌, refl, Bool, true, false, arith, head?, if◌then◌else◌, ◌==◌,
}
use flux_dtu.Hoymiles.Command.{
  Command, CommandKind, get_queue_insert_type, are_same_parameter, same_kind, remove_oldest,
  remove_newest, allow_multiple,
}
use flux_dtu.Hoymiles.Command.{
  hm_active_power_control, hms_active_power_control, active_power_control, power_control,
  real_time_run_data, system_config_para, alarm_data, dev_info_all, dev_info_simple,
  grid_on_pro_file_para, channel_change, request_frame,
}
use flux_dtu.Hoymiles.Device.{
  absolut_non_persistent, relativ_non_persistent, absolut_persistent, relativ_persistent,
}
use flux_dtu.Hoymiles.Queue.{remove_if, count_if, count_similar_commands}
use flux_dtu.Hoymiles.Queue.Order.{
  is_ordered, is_ordered-remove_if, is_ordered-push, is_ordered-insert_by_priority, count_if-push,
  count_if-insert_by_priority, count_if-remove_if, count_if_mono,
}
use flux_dtu.Hoymiles.History.{record_queued_request_history}
use flux_dtu.Hoymiles.Radio.{Radio, enque_command, enque_by_type, insert_command, remove_duplicates}
use flux_dtu.Hoymiles.Radio.Waiting.{
  waiting_of, front_is_there, is_displaced, push_priority_waiting, push_waiting,
  remove_duplicated_waiting,
}

-- A busy radio has its command in the queue, and what waits is in the order of priority.
pub record IsOrderly (r : Radio) : Type 0 where
  pub has_front : front_is_there r.busy_flag r.command_queue ≡ true
  pub ordered : is_ordered (waiting_of r.busy_flag r.command_queue) ≡ true

-- What is recorded of a command leaves its kind and its inverter as they are.
record_queued_keeps :
    (now : ℕ) (cmd : Command) (r : Radio)
    → let cmd' = (record_queued_request_history now false cmd r.history).1 in
      (cmd'.kind ≡ cmd.kind) × (cmd'.target_address ≡ cmd.target_address)
unfolding record_queued_request_history
record_queued_keeps now cmd r = ground arith

insert_command-IsOrderly :
    (now : ℕ) (cmd : Command) (r : Radio)
    → IsOrderly r
    → let r' = insert_command now cmd r in
      IsOrderly r'
      × (r'.busy_flag ≡ r.busy_flag)
      × (r.busy_flag ≡ true → head? r'.command_queue ≡ head? r.command_queue)
unfolding insert_command
insert_command-IsOrderly now cmd r h =
    let cmd' = (record_queued_request_history now false cmd r.history).1 in
    let queue = waiting_of r.busy_flag r.command_queue in
    ground (
      arith,
      h.has_front,
      h.ordered,
      record_queued_keeps now cmd r,
      push_priority_waiting cmd' r.busy_flag r.command_queue,
      push_waiting cmd' r.busy_flag r.command_queue,
      is_ordered-push cmd' queue,
      is_ordered-insert_by_priority cmd' queue,
    )

remove_duplicates-IsOrderly :
    (now : ℕ) (cmd : Command) (r : Radio)
    → IsOrderly r
    → let r' = remove_duplicates now cmd r in
      IsOrderly r'
      × (r'.busy_flag ≡ r.busy_flag)
      × (r.busy_flag ≡ true → head? r'.command_queue ≡ head? r.command_queue)
unfolding remove_duplicates
remove_duplicates-IsOrderly now cmd r h =
    let queue = waiting_of r.busy_flag r.command_queue in
    ground (
      arith,
      h.has_front,
      h.ordered,
      remove_duplicated_waiting cmd r.busy_flag r.command_queue,
      is_ordered-remove_if (is_displaced cmd) queue,
    )

-- The command that is being sent stays first, whatever is put in the queue meanwhile, and the
-- radio stays as busy as it was; behind it no command of high priority ever waits for another.
pub enque_command-IsOrderly :
    (now : ℕ) (cmd : Command) (r : Radio)
    → IsOrderly r
    → let r' = enque_command now cmd r in
      IsOrderly r'
      × (r'.busy_flag ≡ r.busy_flag)
      × (r.busy_flag ≡ true → head? r'.command_queue ≡ head? r.command_queue)
unfolding enque_command enque_by_type
enque_command-IsOrderly now cmd r h = ground (
  arith,
  insert_command-IsOrderly now cmd r h,
  remove_duplicates-IsOrderly now cmd r h,
  insert_command-IsOrderly now cmd (remove_duplicates now cmd r),
)

-- the commands that wait and are similar to the given one
abbrev pub similar_waiting : Command → Radio → ℕ
similar_waiting cmd r = count_if (are_same_parameter cmd) (waiting_of r.busy_flag r.command_queue)

abbrev for_target : ℕ → Command → Bool
for_target t c = c.target_address == t

-- the commands that wait for an inverter
abbrev pub waiting_for : (target_address : ℕ) → Radio → ℕ
waiting_for t r = count_if (for_target t) (waiting_of r.busy_flag r.command_queue)

same_kind_refl : (kind : CommandKind) → same_kind kind kind ≡ true
unfolding same_kind
same_kind_refl (active_power_control hm_active_power_control absolut_non_persistent) = refl
same_kind_refl (active_power_control hm_active_power_control relativ_non_persistent) = refl
same_kind_refl (active_power_control hm_active_power_control absolut_persistent) = refl
same_kind_refl (active_power_control hm_active_power_control relativ_persistent) = refl
same_kind_refl (active_power_control hms_active_power_control absolut_non_persistent) = refl
same_kind_refl (active_power_control hms_active_power_control relativ_non_persistent) = refl
same_kind_refl (active_power_control hms_active_power_control absolut_persistent) = refl
same_kind_refl (active_power_control hms_active_power_control relativ_persistent) = refl
same_kind_refl (power_control action true) = refl
same_kind_refl (power_control action false) = refl
same_kind_refl real_time_run_data = refl
same_kind_refl system_config_para = refl
same_kind_refl alarm_data = refl
same_kind_refl dev_info_all = refl
same_kind_refl dev_info_simple = refl
same_kind_refl grid_on_pro_file_para = refl
same_kind_refl channel_change = refl
same_kind_refl request_frame = refl

insert_command-count :
    (p : Command → Bool) (now : ℕ) (cmd : Command) (r : Radio)
    → IsOrderly r
    → let r' = insert_command now cmd r in
      let cmd' = (record_queued_request_history now false cmd r.history).1 in
      count_if p (waiting_of r'.busy_flag r'.command_queue)
      ≡ count_if p (waiting_of r.busy_flag r.command_queue) + (if p cmd' then 1 else 0)
unfolding insert_command
insert_command-count p now cmd r h =
    let cmd' = (record_queued_request_history now false cmd r.history).1 in
    let queue = waiting_of r.busy_flag r.command_queue in
    ground (
      arith,
      h.has_front,
      push_priority_waiting cmd' r.busy_flag r.command_queue,
      push_waiting cmd' r.busy_flag r.command_queue,
      count_if-push p cmd' queue,
      count_if-insert_by_priority p cmd' queue,
    )

insert_command-similar :
    (now : ℕ) (cmd : Command) (r : Radio)
    → IsOrderly r
    → similar_waiting cmd (insert_command now cmd r) ≡ similar_waiting cmd r + 1
unfolding are_same_parameter
insert_command-similar now cmd r h = ground (
  arith,
  insert_command-count (are_same_parameter cmd) now cmd r h,
  record_queued_keeps now cmd r,
  same_kind_refl cmd.kind,
)

insert_command-others :
    (t now : ℕ) (cmd : Command) (r : Radio)
    → IsOrderly r
    → t ≢ cmd.target_address
    → waiting_for t (insert_command now cmd r) ≡ waiting_for t r
insert_command-others t now cmd r h ne =
    ground (arith, insert_command-count (for_target t) now cmd r h, record_queued_keeps now cmd r)

remove_duplicates-similar :
    (now : ℕ) (cmd : Command) (r : Radio)
    → IsOrderly r
    → get_queue_insert_type cmd.kind ≡ remove_oldest
    → similar_waiting cmd (remove_duplicates now cmd r) ≡ 0
unfolding remove_duplicates
remove_duplicates-similar now cmd r h e =
    let queue = waiting_of r.busy_flag r.command_queue in
    let queue' = (remove_if (is_displaced cmd) queue).0 in
    ground (
      arith,
      h.has_front,
      remove_duplicated_waiting cmd r.busy_flag r.command_queue,
      count_if-remove_if (is_displaced cmd) (λ c. false) queue (λ c p. refl),
      count_if_mono (are_same_parameter cmd) (is_displaced cmd) queue' (λ c p. ground arith),
    )

remove_duplicates-others :
    (t now : ℕ) (cmd : Command) (r : Radio)
    → IsOrderly r
    → t ≢ cmd.target_address
    → waiting_for t (remove_duplicates now cmd r) ≡ waiting_for t r
unfolding remove_duplicates are_same_parameter
remove_duplicates-others t now cmd r h ne =
    let queue = waiting_of r.busy_flag r.command_queue in
    ground (
      arith,
      h.has_front,
      remove_duplicated_waiting cmd r.busy_flag r.command_queue,
      count_if-remove_if (is_displaced cmd) (for_target t) queue (λ c p. ground arith),
    )

-- Of a limit command, and of a power command that is done when it is sent, exactly one of its kind
-- waits after it has been put in the queue. A command of a kind that is dropped if one like it is in
-- the queue is dropped where one is, and else added to what waits; any other is always added. As
-- many commands wait for another inverter as before.
pub enque_command_once :
    (now : ℕ) (cmd : Command) (r : Radio)
    → IsOrderly r
    → let r' = enque_command now cmd r in
      let type = get_queue_insert_type cmd.kind in
      (type ≡ remove_oldest → similar_waiting cmd r' ≡ 1)
      × (type ≡ remove_newest → 0 < count_similar_commands cmd r.command_queue → r' ≡ r)
      × (type ≡ remove_newest
          → count_similar_commands cmd r.command_queue ≡ 0
          → similar_waiting cmd r' ≡ similar_waiting cmd r + 1)
      × (type ≡ allow_multiple → similar_waiting cmd r' ≡ similar_waiting cmd r + 1)
      × ((t : ℕ) → t ≢ cmd.target_address → waiting_for t r' ≡ waiting_for t r)
unfolding enque_command enque_by_type
enque_command_once now cmd r h =
    let cleared = remove_duplicates now cmd r in
    let orderly = (remove_duplicates-IsOrderly now cmd r h).0 in
    (
      λ e. ground (
        arith,
        remove_duplicates-similar now cmd r h e,
        insert_command-similar now cmd cleared orderly,
      ),
      λ e p. ground arith,
      λ e p. ground (arith, insert_command-similar now cmd r h),
      λ e. ground (arith, insert_command-similar now cmd r h),
      λ t ne. ground (
        arith,
        remove_duplicates-others t now cmd r h ne,
        insert_command-others t now cmd r h ne,
        insert_command-others t now cmd cleared orderly ne,
      ),
    )
