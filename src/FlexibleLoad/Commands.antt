-- ===== src/FlexibleLoad/Commands.antt =====
-- src/FlexibleLoad.cpp: the commands to a load, and the changes of its state that go with them.
use flux_dtu.Base.{
  ℕ, ◌*◌, Bool, true, false, ◌&&◌, not, Option, none, some, List, [], ◌∷◌, ltb, leb, ◌==◌, max,
  if◌then◌else◌, sub32, u32,
}
use flux_dtu.Float.{Float}
use flux_dtu.FlexibleLoad.State.{
  LoadState, disabled, off, waiting_for_start, starting, running_min_time, running, cooldown,
  StartReason, no_reason, not_blocked, mqtt_topic_missing, mqtt_disconnected, StopReason, no_stop,
  LoadConfig, Readings, Runtime,
}

abbrev pub state_index : LoadState → ℕ
state_index disabled = 0
state_index off = 1
state_index waiting_for_start = 2
state_index starting = 3
state_index running_min_time = 4
state_index running = 5
state_index cooldown = 6

abbrev pub same_state : LoadState → LoadState → Bool
same_state a b = state_index a == state_index b

abbrev pub is_running_state : LoadState → Bool
is_running_state starting = true
is_running_state running_min_time = true
is_running_state running = true
is_running_state _ = false

abbrev pub is_empty : List ℕ → Bool
is_empty [] = true
is_empty (c ∷ cs) = false

-- the payload that a state repeats: whether it is that for "on"
abbrev pub get_periodic_command_payload : LoadState → Option Bool
get_periodic_command_payload starting = some true
get_periodic_command_payload running_min_time = some true
get_periodic_command_payload running = some true
get_periodic_command_payload off = some false
get_periodic_command_payload waiting_for_start = some false
get_periodic_command_payload cooldown = some false
get_periodic_command_payload disabled = none

-- a delay in seconds has passed
abbrev pub has_passed : (now since seconds : ℕ) → Bool
has_passed now since seconds = leb (seconds * 1000) (sub32 now since)

module _ {F : Type 0} where
  abbrev pub is_running : Runtime F → Bool
  is_running rt = is_running_state rt.current_state

  unfoldable pub set_state : Readings F → LoadState → Runtime F → Runtime F
  set_state e s rt = record rt {
    current_state = s;
    state_changed_millis =
        if same_state rt.current_state s then rt.state_changed_millis else e.millis;
  }

  -- what goes before and what is sent, in `publishCommand`
  unfoldable pub can_publish : Readings F → LoadConfig F → Bool
  can_publish e c = e.mqtt_connected && not (is_empty c.mqtt_topic)

  unfoldable pub publish_command : Readings F → (on : Bool) → LoadConfig F → Runtime F → Runtime F
  publish_command e on c rt = record rt {
    current_start_block_reason =
        if not e.mqtt_connected
        then mqtt_disconnected
        else if is_empty c.mqtt_topic
        then mqtt_topic_missing
        else rt.current_start_block_reason;
    last_command_publish = if can_publish e c then e.millis else rt.last_command_publish;
    published = if can_publish e c then some on else rt.published;
  }

  unfoldable pub publish_if :
      Readings F → (payload : Option Bool) → LoadConfig F → Runtime F → Runtime F
  publish_if e none c rt = rt
  publish_if e (some on) c rt =
      let interval = u32 (max 1 e.mqtt_publish_interval * 1000) in
      if not (rt.last_command_publish == 0) && ltb (sub32 e.now rt.last_command_publish) interval
      then rt
      else publish_command e on c rt

  unfoldable pub publish_periodic_command : Readings F → LoadConfig F → Runtime F → Runtime F
  publish_periodic_command e c rt =
      publish_if e (get_periodic_command_payload rt.current_state) c rt

  -- the assignments of `stopLoad`
  unfoldable pub stopped : Readings F → StopReason → Runtime F → Runtime F
  stopped e reason rt = set_state e cooldown (record rt {
    stop_reason = reason;
    start_candidate_since = 0;
    stop_candidate_since = 0;
    grid_charger_limit_stop_candidate_since = 0;
    bms_charge_limit_stop_candidate_since = 0;
    last_battery_energy_update = 0;
    start_candidate_reason = no_reason;
    current_start_reason = no_reason;
  })

  -- A load that cannot be reached goes on.
  unfoldable pub stop_load : Readings F → StopReason → LoadConfig F → Runtime F → Runtime F
  stop_load e reason c rt =
      let rt' = publish_command e false c rt in
      if can_publish e c then stopped e reason rt' else rt'

module _ {F : Type 0} ⦃fl : Float F⦄ where
  unfoldable pub reset_run_accounting : Runtime F → Runtime F
  reset_run_accounting rt = record rt {
    start_candidate_since = 0;
    stop_candidate_since = 0;
    grid_charger_limit_stop_candidate_since = 0;
    bms_charge_limit_stop_candidate_since = 0;
    load_started_millis = 0;
    last_battery_energy_update = 0;
    last_battery_support_state_persist = 0;
    battery_support_energy_wh = fl.of_nat 0;
    start_candidate_reason = no_reason;
    current_start_reason = no_reason;
    current_start_block_reason = not_blocked;
  }

  unfoldable pub started : Readings F → StartReason → Runtime F → Runtime F
  started e why rt = set_state e starting (record (reset_run_accounting rt) {
    current_start_reason = why;
    load_started_millis = e.millis;
    stop_reason = no_stop;
  })

  -- the runtime after `startLoad`, which returns whether the command could be published
  unfoldable pub start_load : Readings F → StartReason → LoadConfig F → Runtime F → Runtime F
  start_load e why c rt =
      let rt' = publish_command e true c rt in if can_publish e c then started e why rt' else rt'
