-- ===== src/Os/Event/State.antt =====
-- os/include/os_event.h, and the static state of os/src/os_event.c. A handler is the number of its
-- function (0 is NULL), a context a number.
use esp32_c6_gateway_os.Base.{ℕ, Bool, false, List, replicate}
use esp32_c6_gateway_os.Os.Types.{event_queue_size, max_subscribers}

-- The types of event that the program publishes.
abbrev pub event_zb_stack_up : ℕ
event_zb_stack_up = 4

abbrev pub event_zb_stack_down : ℕ
event_zb_stack_down = 5

abbrev pub event_zb_device_joined : ℕ
event_zb_device_joined = 6

abbrev pub event_zb_device_left : ℕ
event_zb_device_left = 7

abbrev pub event_zb_announce : ℕ
event_zb_announce = 8

abbrev pub event_zb_cmd_confirm : ℕ
event_zb_cmd_confirm = 12

abbrev pub event_zb_cmd_error : ℕ
event_zb_cmd_error = 13

abbrev pub event_cap_state_changed : ℕ
event_cap_state_changed = 14

abbrev pub event_cap_command : ℕ
event_cap_command = 15

abbrev pub event_persist_flush : ℕ
event_persist_flush = 16

abbrev pub event_type_max : ℕ
event_type_max = 255

abbrev pub event_payload_size : ℕ
event_payload_size = 32

-- `os_event_t`
pub record Event : Type 0 where
  pub type : ℕ
  pub timestamp : ℕ
  pub corr_id : ℕ
  pub src_id : ℕ
  pub payload_len : ℕ
  pub payload : List ℕ

unfoldable pub zero_payload : List ℕ
zero_payload = replicate event_payload_size 0

abbrev pub zero_event : Event
zero_event = record {
  type = 0;
  timestamp = 0;
  corr_id = 0;
  src_id = 0;
  payload_len = 0;
  payload = zero_payload;
}

-- `os_event_filter_t`
pub record Filter : Type 0 where
  pub type_min : ℕ
  pub type_max : ℕ

-- `subscriber_t`
pub record Subscriber : Type 0 where
  pub filter : Filter
  pub handler : ℕ
  pub ctx : ℕ
  pub active : Bool

abbrev pub zero_subscriber : Subscriber
zero_subscriber = record {
  filter = record { type_min = 0; type_max = 0 };
  handler = 0;
  ctx = 0;
  active = false;
}

-- `os_event_stats_t`
pub record Stats : Type 0 where
  pub events_published : ℕ
  pub events_dispatched : ℕ
  pub events_dropped : ℕ
  pub queue_high_water : ℕ
  pub current_queue_size : ℕ

abbrev pub zero_stats : Stats
zero_stats = record {
  events_published = 0;
  events_dispatched = 0;
  events_dropped = 0;
  queue_high_water = 0;
  current_queue_size = 0;
}

pub record Bus : Type 0 where
  pub initialized : Bool
  pub queue : List Event
  pub head : ℕ
  pub tail : ℕ
  pub count : ℕ
  pub subscribers : List Subscriber
  pub sub_count : ℕ
  pub stats : Stats
  pub next_corr_id : ℕ

-- The arrays as zeroed memory.
unfoldable pub zero_queue : List Event
zero_queue = replicate event_queue_size zero_event

unfoldable pub zero_subscribers : List Subscriber
zero_subscribers = replicate max_subscribers zero_subscriber

-- The static initialiser, and the effect of `memset (&bus, 0, sizeof (bus))`.
abbrev pub zero_bus : Bus
zero_bus = record {
  initialized = false;
  queue = zero_queue;
  head = 0;
  tail = 0;
  count = 0;
  subscribers = zero_subscribers;
  sub_count = 0;
  stats = zero_stats;
  next_corr_id = 0;
}
