-- ===== src/Os/Event/Subscribe.antt =====
-- os/src/os_event.c: `os_event_subscribe`, `os_event_unsubscribe`, the statistics and the
-- correlation ids.
use esp32_c6_gateway_os.Base.{
  ℕ, Bool, true, false, not, ◌&&◌, ◌||◌, Option, none, some, ◌==◌, if◌then◌else◌, get_or, set,
  find_index, add32, sub32,
}
use esp32_c6_gateway_os.Os.Types.{Err, ok, invalid_arg, full, not_found, not_initialized}
use esp32_c6_gateway_os.Os.Event.State.{
  Filter, Subscriber, Stats, Bus, zero_subscriber, event_type_max,
}

abbrev pub is_free : Subscriber → Bool
is_free s = not s.active

abbrev pub is_active : Subscriber → Bool
is_active s = s.active

-- The filter of a subscription: everything, where the caller passes NULL.
abbrev pub filter_or_all : Option Filter → Filter
filter_or_all none = record { type_min = 0; type_max = event_type_max }
filter_or_all (some f) = f

abbrev pub subscriber : Option Filter → ℕ → ℕ → Subscriber
subscriber f handler ctx = record {
  filter = filter_or_all f;
  handler = handler;
  ctx = ctx;
  active = true;
}

unfoldable pub fill_slot : Bus → Subscriber → Option ℕ → Err × Bus
fill_slot b s none = (full, b)
fill_slot b s (some i) =
    (ok, record b { subscribers = set b.subscribers i s; sub_count = add32 b.sub_count 1 })

-- `os_event_subscribe`
unfoldable pub subscribe : Bus → Option Filter → ℕ → ℕ → Err × Bus
unfolding fill_slot
subscribe b f handler ctx =
    if not b.initialized
    then (not_initialized, b)
    else if handler == 0
    then (invalid_arg, b)
    else fill_slot b (subscriber f handler ctx) (find_index is_free b.subscribers)

abbrev pub is_of : ℕ → Subscriber → Bool
is_of handler s = s.active && s.handler == handler

abbrev pub deactivated : Subscriber → Subscriber
deactivated s = record s { active = false }

unfoldable pub clear_slot : Bus → Option ℕ → Err × Bus
clear_slot b none = (not_found, b)
clear_slot b (some i) = (
  ok,
  record b {
    subscribers = set b.subscribers i (deactivated (get_or b.subscribers i zero_subscriber));
    sub_count = sub32 b.sub_count 1;
  },
)

-- `os_event_unsubscribe`
unfoldable pub unsubscribe : Bus → ℕ → Err × Bus
unfolding clear_slot
unsubscribe b handler =
    if not b.initialized
    then (not_initialized, b)
    else clear_slot b (find_index (is_of handler) b.subscribers)

-- `os_event_get_stats`; the flag says whether the caller passes an address for the result.
unfoldable pub get_stats : Bus → Bool → Err × Option Stats
get_stats b out =
    let stats : Stats = b.stats in
    if not b.initialized || not out
    then (invalid_arg, none)
    else (ok, some (record stats { current_queue_size = b.count }))

-- `os_event_new_corr_id`
unfoldable pub new_corr_id : Bus → ℕ × Bus
new_corr_id b = (b.next_corr_id, record b { next_corr_id = add32 b.next_corr_id 1 })
