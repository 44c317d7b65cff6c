-- ===== src/Os/Event/Publish.antt =====
-- os/src/os_event.c: `os_event_init`, `os_event_publish` and `os_event_emit`. The static `bus` is the
-- record `Bus`; a function that changes it returns it anew, beside its result.
use esp32_c6_gateway_os.Base.{
  ℕ, zero, suc, ◌%◌, true, not, Option, none, some, List, [], ◌∷◌, ltb, leb, ◌==◌, if◌then◌else◌,
  length, set, add32,
}
use esp32_c6_gateway_os.Os.Types.{
  Err, ok, invalid_arg, full, already_exists, not_initialized, event_queue_size, Env,
}
use esp32_c6_gateway_os.Os.Event.State.{Event, Stats, Bus, zero_bus, event_payload_size}

unfoldable pub init : Bus → Err × Bus
init b =
    if b.initialized
    then (already_exists, b)
    else (ok, record zero_bus { next_corr_id = 1; initialized = true })

-- The event as it lies in its slot: the timestamp is set if it is 0.
abbrev pub stamped : Env → Event → Event
stamped e ev = if ev.timestamp == 0 then record ev { timestamp = e.now } else ev

unfoldable pub enqueue : Env → Bus → Event → Bus
enqueue e b ev =
    let count : ℕ = add32 b.count 1 in
    let stats : Stats = b.stats in
    record b {
      queue = set b.queue b.tail (stamped e ev);
      tail = add32 b.tail 1 % event_queue_size;
      count = count;
      stats = record stats {
        events_published = add32 stats.events_published 1;
        queue_high_water =
            if ltb stats.queue_high_water count then count else stats.queue_high_water;
      };
    }

unfoldable pub drop_event : Bus → Bus
drop_event b =
    let stats : Stats = b.stats in
    record b { stats = record stats { events_dropped = add32 stats.events_dropped 1 } }

unfoldable pub publish_event : Env → Bus → Event → Err × Bus
unfolding enqueue drop_event
publish_event e b ev =
    if leb event_queue_size b.count then (full, drop_event b) else (ok, enqueue e b ev)

-- `os_event_publish`; `none` is the NULL pointer.
unfoldable pub publish : Env → Bus → Option Event → Err × Bus
publish e b ev =
    if not b.initialized
    then (not_initialized, b)
    else elim ev [ none ↦ (invalid_arg, b) | some v ↦ publish_event e b v ]

-- `memcpy` of the bytes, 32 at most, into a zeroed array of `n`.
unfoldable pub copy_into : ℕ → List ℕ → List ℕ
copy_into zero bytes = []
copy_into (suc n) [] = 0 ∷ copy_into n []
copy_into (suc n) (x ∷ bytes) = x ∷ copy_into n bytes

unfoldable pub emitted : Env → ℕ → List ℕ → Event
unfolding copy_into
emitted e type bytes = record {
  type = type;
  timestamp = e.now;
  corr_id = 0;
  src_id = 0;
  payload_len = if ltb event_payload_size (length bytes) then event_payload_size else length bytes;
  payload = copy_into event_payload_size bytes;
}

-- `os_event_emit`: the list holds the bytes at `payload`, as many as `payload_len`; NULL, or a
-- length of 0, is the empty list.
unfoldable pub emit : Env → Bus → ℕ → List ℕ → Err × Bus
unfolding emitted
emit e b type bytes = publish e b (some (emitted e type bytes))
