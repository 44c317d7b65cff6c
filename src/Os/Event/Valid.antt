-- ===== src/Os/Event/Valid.antt =====
-- The invariant of the event bus, and that every operation of os/src/os_event.c keeps it.
use esp32_c6_gateway_os.Base.{
  ℕ, ◌+◌, ◌%◌, ◌^◌, ◌≤◌, ◌<◌, ◌≡◌, refl, sym, true, Option, none, some, List, arith, length,
  length-set, length-replicate, find_index, find_index-lt, find_index_sound, count_if, count_if-set,
  count_if-replicate, count_if-le-length, get_or, set, Option-cases, inl, inr,
}
use esp32_c6_gateway_os.Os.Types.{Env, event_queue_size, max_subscribers}
use esp32_c6_gateway_os.Os.Event.State.{
  Event, Filter, Subscriber, Bus, zero_bus, zero_event, zero_queue, zero_subscribers,
  zero_subscriber,
}
use esp32_c6_gateway_os.Os.Event.Publish.{
  init, enqueue, drop_event, publish, publish_event, emit, stamped,
}
use esp32_c6_gateway_os.Os.Event.Subscribe.{
  is_free, is_active, is_of, subscriber, deactivated, fill_slot, subscribe, clear_slot, unsubscribe,
  new_corr_id,
}
use esp32_c6_gateway_os.Os.Event.Dispatch.{advance_head}

pub record IsValid (b : Bus) : Type 0 where
  pub queue_length : length b.queue ≡ event_queue_size
  pub subs_length : length b.subscribers ≡ max_subscribers
  pub head_in : b.head < event_queue_size
  pub count_in : b.count ≤ event_queue_size
  pub tail_at : b.tail ≡ (b.head + b.count) % event_queue_size
  pub subs_counted : b.sub_count ≡ count_if is_active b.subscribers
  pub high_water : b.count ≤ b.stats.queue_high_water
  pub high_in : b.stats.queue_high_water ≤ event_queue_size
  -- every event that was published has been dispatched or is queued
  pub balance : b.stats.events_published ≡ (b.stats.events_dispatched + b.count) % 2 ^ 32

pub zero_bus-IsValid : IsValid zero_bus
unfolding zero_queue zero_subscribers
zero_bus-IsValid = record {
  queue_length = length-replicate event_queue_size zero_event;
  subs_length = length-replicate max_subscribers zero_subscriber;
  head_in = omega arith;
  count_in = omega arith;
  tail_at = refl;
  subs_counted = sym (count_if-replicate is_active max_subscribers zero_subscriber refl);
  high_water = omega arith;
  high_in = omega arith;
  balance = refl;
}

pub init-IsValid : (b : Bus) → IsValid b → IsValid (init b).1
unfolding init
init-IsValid b v = ground (arith, zero_bus-IsValid)

pub enqueue-IsValid :
    (e : Env) (b : Bus) (ev : Event)
    → b.count < event_queue_size
    → IsValid b
    → IsValid (enqueue e b ev)
unfolding enqueue
enqueue-IsValid e b ev h v = ground (arith, length-set b.queue b.tail (stamped e ev))

pub drop_event-IsValid : (b : Bus) → IsValid b → IsValid (drop_event b)
unfolding drop_event
drop_event-IsValid b v = ground arith

pub publish_event-IsValid :
    (e : Env) (b : Bus) (ev : Event) → IsValid b → IsValid (publish_event e b ev).1
unfolding publish_event
publish_event-IsValid e b ev v = ground (arith, enqueue-IsValid e b ev, drop_event-IsValid b)

pub publish-IsValid :
    (e : Env) (b : Bus) (ev : Option Event) → IsValid b → IsValid (publish e b ev).1
unfolding publish
publish-IsValid e b none v = ground arith
publish-IsValid e b (some ev) v = ground (arith, publish_event-IsValid e b ev v)

pub emit-IsValid :
    (e : Env) (b : Bus) (type : ℕ) (bytes : List ℕ) → IsValid b → IsValid (emit e b type bytes).1
unfolding emit
emit-IsValid e b type bytes v = publish-IsValid e b _ v

pub fill_slot-IsValid :
    (b : Bus) (s : Subscriber)
    → s.active ≡ true
    → IsValid b
    → IsValid (fill_slot b s (find_index is_free b.subscribers)).1
unfolding fill_slot
fill_slot-IsValid b s a v = elim (Option-cases (find_index is_free b.subscribers)) [
  | inl n ↦ rw n v
  | inr (i, found) ↦ rw found (filled i found)
]
  where
    filled :
        (i : ℕ) → find_index is_free b.subscribers ≡ some i → IsValid (fill_slot b s (some i)).1
    filled i found = ground (
      arith,
      length-set b.subscribers i s,
      find_index-lt is_free b.subscribers i found,
      find_index_sound is_free b.subscribers zero_subscriber i found,
      count_if-set is_active b.subscribers i s zero_subscriber,
      count_if-le-length is_active (set b.subscribers i s),
    )

pub subscribe-IsValid :
    (b : Bus) (f : Option Filter) (handler ctx : ℕ)
    → IsValid b
    → IsValid (subscribe b f handler ctx).1
unfolding subscribe
subscribe-IsValid b f handler ctx v =
    ground (arith, fill_slot-IsValid b (subscriber f handler ctx) refl v)

pub clear_slot-IsValid :
    (b : Bus) (handler : ℕ)
    → IsValid b
    → IsValid (clear_slot b (find_index (is_of handler) b.subscribers)).1
unfolding clear_slot
clear_slot-IsValid b handler v = elim (Option-cases (find_index (is_of handler) b.subscribers)) [
  | inl n ↦ rw n v
  | inr (i, found) ↦ rw found (cleared i found)
]
  where
    old : ℕ → Subscriber
    old i = get_or b.subscribers i zero_subscriber

    cleared :
        (i : ℕ)
        → find_index (is_of handler) b.subscribers ≡ some i
        → IsValid (clear_slot b (some i)).1
    cleared i found = ground (
      arith,
      length-set b.subscribers i (deactivated (old i)),
      find_index-lt (is_of handler) b.subscribers i found,
      find_index_sound (is_of handler) b.subscribers zero_subscriber i found,
      count_if-set is_active b.subscribers i (deactivated (old i)) zero_subscriber,
      count_if-le-length is_active b.subscribers,
    )

pub unsubscribe-IsValid : (b : Bus) (handler : ℕ) → IsValid b → IsValid (unsubscribe b handler).1
unfolding unsubscribe
unsubscribe-IsValid b handler v = ground (arith, clear_slot-IsValid b handler v)

pub new_corr_id-IsValid : (b : Bus) → IsValid b → IsValid (new_corr_id b).1
unfolding new_corr_id
new_corr_id-IsValid b v = ground arith

pub advance_head-IsValid : (b : Bus) → 0 < b.count → IsValid b → IsValid (advance_head b)
unfolding advance_head
advance_head-IsValid b h v = ground arith
