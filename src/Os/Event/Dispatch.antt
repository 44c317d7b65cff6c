-- ===== src/Os/Event/Dispatch.antt =====
-- os/src/os_event.c: `os_event_dispatch`. What the handlers do is a parameter: a handler is called
-- with the event and its context, and may change the bus, through the bus's own functions, and the
-- rest `W` of the program's state.
use esp32_c6_gateway_os.Base.{
  ℕ, zero, suc, ◌+◌, ◌%◌, Bool, not, ◌&&◌, ◌||◌, ltb, leb, ◌==◌, if◌then◌else◌, get_or, add32,
  sub32,
}
use esp32_c6_gateway_os.Os.Types.{event_queue_size, max_subscribers}
use esp32_c6_gateway_os.Os.Event.State.{
  Event, Filter, Subscriber, Stats, Bus, zero_event, zero_subscriber,
}

unfoldable pub filter_matches : Filter → ℕ → Bool
filter_matches f type = leb f.type_min type && leb type f.type_max

-- How many events a call is to dispatch; 0 asks for all that are queued.
unfoldable pub to_dispatch : Bus → ℕ → ℕ
to_dispatch b max_events =
    if max_events == 0 then b.count else if ltb max_events b.count then max_events else b.count

unfoldable pub advance_head : Bus → Bus
advance_head b =
    let stats : Stats = b.stats in
    record b {
      head = add32 b.head 1 % event_queue_size;
      count = sub32 b.count 1;
      stats = record stats { events_dispatched = add32 stats.events_dispatched 1 };
    }

-- The size noted after the loop.
abbrev pub note_size : {W : Type 0} → ℕ × Bus × W → ℕ × Bus × W
note_size (n, b, w) =
    let stats : Stats = b.stats in
    (n, record b { stats = record stats { current_queue_size = b.count } }, w)

module _ {W : Type 0} (call : ℕ → Event → ℕ → Bus × W → Bus × W) where
  -- One turn of the loop over the subscribers. The event is read in its slot and the subscriber in
  -- its own, as earlier handlers have left them.
  unfoldable pub offer : ℕ → ℕ → Bus × W → Bus × W
  unfolding filter_matches
  offer slot i (b, w) =
      let event : Event = get_or b.queue slot zero_event in
      let sub : Subscriber = get_or b.subscribers i zero_subscriber in
      if sub.active && filter_matches sub.filter event.type
      then call sub.handler event sub.ctx (b, w)
      else (b, w)

  -- The subscribers from index `i` on, `n` of them.
  unfoldable pub offer_from : ℕ → ℕ → ℕ → Bus × W → Bus × W
  unfolding offer
  offer_from slot i zero s = s
  offer_from slot i (suc n) s = offer_from slot (i + 1) n (offer slot i s)

  -- One turn of the `while` loop.
  unfoldable pub dispatch_one : Bus × W → Bus × W
  unfolding offer_from advance_head
  dispatch_one (b, w) =
      let (b', w') = offer_from b.head 0 max_subscribers (b, w) in (advance_head b', w')

  -- The `while` loop, which ends at the first of two tests: after `n` rounds, or at an empty queue.
  -- It returns `dispatched`.
  unfoldable pub dispatch_rounds : ℕ → ℕ → Bus × W → ℕ × Bus × W
  dispatch_rounds zero dispatched (b, w) = (dispatched, b, w)
  dispatch_rounds (suc n) dispatched (b, w) =
      let rest = dispatch_rounds n (dispatched + 1) (dispatch_one (b, w)) in
      if ltb 0 b.count then rest else (dispatched, b, w)

  -- `os_event_dispatch`
  unfoldable pub dispatch : ℕ → Bus × W → ℕ × Bus × W
  unfolding to_dispatch
  dispatch max_events (b, w) =
      if not b.initialized || b.count == 0
      then (0, b, w)
      else note_size (dispatch_rounds (to_dispatch b max_events) 0 (b, w))
