-- ===== src/Os/Event/Handlers.antt =====
-- What a handler may do to the event bus while os/src/os_event.c dispatches: any sequence of calls
-- of the bus's functions, but no nested dispatch. Such calls only let the queue grow at its end.
use esp32_c6_gateway_os.Base.{
  ◌==◌, ℕ, ◌≡◌, refl, sym, ◌∙◌, false, Option, none, some, List, [], ◌∷◌, ◌++◌, append-nil,
  append_assoc, arith, Bool-cases, inl, inr, leb,
}
use esp32_c6_gateway_os.Os.Types.{Env, event_queue_size, Err}
use esp32_c6_gateway_os.Os.Event.State.{Event, Filter, Subscriber, Bus}
use esp32_c6_gateway_os.Os.Event.Publish.{
  publish, publish_event, enqueue, drop_event, emit, emitted, stamped,
}
use esp32_c6_gateway_os.Os.Event.Subscribe.{
  subscriber, fill_slot, subscribe, clear_slot, unsubscribe, new_corr_id,
}
use esp32_c6_gateway_os.Os.Event.Valid.{
  IsValid, enqueue-IsValid, drop_event-IsValid, fill_slot-IsValid, clear_slot-IsValid,
}
use esp32_c6_gateway_os.Os.Event.Fifo.{contents, contents-enqueue}

pub data BusCall : Type 0 where
  publishes : Env → Option Event → BusCall
  emits : Env → ℕ → List ℕ → BusCall
  subscribes : Option Filter → ℕ → ℕ → BusCall
  unsubscribes : ℕ → BusCall
  takes_corr_id : BusCall

unfoldable pub bus_call : Bus → BusCall → Bus
bus_call b (publishes e ev) = (publish e b ev).1
bus_call b (emits e type bytes) = (emit e b type bytes).1
bus_call b (subscribes f handler ctx) = (subscribe b f handler ctx).1
bus_call b (unsubscribes handler) = (unsubscribe b handler).1
bus_call b takes_corr_id = (new_corr_id b).1

unfoldable pub bus_calls : Bus → List BusCall → Bus
bus_calls b [] = b
bus_calls b (c ∷ cs) = bus_calls (bus_call b c) cs

-- The handlers change the bus by `bus_calls` only.
pub record IsPolite {W : Type 0} (call : ℕ → Event → ℕ → Bus × W → Bus × W) : Type 0 where
  pub calls : ℕ → Event → ℕ → Bus → W → List BusCall
  pub does :
      (handler : ℕ) (ev : Event) (ctx : ℕ) (b : Bus) (w : W)
      → (call handler ev ctx (b, w)).0 ≡ bus_calls b (calls handler ev ctx b w)

-- The queue of `b'` is that of `b` with events added at its end.
pub record Grew (b b' : Bus) : Type 0 where
  pub valid : IsValid b'
  pub same_head : b'.head ≡ b.head
  pub same_initialized : b'.initialized ≡ b.initialized
  pub same_dispatched : b'.stats.events_dispatched ≡ b.stats.events_dispatched
  pub added : List Event
  pub longer : contents b' ≡ contents b ++ added

pub Grew-refl : (b : Bus) → IsValid b → Grew b b
Grew-refl b v = record {
  valid = v;
  same_head = refl;
  same_initialized = refl;
  same_dispatched = refl;
  added = [];
  longer = sym (append-nil (contents b));
}

pub Grew-trans : {b c d : Bus} → Grew b c → Grew c d → Grew b d
Grew-trans {b} g h = record {
  valid = h.valid;
  same_head = h.same_head ∙ g.same_head;
  same_initialized = h.same_initialized ∙ g.same_initialized;
  same_dispatched = h.same_dispatched ∙ g.same_dispatched;
  added = g.added ++ h.added;
  longer = rw (h.longer, g.longer) (append_assoc (contents b) g.added h.added);
}

-- What a call leaves behind, beside its result.
Leaves : Bus → Err × Bus → Type 0
Leaves b r = Grew b r.1

unchanged : (b : Bus) (r : Err) → IsValid b → Leaves b (r, b)
unfolding Leaves
unchanged b r v = Grew-refl b v

-- A change that keeps the ring keeps the contents.
kept :
    (b b' : Bus)
    → IsValid b'
    → b'.queue ≡ b.queue
    → b'.head ≡ b.head
    → b'.count ≡ b.count
    → b'.initialized ≡ b.initialized
    → b'.stats.events_dispatched ≡ b.stats.events_dispatched
    → Grew b b'
kept b b' v q h c i d = record {
  valid = v;
  same_head = h;
  same_initialized = i;
  same_dispatched = d;
  added = [];
  longer = rw append-nil (cc);
}

enqueue-Grew :
    (e : Env) (b : Bus) (ev : Event)
    → IsValid b
    → leb event_queue_size b.count ≡ false
    → Grew b (enqueue e b ev)
unfolding enqueue
enqueue-Grew e b ev v h = record {
  valid = enqueue-IsValid e b ev (ground arith) v;
  same_head = refl;
  same_initialized = refl;
  same_dispatched = refl;
  added = stamped e ev ∷ [];
  longer = contents-enqueue e b ev v (ground arith);
}

publish_event-Grew : (e : Env) (b : Bus) (ev : Event) → IsValid b → Leaves b (publish_event e b ev)
unfolding Leaves publish_event drop_event
publish_event-Grew e b ev v = elim (Bool-cases (leb event_queue_size b.count)) [
  | inl t ↦ rw t (kept b _ (drop_event-IsValid b v) refl refl refl refl refl)
  | inr f ↦ rw f (enqueue-Grew e b ev v f)
]

publish-Grew : (e : Env) (b : Bus) (ev : Option Event) → IsValid b → Leaves b (publish e b ev)
unfolding publish
publish-Grew e b none v = elim (Bool-cases b.initialized) [
  | inl t ↦ simp (t, publish) (unchanged b _ v)
  | inr f ↦ simp (f, publish) (unchanged b _ v)
]
publish-Grew e b (some ev) v = elim (Bool-cases b.initialized) [
  | inl t ↦ simp (t, publish) (publish_event-Grew e b ev v)
  | inr f ↦ simp (f, publish) (unchanged b _ v)
]

fill_slot-Grew :
    (b : Bus) (s : Subscriber) (o : Option ℕ)
    → IsValid (fill_slot b s o).1
    → Leaves b (fill_slot b s o)
unfolding Leaves fill_slot
fill_slot-Grew b s none v = kept b _ v refl refl refl refl refl
fill_slot-Grew b s (some i) v = kept b _ v refl refl refl refl refl

clear_slot-Grew : (b : Bus) (o : Option ℕ) → IsValid (clear_slot b o).1 → Leaves b (clear_slot b o)
unfolding Leaves clear_slot
clear_slot-Grew b none v = kept b _ v refl refl refl refl refl
clear_slot-Grew b (some i) v = kept b _ v refl refl refl refl refl

subscribe-Grew :
    (b : Bus) (f : Option Filter) (handler ctx : ℕ)
    → IsValid b
    → Leaves b (subscribe b f handler ctx)
unfolding subscribe
subscribe-Grew b f handler ctx v = elim (Bool-cases b.initialized) [
  | inr n ↦ simp (n, subscribe) (unchanged b _ v)
  | inl t ↦ elim (Bool-cases (handler == 0)) [
    | inl z ↦ simp (t, z, subscribe) (unchanged b _ v)
    | inr n ↦
        simp (t, n, subscribe)
          (fill_slot-Grew b _ _ (fill_slot-IsValid b (subscriber f handler ctx) refl v))
  ]
]

unsubscribe-Grew : (b : Bus) (handler : ℕ) → IsValid b → Leaves b (unsubscribe b handler)
unfolding unsubscribe
unsubscribe-Grew b handler v = elim (Bool-cases b.initialized) [
  | inl t ↦ simp (t, unsubscribe) (clear_slot-Grew b _ (clear_slot-IsValid b handler v))
  | inr f ↦ simp (f, unsubscribe) (unchanged b _ v)
]

new_corr_id-Grew : (b : Bus) → IsValid b → Grew b (new_corr_id b).1
unfolding new_corr_id
new_corr_id-Grew b v = kept b _ (ground arith) refl refl refl refl refl

pub bus_call-Grew : (b : Bus) (c : BusCall) → IsValid b → Grew b (bus_call b c)
unfolding Leaves bus_call emit
bus_call-Grew b (publishes e ev) v = publish-Grew e b ev v
bus_call-Grew b (emits e type bytes) v = publish-Grew e b (some (emitted e type bytes)) v
bus_call-Grew b (subscribes f handler ctx) v = subscribe-Grew b f handler ctx v
bus_call-Grew b (unsubscribes handler) v = unsubscribe-Grew b handler v
bus_call-Grew b takes_corr_id v = new_corr_id-Grew b v

-- Whatever a handler calls, the queue only grows at its end.
pub bus_calls-Grew : (b : Bus) (cs : List BusCall) → IsValid b → Grew b (bus_calls b cs)
unfolding bus_calls
bus_calls-Grew b [] v = Grew-refl b v
bus_calls-Grew b (c ∷ cs) v =
    let g : Grew b (bus_call b c) = bus_call-Grew b c v in
    Grew-trans g (bus_calls-Grew (bus_call b c) cs g.valid)
