-- ===== src/Os/Event/Tests.antt =====
-- The event bus on concrete input: runs of os/src/os_event.c, and the theorems at such states.
use esp32_c6_gateway_os.Os.Types.{Env, ok, full, max_subscribers}
use esp32_c6_gateway_os.Os.Event.State.{
  Event, Bus, zero_bus, zero_event, zero_queue, zero_subscribers,
}
use esp32_c6_gateway_os.Os.Event.Publish.{init, publish, publish_event, emit}
use esp32_c6_gateway_os.Os.Event.Subscribe.{subscribe, fill_slot, unsubscribe, is_of}
use esp32_c6_gateway_os.Os.Event.Dispatch.{
  to_dispatch, dispatch, dispatch_rounds, dispatch_one, note_size,
}
use esp32_c6_gateway_os.Os.Event.Valid.{
  IsValid, zero_bus-IsValid, init-IsValid, emit-IsValid, subscribe-IsValid,
}
use esp32_c6_gateway_os.Os.Event.Fifo.{contents, bounded_push, publish_refines}
use esp32_c6_gateway_os.Os.Event.Handlers.{
  BusCall, publishes, emits, IsPolite, bus_calls, bus_call, bus_calls-Grew, Grew,
}
use esp32_c6_gateway_os.Os.Event.Delivery.{deliver, Left, dispatch-deliver}
use esp32_c6_gateway_os.Os.Event.Subscribers.{Subscribed, subscribe_outcome, subscribe-unsubscribe}
use esp32_c6_gateway_os.Os.Event.Reach.{boot, inits, calls, Reachable-IsValid}
use esp32_c6_gateway_os.Base.{
  true, List, ℕ, none, [], some, if◌then◌else◌, ◌∷◌, ◌≡◌, refl, ◌==◌, find_index, count_if, take,
  ◌⊎◌, arith, ◌<◌,
}

abbrev env : Env
env = record { now = 7; padding = λ i. 0 }

-- The bus after `os_event_init`.
abbrev started : Bus
started = record zero_bus { next_corr_id = 1; initialized = true }

-- A handler that writes the types it is given to a trace, and answers type 4 by an event of type 5.
abbrev answer : Event → List BusCall
answer ev = if ev.type == 4 then emits env 5 [] ∷ [] else []

tracer : ℕ → Event → ℕ → Bus × List ℕ → Bus × List ℕ
tracer handler ev ctx (b, trace) = (bus_calls b (answer ev), ev.type ∷ trace)

tracer-IsPolite : IsPolite tracer
unfolding tracer
tracer-IsPolite = record { calls = λ h ev c b w. answer ev; does = λ h ev c b w. refl }

-- Handler 9 hears all types; two events are queued.
busy_bus : Bus
unfolding subscribe fill_slot emit publish publish_event
busy_bus = (emit env (emit env (subscribe started none 9 0).1 4 []).1 6 (1 ∷ 2 ∷ [])).1

started-IsValid : IsValid started
unfolding init
started-IsValid = init-IsValid zero_bus zero_bus-IsValid

trace : (dispatch tracer 0 (busy_bus, [])).2 ≡ 6 ∷ 4 ∷ []
unfolding busy_bus dispatch dispatch_rounds dispatch_one to_dispatch tracer zero_queue
    zero_subscribers find_index bus_calls bus_call
trace = refl

-- The answer to the first event is queued behind the second.
left_over : (dispatch tracer 2 (busy_bus, [])).1.count ≡ 1
unfolding busy_bus dispatch dispatch_rounds dispatch_one to_dispatch tracer zero_queue
    zero_subscribers find_index bus_calls bus_call
left_over = refl

publish_refines_example :
    let (err, b') = publish env started (some zero_event) in
    (err, contents b') ≡ bounded_push [] (record zero_event { timestamp = 7 })
publish_refines_example = publish_refines env started zero_event started-IsValid refl

bus_calls-Grew_example : Grew started (bus_calls started (emits env 4 [] ∷ publishes env none ∷ []))
bus_calls-Grew_example =
    bus_calls-Grew started (emits env 4 [] ∷ publishes env none ∷ []) started-IsValid

busy_bus-IsValid : IsValid busy_bus
unfolding busy_bus
busy_bus-IsValid =
    emit-IsValid env _ 6 (1 ∷ 2 ∷ [])
      (emit-IsValid env _ 4 [] (subscribe-IsValid started none 9 0 started-IsValid))

dispatch-deliver_example :
    let k : ℕ = to_dispatch busy_bus 1 in
    let r : Bus × List ℕ = deliver tracer (take k (contents busy_bus)) (busy_bus, []) in
    (dispatch tracer 1 (busy_bus, []) ≡ note_size (k, r.0, r.1)) × Left k busy_bus r.0
unfolding busy_bus find_index zero_subscribers
dispatch-deliver_example =
    dispatch-deliver tracer tracer-IsPolite 1 busy_bus [] busy_bus-IsValid refl (omega arith)

subscribe_outcome_example :
    let (err, b') = subscribe started none 9 0 in
    ((started.sub_count ≡ max_subscribers) × (err ≡ full) × (b' ≡ started))
    ⊎ ((started.sub_count < max_subscribers)
        × (err ≡ ok)
        × ((k : ℕ) × Subscribed started none 9 0 started-IsValid refl (omega arith) b' k))
subscribe_outcome_example = subscribe_outcome started none 9 0 started-IsValid refl (omega arith)

subscribe-unsubscribe_example :
    let (err, b') = subscribe started none 9 0 in
    let (err', b'') = unsubscribe b' 9 in
    (err ≡ ok) × (err' ≡ ok) × (count_if (is_of 9) b''.subscribers ≡ 0) × (b''.sub_count ≡ 0)
unfolding zero_subscribers count_if
subscribe-unsubscribe_example =
    subscribe-unsubscribe started none 9 0 started-IsValid refl (omega arith) refl (omega arith)

Reachable-IsValid_example : IsValid (bus_call (init zero_bus).1 (emits env 4 []))
Reachable-IsValid_example = Reachable-IsValid (calls (inits boot) (emits env 4 []))
