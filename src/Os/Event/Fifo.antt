-- ===== src/Os/Event/Fifo.antt =====
-- The ring of os/src/os_event.c as the queue of the events that it holds, oldest first.
use esp32_c6_gateway_os.Base.{
  ℕ, zero, suc, ◌+◌, ◌-◌, ◌%◌, ◌<◌, ◌≡◌, refl, ap, ap₂, true, some, List, [], ◌∷◌, ◌++◌, arith,
  length, get_or, set, get_or-set_self, get_or-set_ne, leb, if◌then◌else◌,
}
use esp32_c6_gateway_os.Os.Types.{Err, ok, full, Env, event_queue_size}
use esp32_c6_gateway_os.Os.Event.State.{Event, Bus, zero_event}
use esp32_c6_gateway_os.Os.Event.Publish.{publish, publish_event, enqueue, drop_event, stamped}
use esp32_c6_gateway_os.Os.Event.Dispatch.{advance_head}
use esp32_c6_gateway_os.Os.Event.Valid.{IsValid}

-- The `n` events from slot `h` on, going round at the end of the array.
abbrev pub window : List Event → ℕ → ℕ → List Event
window q h zero = []
window q h (suc n) = get_or q h zero_event ∷ window q ((h + 1) % event_queue_size) n

-- What is queued.
abbrev pub contents : Bus → List Event
contents b = window b.queue b.head b.count

pub length-window : (q : List Event) (h n : ℕ) → length (window q h n) ≡ n
length-window q h zero = refl
length-window q h (suc n) = ap suc (length-window q ((h + 1) % event_queue_size) n)

pub length-contents : (b : Bus) → length (contents b) ≡ b.count
length-contents b = length-window b.queue b.head b.count

-- A write in the first slot behind a window puts its event at the window's end.
window-set :
    (q : List Event) (ev : Event) (n h i : ℕ)
    → length q ≡ event_queue_size
    → h < event_queue_size
    → n < event_queue_size
    → i ≡ (h + n) % event_queue_size
    → window (set q i ev) h (suc n) ≡ window q h n ++ ev ∷ []
window-set q ev zero h i l hh hn e = rw (step, get_or-set_self q h ev zero_event (omega arith))
  where
    step : i ≡ h
    step = omega arith
window-set q ev (suc n) h i l hh hn e =
    ap₂ ◌∷◌ (get_or-set_ne q i h ev zero_event (omega arith))
      (window-set q ev n ((h + 1) % event_queue_size) i l (omega arith) (omega arith) (omega arith))

-- The first event of a window that is not empty.
window-head :
    (q : List Event) (h n : ℕ)
    → 0 < n
    → window q h n ≡ get_or q h zero_event ∷ window q ((h + 1) % event_queue_size) (n - 1)
window-head q h zero p = absurd (omega arith)
window-head q h (suc n) p = ap (λ k. window q h (suc k)) (omega arith)

pub contents-enqueue :
    (e : Env) (b : Bus) (ev : Event)
    → IsValid b
    → b.count < event_queue_size
    → contents (enqueue e b ev) ≡ contents b ++ stamped e ev ∷ []
unfolding enqueue
contents-enqueue e b ev v h =
    ground (arith, window-set b.queue (stamped e ev) b.count b.head b.tail)

pub contents-advance_head :
    (b : Bus)
    → IsValid b
    → 0 < b.count
    → contents b ≡ get_or b.queue b.head zero_event ∷ contents (advance_head b)
unfolding advance_head
contents-advance_head b v h = ground (arith, window-head b.queue b.head b.count)

-- An abstract bounded queue: what `os_event_publish` promises of a full and of a free queue.
unfoldable pub bounded_push : List Event → Event → Err × List Event
bounded_push evs ev =
    if leb event_queue_size (length evs) then (full, evs) else (ok, evs ++ ev ∷ [])

-- `os_event_publish` on an initialised bus is the push of a queue of at most 256 events.
pub publish_refines :
    (e : Env) (b : Bus) (ev : Event)
    → IsValid b
    → b.initialized ≡ true
    → let (err, b') = publish e b (some ev) in
      (err, contents b') ≡ bounded_push (contents b) (stamped e ev)
unfolding publish publish_event drop_event bounded_push
publish_refines e b ev v i = ground (arith, length-contents b, contents-enqueue e b ev v)
