-- ===== src/Os/Event/Reach.antt =====
-- The states that the event bus of os/src/os_event.c can reach from the zeroed memory at boot: its
-- functions in any order, and dispatches in which the handlers call them again.
use esp32_c6_gateway_os.Base.{ℕ, ◌≡◌, true, inl, inr, Bool-cases, arith, not, ◌||◌, ◌==◌, take}
use esp32_c6_gateway_os.Os.Event.State.{Event, Bus, zero_bus}
use esp32_c6_gateway_os.Os.Event.Publish.{init}
use esp32_c6_gateway_os.Os.Event.Dispatch.{to_dispatch, dispatch, note_size}
use esp32_c6_gateway_os.Os.Event.Valid.{IsValid, zero_bus-IsValid, init-IsValid}
use esp32_c6_gateway_os.Os.Event.Handlers.{BusCall, IsPolite, bus_call, bus_call-Grew}
use esp32_c6_gateway_os.Os.Event.Fifo.{contents}
use esp32_c6_gateway_os.Os.Event.Delivery.{deliver, dispatch-deliver}

pub data Reachable : Bus → Type 1 where
  boot : Reachable zero_bus
  inits : {b : Bus} → Reachable b → Reachable (init b).1
  calls : {b : Bus} → Reachable b → (c : BusCall) → Reachable (bus_call b c)
  dispatches :
      {b b' : Bus}
      → Reachable b
      → {W : Type 0} → (call : ℕ → Event → ℕ → Bus × W → Bus × W) → IsPolite call
      → (max_events : ℕ) → (w : W) → b' ≡ (dispatch call max_events (b, w)).1
      → Reachable b'

noted-IsValid : {W : Type 0} (n : ℕ) (b : Bus) (w : W) → IsValid b → IsValid (note_size (n, b, w)).1
noted-IsValid n b w v = ground arith

module _ {W : Type 0} (call : ℕ → Event → ℕ → Bus × W → Bus × W) (polite : IsPolite call)
    (max_events : ℕ) (b : Bus) (w : W) (v : IsValid b) where
  dispatch-nothing :
      not b.initialized || b.count == 0 ≡ true → dispatch call max_events (b, w) ≡ (0, b, w)
  unfolding dispatch
  dispatch-nothing h = rw h

  -- A dispatch keeps the bus valid, on each of its returns.
  pub dispatch-IsValid : IsValid (dispatch call max_events (b, w)).1
  dispatch-IsValid = elim (Bool-cases (not b.initialized || b.count == 0)) [
    | inl t ↦ rw (dispatch-nothing t) v
    | inr f ↦
        let k : ℕ = to_dispatch b max_events in
        let s : Bus × W = deliver call (take k (contents b)) (b, w) in
        let (path, left) =
          dispatch-deliver call polite max_events b w v (ground arith) (ground arith) in
        rw path (noted-IsValid k s.0 s.1 left.valid)
  ]

-- Every state that the bus reaches is valid: the ring and its indices are in step, `sub_count` is
-- the number of active subscribers, and every event published is dispatched or still queued.
pub Reachable-IsValid : {b : Bus} → Reachable b → IsValid b
Reachable-IsValid boot = zero_bus-IsValid
Reachable-IsValid (inits {b = b} r) = init-IsValid b (Reachable-IsValid r)
Reachable-IsValid (calls {b = b} r c) = (bus_call-Grew b c (Reachable-IsValid r)).valid
Reachable-IsValid (dispatches {b = b} r call polite max_events w e) =
    rw e (dispatch-IsValid call polite max_events b w (Reachable-IsValid r))
