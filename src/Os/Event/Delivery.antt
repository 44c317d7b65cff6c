-- ===== src/Os/Event/Delivery.antt =====
-- What os/src/os_event.c delivers: the events that were queued when the dispatch began, each as it
-- was published, in order, whatever the handlers publish, subscribe or unsubscribe meanwhile.
use esp32_c6_gateway_os.Base.{
  ℕ, zero, suc, ◌+◌, ◌<◌, ◌≡◌, refl, ◌&&◌, List, [], ◌∷◌, arith, get_or, Bool-cases, inl, inr,
  if◌then◌else◌, length-append, drop, ◌++◌, sym, ◌≤◌, ap, drop-append_le, take, take-append_le,
  add_zero, length, lt→ltb, ◌-◌, append-nil, length-drop, drop-drop, append_assoc, true, eq_ne, ◌∙◌,
}
use esp32_c6_gateway_os.Os.Types.{max_subscribers}
use esp32_c6_gateway_os.Os.Event.State.{Event, Subscriber, Bus, zero_event, zero_subscriber}
use esp32_c6_gateway_os.Os.Event.Dispatch.{
  filter_matches, advance_head, offer, offer_from, dispatch_one, dispatch_rounds, dispatch,
  to_dispatch, note_size,
}
use esp32_c6_gateway_os.Os.Event.Valid.{IsValid, advance_head-IsValid}
use esp32_c6_gateway_os.Os.Event.Fifo.{contents, contents-advance_head, length-contents}
use esp32_c6_gateway_os.Os.Event.Handlers.{IsPolite, Grew, Grew-refl, Grew-trans, bus_calls-Grew}

module _ {W : Type 0} (call : ℕ → Event → ℕ → Bus × W → Bus × W) where
  -- The subscriber in slot `i` is offered an event, given by its value.
  unfoldable pub offer_value : Event → ℕ → Bus × W → Bus × W
  unfolding filter_matches
  offer_value ev i (b, w) =
      let sub : Subscriber = get_or b.subscribers i zero_subscriber in
      if sub.active && filter_matches sub.filter ev.type
      then call sub.handler ev sub.ctx (b, w)
      else (b, w)

  -- The subscribers from slot `i` on, `n` of them.
  unfoldable pub hand_out : Event → ℕ → ℕ → Bus × W → Bus × W
  hand_out ev i zero s = s
  hand_out ev i (suc n) s = hand_out ev (i + 1) n (offer_value ev i s)

  -- The specification of a dispatch: the events of a list, one after the other.
  unfoldable pub deliver : List Event → Bus × W → Bus × W
  deliver [] s = s
  deliver (ev ∷ evs) s =
      let (b, w) = hand_out ev 0 max_subscribers s in deliver evs (advance_head b, w)

-- The slot of the event that is being dispatched keeps its value.
in_flight :
    {b b' : Bus}
    → IsValid b
    → 0 < b.count
    → Grew b b'
    → (0 < b'.count) × (get_or b'.queue b.head zero_event ≡ get_or b.queue b.head zero_event)
in_flight {b} {b'} v h g = ground (
  arith,
  g.longer,
  g.same_head,
  contents-advance_head b v h,
  contents-advance_head b' g.valid,
  length-contents b,
  length-contents b',
  length-append (contents b) g.added,
)

-- What a dispatch of `n` events leaves: the rest of the queue, then what was published meanwhile.
pub record Left (n : ℕ) (b b' : Bus) : Type 0 where
  pub valid : IsValid b'
  pub added : List Event
  pub rest : contents b' ≡ drop n (contents b) ++ added

to_dispatch-le : (b : Bus) (max_events : ℕ) → to_dispatch b max_events ≤ b.count
unfolding to_dispatch
to_dispatch-le b max_events = ground arith

Left-count : {n : ℕ} {b b' : Bus} → Left n b b' → b.count - n ≤ b'.count
Left-count {n} {b} {b'} l = omega (
  arith,
  length-contents b,
  length-contents b',
  ap length l.rest,
  length-append (drop n (contents b)) l.added,
  length-drop n (contents b),
)

Left-step :
    {n : ℕ} {b b' b'' : Bus} → suc n ≤ b.count → Left 1 b b' → Left n b' b'' → Left (suc n) b b''
Left-step {n} {b} {b'} {b''} h l m = record {
  valid = m.valid;
  added = l.added ++ m.added;
  rest =
      rw
        (
          m.rest,
          l.rest,
          drop-append_le n (drop 1 (contents b)) l.added
              (omega (arith, length-drop 1 (contents b), length-contents b)),
          drop-drop n (contents b),
        )
        (append_assoc (drop (suc n) (contents b)) l.added m.added);
}

contents-drop_one :
    (b : Bus) → IsValid b → 0 < b.count → contents (advance_head b) ≡ drop 1 (contents b)
contents-drop_one b v h = sym (ap (drop 1) (contents-advance_head b v h))

module _ {W : Type 0} (call : ℕ → Event → ℕ → Bus × W → Bus × W) (polite : IsPolite call) where
  offer_value-Grew :
      (ev : Event) (i : ℕ) (b : Bus) (w : W) → IsValid b → Grew b (offer_value call ev i (b, w)).0
  unfolding offer_value
  offer_value-Grew ev i b w v =
      elim (Bool-cases (sub.active && filter_matches sub.filter ev.type)) [
        | inl t ↦ rw (t, polite.does) (bus_calls-Grew b _ v)
        | inr f ↦ rw f (Grew-refl b v)
      ]
    where
      sub : Subscriber
      sub = get_or b.subscribers i zero_subscriber

  hand_out-Grew :
      (ev : Event) (i n : ℕ) (s : Bus × W) → IsValid s.0 → Grew s.0 (hand_out call ev i n s).0
  unfolding hand_out
  hand_out-Grew ev i zero s v = Grew-refl s.0 v
  hand_out-Grew ev i (suc n) s v =
      let g : Grew s.0 (offer_value call ev i s).0 = offer_value-Grew ev i s.0 s.1 v in
      Grew-trans g (hand_out-Grew ev (i + 1) n (offer_value call ev i s) g.valid)

  -- Reading the slot again for each subscriber gives the event as it was published.
  offer_from-hand_out :
      (b₀ : Bus) (i n : ℕ) (s : Bus × W)
      → IsValid b₀
      → 0 < b₀.count
      → Grew b₀ s.0
      → offer_from call b₀.head i n s ≡ hand_out call (get_or b₀.queue b₀.head zero_event) i n s
  unfolding offer_from offer hand_out offer_value
  offer_from-hand_out b₀ i zero s v h g = refl
  offer_from-hand_out b₀ i (suc n) s v h g =
      rw ((in_flight v h g).1) (
        offer_from-hand_out b₀ (i + 1) n _ v h
          (Grew-trans g (offer_value-Grew _ i s.0 s.1 g.valid)))

  -- One round of the loop hands out the oldest event, and leaves the others with what was added.
  dispatch_one-hand_out :
      (s : Bus × W)
      → IsValid s.0
      → 0 < s.0.count
      → let r : Bus × W =
          hand_out call (get_or s.0.queue s.0.head zero_event) 0 max_subscribers s in
        dispatch_one call s ≡ (advance_head r.0, r.1)
  unfolding dispatch_one
  dispatch_one-hand_out s v h =
      rw (offer_from-hand_out s.0 0 max_subscribers s v h (Grew-refl s.0 v)) refl

  dispatch_one-Left :
      (s : Bus × W) → IsValid s.0 → 0 < s.0.count → Left 1 s.0 (dispatch_one call s).0
  dispatch_one-Left s v h =
      let r : Bus × W = hand_out call (get_or s.0.queue s.0.head zero_event) 0 max_subscribers s in
      let g : Grew s.0 r.0 = hand_out-Grew _ 0 max_subscribers s v in
      rw (dispatch_one-hand_out s v h) (record {
        valid = advance_head-IsValid r.0 (in_flight v h g).0 g.valid;
        added = g.added;
        rest =
            rw (contents-drop_one r.0 g.valid (in_flight v h g).0, g.longer)
              (drop-append_le 1 (contents s.0) g.added (omega (arith, length-contents s.0)));
      })

  -- The specification too takes one event at a time.
  deliver-dispatch_one :
      (n : ℕ) (s : Bus × W)
      → IsValid s.0
      → suc n ≤ s.0.count
      → deliver call (take (suc n) (contents s.0)) s
        ≡ deliver call (take n (contents (dispatch_one call s).0)) (dispatch_one call s)
  unfolding deliver
  deliver-dispatch_one n s v h =
      let l : Left 1 s.0 (dispatch_one call s).0 = dispatch_one-Left s v (omega arith) in
      rw (
        l.rest,
        contents-advance_head s.0 v (omega arith),
        take-append_le n (contents (advance_head s.0)) l.added (
            omega
              (arith, length-contents s.0, ap length (contents-advance_head s.0 v (omega arith)))),
        dispatch_one-hand_out s v (omega arith),
      )

  dispatch_rounds-deliver :
      (n dispatched : ℕ) (s : Bus × W)
      → IsValid s.0
      → n ≤ s.0.count
      → let r : Bus × W = deliver call (take n (contents s.0)) s in
        dispatch_rounds call n dispatched s ≡ (dispatched + n, r.0, r.1)
  unfolding dispatch_rounds deliver
  dispatch_rounds-deliver zero d s v h = rw (add_zero d)
  dispatch_rounds-deliver (suc n) d s v h =
      let l : Left 1 s.0 (dispatch_one call s).0 = dispatch_one-Left s v (omega arith) in
      rw
        (
          deliver-dispatch_one n s v h,
          lt→ltb 0 s.0.count (omega arith),
          dispatch_rounds-deliver n (d + 1) (dispatch_one call s) l.valid
              (omega (arith, Left-count l)),
        )
        (ap
          (λ k.
            let r : Bus × W =
              deliver call (take n (contents (dispatch_one call s).0)) (dispatch_one call s) in
            (k, r.0, r.1))
          (omega arith))

  deliver-Left :
      (n : ℕ) (s : Bus × W)
      → IsValid s.0
      → n ≤ s.0.count
      → Left n s.0 (deliver call (take n (contents s.0)) s).0
  unfolding deliver
  deliver-Left zero s v h = record { valid = v; added = []; rest = sym (append-nil (contents s.0)) }
  deliver-Left (suc n) s v h =
      let l : Left 1 s.0 (dispatch_one call s).0 = dispatch_one-Left s v (omega arith) in
      rw (deliver-dispatch_one n s v h)
        (Left-step h l (deliver-Left n (dispatch_one call s) l.valid (omega (arith, Left-count l))))

  dispatch_running :
      (max_events : ℕ) (b : Bus) (w : W)
      → b.initialized ≡ true
      → 0 < b.count
      → dispatch call max_events (b, w)
        ≡ note_size (dispatch_rounds call (to_dispatch b max_events) 0 (b, w))
  unfolding dispatch
  dispatch_running max_events b w i h = simp (i, eq_ne b.count 0 (omega arith), dispatch)

  -- With handlers that call the bus at will, but do not dispatch, `os_event_dispatch` on a valid
  -- initialised bus that is not empty hands out the oldest `to_dispatch b max_events` of the events
  -- that were queued when it began, each as it was published and in the order of publication, and
  -- returns their number; it leaves the other events in order, those published meanwhile behind
  -- them, on a valid bus.
  pub dispatch-deliver :
      (max_events : ℕ) (b : Bus) (w : W)
      → IsValid b
      → b.initialized ≡ true
      → 0 < b.count
      → let k : ℕ = to_dispatch b max_events in
        let r : Bus × W = deliver call (take k (contents b)) (b, w) in
        (dispatch call max_events (b, w) ≡ note_size (k, r.0, r.1)) × Left k b r.0
  dispatch-deliver max_events b w v i h =
      let le : to_dispatch b max_events ≤ b.count = to_dispatch-le b max_events in
      let r : Bus × W = deliver call (take (to_dispatch b max_events) (contents b)) (b, w) in
      (
        dispatch_running max_events b w i h
            ∙ ap note_size (dispatch_rounds-deliver _ 0 (b, w) v le)
            ∙ ap (λ (k : ℕ). note_size (k, r.0, r.1)) (omega arith),
        deliver-Left _ (b, w) v le,
      )
