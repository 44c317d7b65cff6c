-- ===== src/Os/Event/Subscribers.antt =====
-- The subscriber table of os/src/os_event.c: what subscribing and unsubscribing return and change.
use esp32_c6_gateway_os.Base.{
  get_or-set_ne, ℕ, ◌+◌, ◌<◌, ◌≡◌, ◌≢◌, ◌⊎◌, inl, inr, true, false, Option, none, some, arith,
  find_index, get_or, count_if, eq_ne, set, Option-cases, length, find_index-not-none,
  find_index-lt, find_index_sound, count_if-lt-length, eq_self, find_index-set_new, List, ◌∙◌, refl,
  count_if-zero, length-set, ap, get_or-set_self, count_if-set, count_if-zero_at,
}
use esp32_c6_gateway_os.Os.Types.{ok, full, max_subscribers}
use esp32_c6_gateway_os.Os.Event.State.{Filter, Subscriber, Bus, zero_subscriber, event_type_max}
use esp32_c6_gateway_os.Os.Event.Subscribe.{
  is_free, is_active, is_of, subscriber, deactivated, fill_slot, subscribe, clear_slot, unsubscribe,
}
use esp32_c6_gateway_os.Os.Event.Valid.{IsValid}

module _ (b : Bus) (f : Option Filter) (handler ctx : ℕ) (v : IsValid b) (i : b.initialized ≡ true)
    (h : handler ≢ 0) where
  subscribe_searches :
      subscribe b f handler ctx
      ≡ fill_slot b (subscriber f handler ctx) (find_index is_free b.subscribers)
  unfolding subscribe
  subscribe_searches = simp (i, eq_ne handler 0 h, subscribe)

  found_free :
      (k : ℕ)
      → find_index is_free b.subscribers ≡ some k
      → (k < length b.subscribers)
        × ((get_or b.subscribers k zero_subscriber).active ≡ false)
        × (b.sub_count < max_subscribers)
  found_free k found =
      let lt : k < length b.subscribers = find_index-lt is_free b.subscribers k found in
      let inactive : (get_or b.subscribers k zero_subscriber).active ≡ false =
        ground (arith, find_index_sound is_free b.subscribers zero_subscriber k found) in
      (
        lt,
        inactive,
        omega (
          arith,
          v.subs_counted,
          v.subs_length,
          count_if-lt-length is_active b.subscribers k zero_subscriber lt inactive,
        ),
      )

  fill_slot-some :
      (k : ℕ)
      → b.sub_count < max_subscribers
      → fill_slot b (subscriber f handler ctx) (some k) ≡ (
        ok,
        record b {
          subscribers = set b.subscribers k (subscriber f handler ctx);
          sub_count = b.sub_count + 1;
        },
      )
  unfolding fill_slot
  fill_slot-some k lt = ground arith

  none_free : find_index is_free b.subscribers ≡ none → b.sub_count ≡ max_subscribers
  none_free n = omega (
    arith,
    v.subs_counted,
    v.subs_length,
    find_index-not-none is_active is_free b.subscribers (λ s. refl) n,
  )

  -- The slot of a bus that holds this subscription: it is active, has the caller's handler and
  -- context, and hears what the caller's filter says, or every type where that is NULL.
  abbrev pub Holds : Bus → ℕ → Type 0
  Holds b' k =
      let s : Subscriber = get_or b'.subscribers k zero_subscriber in
      (s.active ≡ true)
      × (s.handler ≡ handler)
      × (s.ctx ≡ ctx)
      × ((g : Filter) → f ≡ some g → s.filter ≡ g)
      × (f ≡ none → (s.filter.type_min ≡ 0) × (s.filter.type_max ≡ event_type_max))

  -- What a subscription in a slot that was free makes of the bus.
  abbrev pub Subscribed : Bus → ℕ → Type 0
  Subscribed b' k =
      (k < max_subscribers)
      × ((get_or b.subscribers k zero_subscriber).active ≡ false)
      × Holds b' k
      × ((j : ℕ)
          → k ≢ j
          → get_or b'.subscribers j zero_subscriber ≡ get_or b.subscribers j zero_subscriber)
      × (b' ≡ record b { subscribers = b'.subscribers; sub_count = b.sub_count + 1 })

  Subscribed-set :
      (k : ℕ)
      → k < length b.subscribers
      → (get_or b.subscribers k zero_subscriber).active ≡ false
      → Subscribed
          (record b {
            subscribers = set b.subscribers k (subscriber f handler ctx);
            sub_count = b.sub_count + 1;
          })
          k
  Subscribed-set k lt inactive =
      let own : Subscriber = subscriber f handler ctx in
      let stored : get_or (set b.subscribers k own) k zero_subscriber ≡ own =
        get_or-set_self b.subscribers k own zero_subscriber lt in
      (
        omega (arith, lt, v.subs_length),
        inactive,
        rw stored (
          refl,
          refl,
          refl,
          (λ g is_some. rw is_some refl),
          (λ is_none. rw is_none (refl, refl)),
        ),
        (λ j ne. get_or-set_ne b.subscribers k j own zero_subscriber ne),
        refl,
      )

  after : ℕ → Bus
  after k = record b {
    subscribers = set b.subscribers k (subscriber f handler ctx);
    sub_count = b.sub_count + 1;
  }

  -- On a valid initialised bus, `os_event_subscribe` of a handler that is not NULL is refused, with
  -- OS_ERR_FULL and no change, exactly when 32 subscriptions are active. Otherwise it returns OS_OK,
  -- and one of the 32 slots, which was free, holds the subscription: active, with the handler, the
  -- context and the filter that were given, or all types for NULL. Every other slot is as before,
  -- `sub_count` grows by one, and nothing else changes.
  pub subscribe_outcome :
      let (err, b') = subscribe b f handler ctx in
      ((b.sub_count ≡ max_subscribers) × (err ≡ full) × (b' ≡ b))
      ⊎ ((b.sub_count < max_subscribers) × (err ≡ ok) × ((k : ℕ) × Subscribed b' k))
  unfolding after fill_slot
  subscribe_outcome = elim (Option-cases (find_index is_free b.subscribers)) [
    | inl n ↦ inl (none_free n, rw (subscribe_searches, n) refl, rw (subscribe_searches, n) refl)
    | inr (k, found) ↦
        let (lt, inactive, free) = found_free k found in
        let e : subscribe b f handler ctx ≡ (ok, after k) =
          subscribe_searches
          ∙ ap (fill_slot b (subscriber f handler ctx)) found
          ∙ fill_slot-some k free in
        inr (free, rw e refl, (k, rw e (Subscribed-set k lt inactive)))
  ]

  matches_own : is_of handler (subscriber f handler ctx) ≡ true
  matches_own = ground (arith, eq_self handler)

  fill_after :
      (k : ℕ)
      → b.sub_count < max_subscribers
      → fill_slot b (subscriber f handler ctx) (some k) ≡ (ok, after k)
  unfolding after
  fill_after k free = fill_slot-some k free

  unsubscribe_finds :
      (k : ℕ)
      → count_if (is_of handler) b.subscribers ≡ 0
      → k < length b.subscribers
      → unsubscribe (after k) handler ≡ clear_slot (after k) (some k)
  unfolding unsubscribe after
  unsubscribe_finds k z lt = simp (
    i,
    find_index-set_new (is_of handler) b.subscribers k (subscriber f handler ctx)
        (count_if-zero (is_of handler) b.subscribers z) lt matches_own,
    unsubscribe,
  )

  clear_own :
      (k : ℕ)
      → count_if (is_of handler) b.subscribers ≡ 0
      → k < length b.subscribers
      → b.sub_count < max_subscribers
      → let (err, b') = clear_slot (after k) (some k) in
        (err ≡ ok) × (count_if (is_of handler) b'.subscribers ≡ 0) × (b'.sub_count ≡ b.sub_count)
  unfolding clear_slot after
  clear_own k z lt free =
      let own : Subscriber = subscriber f handler ctx in
      let subs : List Subscriber = set b.subscribers k own in
      let gone : Subscriber = deactivated (get_or subs k zero_subscriber) in
      ground (
        arith,
        matches_own,
        length-set b.subscribers k own,
        get_or-set_self b.subscribers k own zero_subscriber lt,
        count_if-set (is_of handler) b.subscribers k own zero_subscriber lt,
        count_if-set (is_of handler) subs k gone zero_subscriber,
        count_if-zero_at (is_of handler) b.subscribers k zero_subscriber z lt,
      )

  -- If the handler had no subscription and a slot is free, `os_event_unsubscribe` takes back what
  -- `os_event_subscribe` did: both succeed, the handler has no active subscription left, and
  -- `sub_count` is what it was.
  pub subscribe-unsubscribe :
      count_if (is_of handler) b.subscribers ≡ 0
      → b.sub_count < max_subscribers
      → let (err, b') = subscribe b f handler ctx in
        let (err', b'') = unsubscribe b' handler in
        (err ≡ ok)
        × (err' ≡ ok)
        × (count_if (is_of handler) b''.subscribers ≡ 0)
        × (b''.sub_count ≡ b.sub_count)
  subscribe-unsubscribe z free = elim (Option-cases (find_index is_free b.subscribers)) [
    | inl n ↦ absurd (omega (arith, none_free n))
    | inr (k, found) ↦
        let e : subscribe b f handler ctx ≡ (ok, after k) =
          subscribe_searches
          ∙ ap (fill_slot b (subscriber f handler ctx)) found
          ∙ fill_after k free in
        let lt : k < length b.subscribers = (found_free k found).0 in
        let (c, n, m) = clear_own k z lt free in rw (e, unsubscribe_finds k z lt) (refl, c, n, m)
  ]
