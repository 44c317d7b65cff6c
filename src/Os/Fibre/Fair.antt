-- ===== src/Os/Fibre/Fair.antt =====
-- The scheduler (os/src/os_fibre.c) is fair: a fibre that is READY gets its turn.
use esp32_c6_gateway_os.Base.{
  ℕ, List, Bool, [], ◌∷◌, some, none, true, false, suc, Option, length, ◌≢◌, ◌||◌, ◌<◌, ◌≡◌,
  length-set, if_rule, refl, zero, get_or-set_ne, not, ◌==◌, arith, ap, add32, if_true, ◌∙◌, lt→ltb,
  inl, inr, sym, Bool-cases, ◌≤◌, first_true, true-false, true_or, or_true,
}
use esp32_c6_gateway_os.Os.Fibre.State.{
  Fibre, FibreState, Sched, ready, running, sleeping, dead, fibre_at, put_fibre, is_ready,
  zero_fibre, is_sleeping, blocked,
}
use esp32_c6_gateway_os.Os.Fibre.Ops.{
  sleep, yield, returned, run_next, is_pointer, tick_advance, find_next_ready, yielded, slept,
  or_idle, can_run, dispatch, woken, dispatched,
}
use esp32_c6_gateway_os.Os.Fibre.Choice.{
  IsChain, points_in, place, awake, place-lt, get_or-wake_all, length-wake_all,
  find_next_ready-Ends,
}
use esp32_c6_gateway_os.Os.Fibre.Rotation.{distance, IsNearest, distance_after, distance-lt}

-- How a fibre gives control back: `os_yield`, `os_sleep`, or its function returns.
pub data Act : Type 0 where
  yields : Act
  sleeps : (ms : ℕ) → Act
  ends : Act

unfoldable pub act : Sched → Act → Sched
act s yields = yield s
act s (sleeps ms) = sleep s ms
act s ends = returned s s.current

-- Calls of `os_tick_advance` before the choice, and what the chosen fibre does.
pub record Round : Type 0 where
  pub passed : ℕ
  pub does : Act

unfoldable pub ticked : ℕ → Sched → Sched
ticked zero s = s
ticked (suc k) s = ticked k (tick_advance s)

unfoldable pub round : Sched → Round → Sched
round s r = act (run_next (ticked r.passed s)) r.does

-- The fibre that the next round runs.
unfoldable pub choice : Sched → Option ℕ
choice s = let r = find_next_ready s in or_idle r.1 r.0

-- One of these rounds runs the fibre.
pub runs_in : ℕ → Sched → List Round → Bool
runs_in j s [] = false
runs_in j s (r ∷ rs) =
    let rest = runs_in j (round s r) rs in is_pointer (choice (ticked r.passed s)) j || rest

-- A fibre that is READY, not the idle fibre, in a chain that is in order.
pub record Waits (j : ℕ) (s : Sched) : Type 0 where
  pub chain : IsChain s
  pub in_range : j < length s.fibres
  pub is_waiting : is_ready (fibre_at s j).state ≡ true
  pub not_idle : is_pointer s.idle j ≡ false

-- What a change of another fibre leaves: the fibres' number, this fibre, and the pointers.
pub record Keeps (j : ℕ) (s s' : Sched) : Type 0 where
  pub size : length s'.fibres ≡ length s.fibres
  pub same : fibre_at s' j ≡ fibre_at s j
  pub current : s'.current ≡ s.current
  pub idle : s'.idle ≡ s.idle

Keeps-refl : (j : ℕ) (s : Sched) → Keeps j s s
Keeps-refl j s = record { size = refl; same = refl; current = refl; idle = refl }

put-Keeps : (s : Sched) (i j : ℕ) (f : Fibre) → i ≢ j → Keeps j s (put_fibre s i f)
put-Keeps s i j f ne = record {
  size = length-set s.fibres i f;
  same = get_or-set_ne s.fibres i j f zero_fibre ne;
  current = refl;
  idle = refl;
}

module _ (j i : ℕ) (ne : i ≢ j) where
  yielded-Keeps : (s : Sched) (o : Option ℕ) → o ≡ some i → Keeps j s (yielded s o)
  unfolding yielded
  yielded-Keeps s none e = cc
  yielded-Keeps s (some c) e = put-Keeps s c j _ (λ q. ne cc)

  slept-Keeps : (s : Sched) (o : Option ℕ) (ms : ℕ) → o ≡ some i → Keeps j s (slept s o ms)
  unfolding slept
  slept-Keeps s none ms e = cc
  slept-Keeps s (some c) ms e = put-Keeps s c j _ (λ q. ne cc)

  returned-Keeps : (s : Sched) (o : Option ℕ) → o ≡ some i → Keeps j s (returned s o)
  unfolding returned
  returned-Keeps s none e = cc
  returned-Keeps s (some c) e = put-Keeps s c j _ (λ q. ne cc)

  yield-Keeps : (s : Sched) → s.current ≡ some i → Keeps j s (yield s)
  unfolding yield
  yield-Keeps s e =
      if_rule (Keeps j s) (not s.running) _ _ (λ _. Keeps-refl j s)
        (λ _. yielded-Keeps s s.current e)

  act-Keeps : (s : Sched) (a : Act) → s.current ≡ some i → Keeps j s (act s a)
  unfolding act sleep
  act-Keeps s yields e = yield-Keeps s e
  act-Keeps s (sleeps ms) e =
      if_rule (Keeps j s) (not s.running) _ _ (λ _. Keeps-refl j s)
        (λ _.
          if_rule (Keeps j s) (ms == 0) _ _ (λ _. yield-Keeps s e)
            (λ _. slept-Keeps s s.current ms e))
  act-Keeps s ends e = returned-Keeps s s.current e

-- What keeps a waiting fibre and leaves the current fibre one of the chain keeps it waiting.
Keeps-Waits :
    (j : ℕ) (s s' : Sched)
    → Waits j s
    → length s'.fibres ≡ length s.fibres
    → fibre_at s' j ≡ fibre_at s j
    → s'.idle ≡ s.idle
    → points_in s'.current (length s'.fibres) ≡ true
    → Waits j s'
Keeps-Waits j s s' w size same idle points = record {
  chain = record { some_fibre = omega (arith, size, w.chain.some_fibre); in_chain = points };
  in_range = omega (arith, size, w.in_range);
  is_waiting = ap (λ f. is_ready f.state) same ∙ w.is_waiting;
  not_idle = ap (λ o. is_pointer o j) idle ∙ w.not_idle;
}

not_woken :
    (now : ℕ) (f : Fibre) (st : FibreState) → f.state ≡ st → is_ready st ≡ true → woken now f ≡ f
unfolding is_ready is_sleeping
not_woken now f ready e h = rw e refl
not_woken now f running e h = cc
not_woken now f sleeping e h = cc
not_woken now f blocked e h = cc
not_woken now f dead e h = cc

ticked-Waits :
    (j k : ℕ) (s : Sched)
    → Waits j s
    → Waits j (ticked k s)
      × (place (ticked k s) ≡ place s)
      × (length (ticked k s).fibres ≡ length s.fibres)
unfolding ticked tick_advance
ticked-Waits j zero s w = (w, refl, refl)
ticked-Waits j (suc k) s w =
    ticked-Waits j k (record s { ticks = add32 s.ticks 1 })
      (Keeps-Waits j s (record s { ticks = add32 s.ticks 1 }) w refl refl refl w.chain.in_chain)

is_pointer-ne : (i j : ℕ) → is_pointer (some i) j ≡ false → i ≢ j
unfolding is_pointer
is_pointer-ne i j h = λ e. ground arith

module _ (s : Sched) (o : Option (Option ℕ)) (e : (find_next_ready s).0 ≡ o) where
  choice_found : choice s ≡ or_idle (awake s) o
  unfolding choice find_next_ready
  choice_found = ap (or_idle (awake s)) e

  pub run_found : run_next s ≡ dispatch (awake s) (or_idle (awake s) o)
  unfolding run_next find_next_ready
  run_found = ap (λ x. dispatch (awake s) (or_idle (awake s) x)) e

module _ (j : ℕ) (s : Sched) (w : Waits j s) where
  awake_same : fibre_at (awake s) j ≡ fibre_at s j
  awake_same =
      get_or-wake_all s.ticks s.fibres j
      ∙ not_woken s.ticks (fibre_at s j) (fibre_at s j).state refl w.is_waiting

  waiting_runs : can_run (awake s) j ≡ true
  waiting_runs = rw (awake_same, w.is_waiting, w.not_idle) refl

  -- The state after the nearest fibre is given control.
  abbrev given_to : ℕ → Sched
  given_to i =
      put_fibre (record (awake s) { current = some i }) i
        (dispatched s.ticks (fibre_at (awake s) i))

  dispatch_ready : (i : ℕ) → can_run (awake s) i ≡ true → dispatch (awake s) (some i) ≡ given_to i
  unfolding dispatch
  dispatch_ready i runs =
      if_true (is_ready (fibre_at (awake s) i).state) (given_to i) (awake s)
        (first_true (is_ready (fibre_at (awake s) i).state) (not (is_pointer s.idle i)) runs)

  abbrev Advances : Sched → Type 0
  Advances s' =
      Waits j s'
      × (length s'.fibres ≡ length s.fibres)
      × (distance (length s'.fibres) (place s') j < distance (length s.fibres) (place s) j)

  given_on :
      (i : ℕ) (a : Act)
      → IsNearest (length s.fibres) (place s) (place-lt s w.chain) (can_run (awake s)) i
      → i ≢ j
      → Advances (act (given_to i) a)
  given_on i a (lt, runs, nearest) ne =
      let k : Keeps j (given_to i) (act (given_to i) a) = act-Keeps j i ne (given_to i) a refl in
      let size : length (act (given_to i) a).fibres ≡ length s.fibres =
        k.size ∙ length-set (awake s).fibres i _ ∙ length-wake_all s.ticks s.fibres in
      let same : fibre_at (act (given_to i) a) j ≡ fibre_at s j =
        k.same ∙ get_or-set_ne (awake s).fibres i j _ zero_fibre ne ∙ awake_same in
      let points : points_in (act (given_to i) a).current (length (act (given_to i) a).fibres)
          ≡ true =
        rw (k.current, size) (lt→ltb i (length s.fibres) lt) in
      (
        Keeps-Waits j s (act (given_to i) a) w size same k.idle points,
        size,
        rw (k.current, size)
            (distance_after (length s.fibres) (place s) (place-lt s w.chain) i j lt w.in_range ne
              (nearest j w.in_range waiting_runs)),
      )

  -- A round that runs another fibre brings this one closer.
  round_other : (a : Act) → is_pointer (choice s) j ≡ false → Advances (act (run_next s) a)
  unfolding or_idle
  round_other a other = elim (find_next_ready-Ends s w.chain) [
    | inl (e, nobody) ↦ absurd (true-false (sym waiting_runs ∙ nobody j w.in_range))
    | inr (i, e, nearest) ↦
        let ne : i ≢ j =
          is_pointer-ne i j
            (ap (λ o. is_pointer o j) (sym (choice_found s (some (some i)) e)) ∙ other) in
        let runs : can_run (awake s) i ≡ true = nearest.1 in
        rw (run_found s (some (some i)) e, dispatch_ready i runs) (given_on i a nearest ne)
  ]

fair_within :
    (j : ℕ) (rs : List Round) (s : Sched)
    → Waits j s
    → distance (length s.fibres) (place s) j < length rs
    → runs_in j s rs ≡ true
unfolding runs_in round
fair_within j [] s w near = absurd (omega arith)
fair_within j (r ∷ rs) s w near =
    let t = ticked-Waits j r.passed s w in
    elim (Bool-cases (is_pointer (choice (ticked r.passed s)) j)) [
      | inl now ↦ true_or _ (runs_in j (round s r) rs) now
      | inr other ↦
          let a = round_other j (ticked r.passed s) t.0 r.does other in
          let nearer : distance (length (round s r).fibres) (place (round s r)) j
              < distance (length s.fibres) (place s) j =
            rw (sym t.1, sym t.2) a.2 in
          or_true _ _ (fair_within j rs (round s r) a.0 (omega (arith, nearer, near)))
    ]

pub rounds-fair :
    (j : ℕ) (s : Sched) (rs : List Round)
    → Waits j s
    → length s.fibres ≤ length rs
    → runs_in j s rs ≡ true
rounds-fair j s rs w enough =
    fair_within j rs s w
      (omega (arith, distance-lt (length s.fibres) (place s) (place-lt s w.chain) j w.in_range))
