-- ===== src/Os/Fibre/Chosen.antt =====
-- What the scheduler (os/src/os_fibre.c) chooses, and that the choice keeps its state in order.
use esp32_c6_gateway_os.Base.{
  ℕ, Bool, some, none, true, false, ◌≡◌, ◌||◌, ◌==◌, ◌≢◌, length, add32, ◌<◌, Bool-cases, refl,
  if_rule, arith, ap, inl, length-set, get_or-set_self, eq_sound, ◌∙◌, if_true, ◌&&◌, inr, sym,
  true-false, ltb, first_true, get_or-set_ne, lt→ltb, not, get_or-set_either, true_or, ap₂, subst,
  eq_false, second_true,
}
use esp32_c6_gateway_os.Os.Fibre.State.{
  Fibre, Sched, running, fibre_at, is_running, is_ready, put_fibre, is_sleeping, zero_fibre,
}
use esp32_c6_gateway_os.Os.Fibre.Ops.{
  run_next, due, woken, dispatch, or_idle, dispatched, can_run, is_pointer,
}
use esp32_c6_gateway_os.Os.Fibre.Valid.{IsSched, runs_now, quiet_ready, ready_ready}
use esp32_c6_gateway_os.Os.Fibre.Choice.{
  awake, length-wake_all, IsChain, get_or-wake_all, find_next_ready-Ends,
}
use esp32_c6_gateway_os.Os.Fibre.Fair.{run_found}

woken-quiet :
    (now : ℕ) (f : Fibre) → is_running f.state ≡ false → is_running (woken now f).state ≡ false
woken-quiet now f h =
    if_rule {A = Fibre} (λ g. is_running g.state ≡ false) (is_sleeping f.state && due now f) _ _
      (λ _. quiet_ready) (λ _. h)

woken-ready : (now : ℕ) (f : Fibre) → is_ready f.state ≡ true → is_ready (woken now f).state ≡ true
woken-ready now f h =
    if_rule {A = Fibre} (λ g. is_ready g.state ≡ true) (is_sleeping f.state && due now f) _ _
      (λ _. ready_ready) (λ _. h)

or_first : (a b : Bool) → (a || b) ≡ true → b ≡ false → a ≡ true
or_first true b h e = refl
or_first false b h e = cc

running_runs : (is_ready running || is_running running) ≡ true
unfolding is_ready is_running
running_runs = refl

running_running : is_running running ≡ true
unfolding is_running
running_running = refl

-- The choice, where no fibre is RUNNING.
module _ (s : Sched) (v : IsSched s) (quiet : (i : ℕ) → runs_now s i ≡ false) where
  awake-quiet : (i : ℕ) → runs_now (awake s) i ≡ false
  awake-quiet i =
      ap (λ g. is_running g.state) (get_or-wake_all s.ticks s.fibres i)
      ∙ woken-quiet s.ticks (fibre_at s i) (quiet i)

  size : length (awake s).fibres ≡ length s.fibres
  size = length-wake_all s.ticks s.fibres

  idle_ready : is_ready (fibre_at (awake s) 0).state ≡ true
  idle_ready =
      ap (λ g. is_ready g.state) (get_or-wake_all s.ticks s.fibres 0)
      ∙ woken-ready s.ticks (fibre_at s 0) (or_first _ _ v.idle_runs (quiet 0))

  -- The state in which a READY fibre has been given control.
  abbrev given : ℕ → Sched
  given i =
      put_fibre (record (awake s) { current = some i }) i
        (dispatched s.ticks (fibre_at (awake s) i))

  -- A fibre runs that was READY; it is the idle fibre only where no other could run.
  abbrev pub Chosen : Sched → Type 0
  Chosen s' =
      (i : ℕ) × (s'.current ≡ some i)
      × (runs_now s' i ≡ true)
      × ((fibre_at s' i).run_count ≡ add32 (fibre_at s i).run_count 1)
      × ((i ≡ 0) → (j : ℕ) → j < length s.fibres → can_run (awake s) j ≡ false)
      × IsSched s'

  given_self :
      (i : ℕ)
      → i < length s.fibres
      → fibre_at (given i) i ≡ dispatched s.ticks (fibre_at (awake s) i)
  given_self i lt = get_or-set_self (awake s).fibres i _ zero_fibre (omega (arith, size))

  only : (i k : ℕ) → runs_now (given i) k ≡ true → i ≡ k
  only i k r = elim (Bool-cases (i == k)) [
    | inl t ↦ eq_sound i k t
    | inr f ↦ absurd (
        true-false (
          sym r
          ∙ ap (λ g. is_running g.state)
              (get_or-set_ne (awake s).fibres i k _ zero_fibre (eq_false i k f))
          ∙ awake-quiet k))
  ]

  given-IsSched : (i : ℕ) → i < length s.fibres → IsSched (given i)
  given-IsSched i lt =
      let n : length (given i).fibres ≡ length s.fibres = length-set (awake s).fibres i _ ∙ size in
      record {
        idle_first = v.idle_first;
        some_fibre = omega (arith, n, v.some_fibre);
        counted = v.counted ∙ sym n;
        bounded = omega (arith, n, v.bounded);
        in_chain = ap (ltb i) n ∙ lt→ltb i (length s.fibres) lt;
        idle_runs =
            get_or-set_either (λ g. (is_ready g.state || is_running g.state) ≡ true)
              (awake s).fibres i _ zero_fibre 0 running_runs (true_or _ _ idle_ready);
        only_current = λ k r. ap some (only i k r);
      }

  same_count : (i : ℕ) → (fibre_at (awake s) i).run_count ≡ (fibre_at s i).run_count
  same_count i =
      ap (λ g. g.run_count) (get_or-wake_all s.ticks s.fibres i)
      ∙ if_rule {A = Fibre} (λ g. g.run_count ≡ (fibre_at s i).run_count)
          (is_sleeping (fibre_at s i).state && due s.ticks (fibre_at s i)) _ _ (λ _. refl)
          (λ _. refl)

  given-Chosen :
      (i : ℕ)
      → i < length s.fibres
      → is_ready (fibre_at (awake s) i).state ≡ true
      → ((i ≡ 0) → (j : ℕ) → j < length s.fibres → can_run (awake s) j ≡ false)
      → Chosen (dispatch (awake s) (some i))
  unfolding dispatch
  given-Chosen i lt r idle =
      rw (if_true (is_ready (fibre_at (awake s) i).state) (given i) (awake s) r) (
        i,
        refl,
        ap (λ g. is_running g.state) (given_self i lt) ∙ running_running,
        ap (λ g. g.run_count) (given_self i lt) ∙ ap (λ n. add32 n 1) (same_count i),
        idle,
        given-IsSched i lt,
      )

  not_idle : (i : ℕ) → can_run (awake s) i ≡ true → i ≢ 0
  unfolding is_pointer
  not_idle i runs first =
      true-false (sym (second_true _ _ runs) ∙ ap not (ap₂ is_pointer v.idle_first first))

  pub run_next-Chosen : Chosen (run_next s)
  unfolding or_idle
  run_next-Chosen =
      let chain : IsChain s = record { some_fibre = v.some_fibre; in_chain = v.in_chain } in
      elim (find_next_ready-Ends s chain) [
        | inl (e, nobody) ↦
            subst Chosen (sym (run_found s (some none) e ∙ ap (dispatch (awake s)) v.idle_first))
              (given-Chosen 0 v.some_fibre idle_ready (λ _. nobody))
        | inr (i, e, (lt, runs, nearest)) ↦ subst Chosen (sym (run_found s (some (some i)) e)) (
            given-Chosen i lt (first_true _ (not (is_pointer s.idle i)) runs)
              (λ first. absurd (not_idle i runs first)))
      ]

  pub run_next-IsSched : IsSched (run_next s)
  run_next-IsSched = let (i, c, r, n, idle, kept) = run_next-Chosen in kept
