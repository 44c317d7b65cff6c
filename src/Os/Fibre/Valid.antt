-- ===== src/Os/Fibre/Valid.antt =====
-- The steps of the scheduler (os/src/os_fibre.c), and what those of the fibres keep: the functions
-- that any fibre calls, and the ways in which the running fibre gives control back.
use esp32_c6_gateway_os.Base.{
  ℕ, List, Bool, [], ◌∷◌, some, none, true, false, Option, ◌≡◌, ◌⊎◌, ◌<◌, length, arith, ◌≤◌,
  length-set, ◌∙◌, sym, ◌||◌, ap, lt-cases, get_or, ◌++◌, if_rule, refl, inl, add32, not,
  get_or-set_ne, suc, ◌+◌, leb, inr, length-append, zero, true-false, true_or, get_or-set_either,
  ◌≢◌, ◌==◌, set, if◌then◌else◌, get_or-set_self, if_true, subst, ap₂,
}
use esp32_c6_gateway_os.Os.Fibre.State.{
  Fibre, Sched, ready, fibre_at, is_running, is_ready, put_fibre, max_fibres, zero_fibre,
}
use esp32_c6_gateway_os.Os.Fibre.Ops.{
  start, sleep, yield, create, tick_advance, run_next, is_pointer, new_fibre, stack_or_default,
  yielded, slept, returned,
}
use esp32_c6_gateway_os.Os.Fibre.Fair.{Act, act, yields, sleeps, ends}
use esp32_c6_gateway_os.Os.Fibre.Choice.{points_in}
use esp32_c6_gateway_os.Os.Types.{Err}

abbrev pub runs_now : Sched → ℕ → Bool
runs_now s i = is_running (fibre_at s i).state

-- The scheduler has control where no fibre is RUNNING. The idle fibre only yields.
pub data Step (s : Sched) : Sched → Type 0 where
  ticks : Step s (tick_advance s)
  starts : Step s (start s)
  creates :
      (entry : Option ℕ) (arg : ℕ) (name : Option (List ℕ)) (size : ℕ) (memory : Bool)
      → Step s (create s entry arg name size memory).2
  chooses : ((i : ℕ) → runs_now s i ≡ false) → Step s (run_next s)
  gives_back :
      (c : ℕ) (a : Act)
      → runs_now s c ≡ true
      → (a ≡ yields) ⊎ (is_pointer s.idle c ≡ false)
      → Step s (act s a)

-- Idle is the first fibre and can always run again; only the current fibre is RUNNING.
pub record IsSched (s : Sched) : Type 0 where
  pub idle_first : s.idle ≡ some 0
  pub some_fibre : 0 < length s.fibres
  pub counted : s.count ≡ length s.fibres
  pub bounded : length s.fibres ≤ max_fibres
  pub in_chain : points_in s.current (length s.fibres) ≡ true
  pub idle_runs : (is_ready (fibre_at s 0).state || runs_now s 0) ≡ true
  pub only_current : (i : ℕ) → runs_now s i ≡ true → s.current ≡ some i

idle_written :
    (s : Sched) (c : ℕ) (f : Fibre)
    → 0 < length s.fibres
    → c ≡ 0
    → is_ready f.state ≡ true
    → (is_ready (fibre_at (put_fibre s c f) 0).state || runs_now (put_fibre s c f) 0) ≡ true
idle_written s c f some_fibre e r = true_or _ _ (
    ap (λ g. is_ready g.state)
      (ap (λ k. get_or (set s.fibres k f) 0 zero_fibre) e
        ∙ get_or-set_self s.fibres 0 f zero_fibre some_fibre)
    ∙ r)

-- A write of a fibre that is not RUNNING, over the only one that may be.
pub put-IsSched :
    (s : Sched) (c : ℕ) (f : Fibre)
    → IsSched s
    → is_running f.state ≡ false
    → (c ≡ 0 → is_ready f.state ≡ true)
    → IsSched (put_fibre s c f)
put-IsSched s c f v quiet idle = record {
  idle_first = v.idle_first;
  some_fibre = omega (arith, v.some_fibre, length-set s.fibres c f);
  counted = v.counted ∙ sym (length-set s.fibres c f);
  bounded = omega (arith, v.bounded, length-set s.fibres c f);
  in_chain = ap (points_in s.current) (length-set s.fibres c f) ∙ v.in_chain;
  idle_runs = elim (lt-cases 0 c) [
    | inl other ↦
        ap (λ g. is_ready g.state || is_running g.state)
          (get_or-set_ne s.fibres c 0 f zero_fibre (λ e. omega arith))
        ∙ v.idle_runs
    | inr first ↦ idle_written s c f v.some_fibre (omega arith) (idle (omega arith))
  ];
  only_current = λ i.
      get_or-set_either (λ g. is_running g.state ≡ true → s.current ≡ some i) s.fibres c f
        zero_fibre i (λ r. absurd (true-false (sym r ∙ quiet))) (v.only_current i);
}

append_old :
    (xs : List Fibre) (f : Fibre) (i : ℕ)
    → i < length xs
    → get_or (xs ++ (f ∷ [])) i zero_fibre ≡ get_or xs i zero_fibre
append_old [] f i h = absurd (omega arith)
append_old (x ∷ xs) f zero h = refl
append_old (x ∷ xs) f (suc i) h = append_old xs f i (omega arith)

-- A new fibre that is READY.
append_quiet :
    (P : Fibre → Type 0) (xs : List Fibre) (f : Fibre) (i : ℕ)
    → P f
    → P (get_or xs i zero_fibre)
    → P (get_or (xs ++ (f ∷ [])) i zero_fibre)
append_quiet P [] f zero p q = p
append_quiet P [] f (suc i) p q = q
append_quiet P (x ∷ xs) f zero p q = q
append_quiet P (x ∷ xs) f (suc i) p q = append_quiet P xs f i p q

points_more : (o : Option ℕ) (m n : ℕ) → m ≤ n → points_in o m ≡ true → points_in o n ≡ true
points_more none m n h p = refl
points_more (some c) m n h p = ground arith

pub quiet_ready : is_running ready ≡ false
unfolding is_running
quiet_ready = refl

pub ready_ready : is_ready ready ≡ true
unfolding is_ready
ready_ready = refl

module _ (s : Sched) (v : IsSched s) where
  append-IsSched :
      (f : Fibre)
      → is_running f.state ≡ false
      → s.count < max_fibres
      → IsSched (record s { fibres = s.fibres ++ (f ∷ []); count = add32 s.count 1 })
  append-IsSched f quiet room =
      let size : length (s.fibres ++ (f ∷ [])) ≡ length s.fibres + 1 =
        length-append s.fibres (f ∷ []) in
      record {
        idle_first = v.idle_first;
        some_fibre = omega (arith, size);
        counted = omega (arith, size, v.counted);
        bounded = omega (arith, size, v.counted);
        in_chain = points_more s.current _ _ (omega (arith, size)) v.in_chain;
        idle_runs =
            ap (λ g. is_ready g.state || is_running g.state) (append_old s.fibres f 0 v.some_fibre)
            ∙ v.idle_runs;
        only_current = λ i.
            append_quiet (λ g. is_running g.state ≡ true → s.current ≡ some i) s.fibres f i
              (λ r. absurd (true-false (sym r ∙ quiet))) (v.only_current i);
      }

  abbrev Made : Err × Option ℕ × Sched → Type 0
  Made r = IsSched r.2

  pub create-IsSched :
      (entry : Option ℕ) (arg : ℕ) (name : Option (List ℕ)) (size : ℕ) (memory : Bool)
      → IsSched (create s entry arg name size memory).2
  unfolding create is_running
  create-IsSched none arg name size memory = if_rule Made (not s.initialized) _ _ (λ _. v) (λ _. v)
  create-IsSched (some entry) arg name size memory =
      if_rule Made (not s.initialized) _ _ (λ _. v)
        (λ _.
          if_rule Made (leb max_fibres s.count || not memory) _ _ (λ _. v)
            (λ room.
              append-IsSched (new_fibre entry arg name (stack_or_default size)) refl
                (ground arith)))

  module _ (c : ℕ) (r : runs_now s c ≡ true) where
    yielded-IsSched : IsSched (yielded s (some c))
    unfolding yielded
    yielded-IsSched =
        let e : (if runs_now s c then ready else (fibre_at s c).state) ≡ ready = if_true _ _ _ r in
        put-IsSched s c _ v (ap is_running e ∙ quiet_ready) (λ _. ap is_ready e ∙ ready_ready)

    yield-IsSched : IsSched (yield s)
    unfolding yield
    yield-IsSched =
        if_rule IsSched (not s.running) _ _ (λ _. v)
          (λ _. subst (λ o. IsSched (yielded s o)) (sym (v.only_current c r)) yielded-IsSched)

    module _ (not_idle : is_pointer s.idle c ≡ false) where
      not_first : c ≢ 0
      unfolding is_pointer
      not_first e = absurd (true-false (sym (ap₂ is_pointer v.idle_first e) ∙ not_idle))

      slept-IsSched : (ms : ℕ) → IsSched (slept s (some c) ms)
      unfolding slept is_running
      slept-IsSched ms = put-IsSched s c _ v refl (λ e. absurd (not_first e))

      returned-IsSched : IsSched (returned s (some c))
      unfolding returned is_running
      returned-IsSched = put-IsSched s c _ v refl (λ e. absurd (not_first e))

      sleep-IsSched : (ms : ℕ) → IsSched (sleep s ms)
      unfolding sleep
      sleep-IsSched ms =
          if_rule IsSched (not s.running) _ _ (λ _. v)
            (λ _.
              if_rule IsSched (ms == 0) _ _ (λ _. yield-IsSched)
                (λ _.
                  subst (λ o. IsSched (slept s o ms)) (sym (v.only_current c r))
                    (slept-IsSched ms)))

    pub act-IsSched : (a : Act) → (a ≡ yields) ⊎ (is_pointer s.idle c ≡ false) → IsSched (act s a)
    unfolding act
    act-IsSched a (inl e) = rw e yield-IsSched
    act-IsSched yields (inr n) = yield-IsSched
    act-IsSched (sleeps ms) (inr n) = sleep-IsSched n ms
    act-IsSched ends (inr n) =
        subst (λ o. IsSched (returned s o)) (sym (v.only_current c r)) (returned-IsSched n)
