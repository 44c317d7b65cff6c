-- ===== src/Os/Fibre/Reach.antt =====
-- The reachable states of the scheduler (os/src/os_fibre.c).
use esp32_c6_gateway_os.Base.{
  ℕ, true, false, if_rule, not, ◌||◌, arith, refl, true-false, ◌≡◌, sym, suc, ◌∙◌, zero,
}
use esp32_c6_gateway_os.Os.Fibre.State.{Sched, zero_sched, is_running, is_ready}
use esp32_c6_gateway_os.Os.Fibre.Ops.{init, start, create, tick_advance, with_idle}
use esp32_c6_gateway_os.Os.Fibre.Valid.{
  IsSched, Step, ticks, starts, creates, chooses, gives_back, create-IsSched, act-IsSched, runs_now,
}
use esp32_c6_gateway_os.Os.Fibre.Chosen.{run_next-IsSched}

step-IsSched : (s t : Sched) → Step s t → IsSched s → IsSched t
unfolding tick_advance start
step-IsSched s _ ticks v = record {
  idle_first = v.idle_first;
  some_fibre = v.some_fibre;
  counted = v.counted;
  bounded = v.bounded;
  in_chain = v.in_chain;
  idle_runs = v.idle_runs;
  only_current = v.only_current;
}
step-IsSched s _ starts v =
    if_rule IsSched (not s.initialized || s.running) _ _ (λ _. v)
      (λ _. record {
        idle_first = v.idle_first;
        some_fibre = v.some_fibre;
        counted = v.counted;
        bounded = v.bounded;
        in_chain = v.in_chain;
        idle_runs = v.idle_runs;
        only_current = v.only_current;
      })
step-IsSched s _ (creates entry arg name size memory) v =
    create-IsSched s v entry arg name size memory
step-IsSched s _ (chooses quiet) v = run_next-IsSched s v quiet
step-IsSched s _ (gives_back c a r idle) v = act-IsSched s v c r a idle

-- The state after `os_fibre_init`.
abbrev pub boot : Sched
boot = (init zero_sched true).1

-- The states that the scheduler reaches from there.
pub data Reachable : Sched → Type 0 where
  booted : Reachable boot
  steps : (s t : Sched) → Reachable s → Step s t → Reachable t

boot_quiet : (i : ℕ) → runs_now boot i ≡ false
unfolding init create with_idle is_running
boot_quiet zero = refl
boot_quiet (suc i) = refl

boot-IsSched : IsSched boot
unfolding init create with_idle is_running is_ready
boot-IsSched = record {
  idle_first = refl;
  some_fibre = omega arith;
  counted = refl;
  bounded = omega arith;
  in_chain = refl;
  idle_runs = refl;
  only_current = λ i r. absurd (true-false (sym r ∙ boot_quiet i));
}

-- The invariant: at most one fibre is RUNNING, the current one, and the idle fibre is never gone.
pub Reachable-IsSched : (s : Sched) → Reachable s → IsSched s
Reachable-IsSched s booted = boot-IsSched
Reachable-IsSched s (steps r t before step) = step-IsSched r s step (Reachable-IsSched r before)
