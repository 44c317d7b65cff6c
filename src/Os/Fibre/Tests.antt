-- ===== src/Os/Fibre/Tests.antt =====
-- Runs of the scheduler (os/src/os_fibre.c) with an idle fibre and two others.
use esp32_c6_gateway_os.Base.{
  ℕ, List, [], ◌∷◌, some, none, true, false, arith, ◌≡◌, suc, true-false, refl, sym, zero, ◌∙◌,
}
use esp32_c6_gateway_os.Os.Fibre.State.{
  Sched, zero_sched, zero_fibre, zero_fibre, fibre_at, is_ready, is_running, is_sleeping,
}
use esp32_c6_gateway_os.Os.Fibre.Ops.{
  start, run_next, scan, create, is_pointer, find_next_ready, can_run, scan_from, around, wake_all,
  after_current, or_head, or_idle,
}
use esp32_c6_gateway_os.Os.Fibre.Reach.{boot, booted, steps, Reachable-IsSched}
use esp32_c6_gateway_os.Os.Fibre.Valid.{starts, creates, IsSched, runs_now}
use esp32_c6_gateway_os.Os.Fibre.Fair.{Round, yields, Waits, sleeps, runs_in, choice, rounds-fair}
use esp32_c6_gateway_os.Os.Fibre.Choice.{IsChain, place-lt, awake, find_next_ready-Ends}
use esp32_c6_gateway_os.Os.Fibre.Rotation.{Ends}
use esp32_c6_gateway_os.Os.Fibre.Chosen.{Chosen, run_next-Chosen}
use esp32_c6_gateway_os.Os.Fibre.Wake.{after_ticks, sleep-wakes}

-- Two fibres that are READY behind the idle fibre, none chosen yet.
abbrev two : Sched
two = record zero_sched {
  initialized = true;
  running = true;
  fibres = zero_fibre ∷ zero_fibre ∷ zero_fibre ∷ [];
  idle = some 0;
  count = 3;
}

-- The second of them is current.
abbrev two_at_2 : Sched
two_at_2 = record two { current = some 2 }

two-IsChain : IsChain two
two-IsChain = record { some_fibre = omega arith; in_chain = refl }

find_next_ready-Ends_example :
    Ends 3 2 (place-lt two two-IsChain) (can_run (awake two)) (find_next_ready two).0
find_next_ready-Ends_example = find_next_ready-Ends two two-IsChain

two-Waits : Waits 1 two
unfolding is_ready is_pointer
two-Waits = record {
  chain = two-IsChain;
  in_range = omega arith;
  is_waiting = refl;
  not_idle = refl;
}

abbrev one_round : Round
one_round = record { passed = 5; does = yields }

abbrev rounds : List Round
rounds = one_round ∷ record { passed = 0; does = sleeps 10 } ∷ one_round ∷ []

rounds-fair_example : runs_in 1 two rounds ≡ true
rounds-fair_example = rounds-fair 1 two rounds two-Waits (omega arith)

sleep-wakes_example : is_ready (fibre_at (awake (after_ticks two_at_2 2 10 12)) 2).state ≡ true
sleep-wakes_example =
    sleep-wakes two_at_2 2 10 12 refl refl (omega arith) (omega arith) (omega arith) (omega arith)
      (omega arith)

two_quiet : (i : ℕ) → runs_now two i ≡ false
unfolding is_running
two_quiet zero = refl
two_quiet (suc zero) = refl
two_quiet (suc (suc zero)) = refl
two_quiet (suc (suc (suc i))) = refl

two-IsSched : IsSched two
unfolding is_ready is_running
two-IsSched = record {
  idle_first = refl;
  some_fibre = omega arith;
  counted = refl;
  bounded = omega arith;
  in_chain = refl;
  idle_runs = refl;
  only_current = λ i r. absurd (true-false (sym r ∙ two_quiet i));
}

run_next-Chosen_example : Chosen two two-IsSched two_quiet (run_next two)
run_next-Chosen_example = run_next-Chosen two two-IsSched two_quiet

abbrev made : Sched
made = (create boot (some 1) 0 none 0 true).2

Reachable-IsSched_example : IsSched (start made)
Reachable-IsSched_example =
    Reachable-IsSched (start made)
      (steps made (start made) (steps boot made booted (creates (some 1) 0 none 0 true)) starts)

-- The head of the chain runs first, then the fibre below it.
turns_run : (choice two ≡ some 2) × (choice two_at_2 ≡ some 1)
unfolding choice find_next_ready scan_from scan around wake_all after_current or_head is_ready
    is_sleeping is_pointer or_idle
turns_run = (refl, refl)
