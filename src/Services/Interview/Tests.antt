-- ===== src/Services/Interview/Tests.antt =====
-- The interview service on concrete input: the theorems about services/src/interview.c there, and a
-- device's way from its announcement to the state READY.
use esp32_c6_gateway_os.Services.Registry.Types.{Registry, esp_limits, zero_registry}
use esp32_c6_gateway_os.Base.{
  get_or, zero, suc, ℕ, List, [], ◌∷◌, replicate-IsTable, arith, ◌≡◌, count_if, true,
  each-replicate, refl, find_index,
}
use esp32_c6_gateway_os.Os.Types.{Env}
use esp32_c6_gateway_os.Services.Interview.Ops.{
  World, init, start, start_new, start_at, find_interview, alloc_interview,
}
use esp32_c6_gateway_os.Services.Interview.State.{
  zero_interviews, zero_service, zero_interview, is_active, max_interviews,
}
use esp32_c6_gateway_os.Services.Registry.Valid.{IsValid, init-IsValid, Fits, zero_registry-IsValid}
use esp32_c6_gateway_os.Services.Interview.Process.{IsConsistent}
use esp32_c6_gateway_os.Services.Interview.Run.{
  call, turns, calls, inits, starts, calls-IsConsistent, processes, cancels, interviews_end,
}
use esp32_c6_gateway_os.Os.Event.State.{zero_bus}
use esp32_c6_gateway_os.Services.Interview.Steps.{IsLive}
use esp32_c6_gateway_os.Services.Interview.Expired.{AllLate, expired, timeouts_silent}
use esp32_c6_gateway_os.Services.Registry.Keep.{add_node-IsValid}
use esp32_c6_gateway_os.Services.Registry.Nodes
use esp32_c6_gateway_os.Services.Registry.Nodes.{add_node}

abbrev at : ℕ → Env
at t = record { now = t; padding = λ i. 0 }

abbrev boot : World
boot = record { svc = zero_service; reg = zero_registry esp_limits; bus = zero_bus }

boot-IsConsistent : IsConsistent esp_limits boot
unfolding zero_interviews
boot-IsConsistent = record {
  table = replicate-IsTable is_active (λ c. c.ieee_addr) max_interviews zero_interview refl;
  live = each-replicate IsLive max_interviews zero_interview (λ f. cc f);
  registry = zero_registry-IsValid esp_limits;
}

fits : Fits esp_limits
fits = omega arith

calls-IsConsistent_example : IsConsistent esp_limits (
    calls esp_limits
      (inits ∷ starts (at 1) 17 ∷ processes (at 2) ∷ starts (at 3) 17 ∷ cancels (at 4) 17 ∷ [])
      boot)
calls-IsConsistent_example = calls-IsConsistent esp_limits fits _ boot boot-IsConsistent

abbrev started : World
started = call esp_limits (starts (at 1) 17) (call esp_limits inits boot)

started-IsConsistent : IsConsistent esp_limits started
unfolding calls
started-IsConsistent =
    calls-IsConsistent esp_limits fits (inits ∷ starts (at 1) 17 ∷ []) boot boot-IsConsistent

started_on : started.svc.initialized ≡ true
unfolding call init start start_new start_at find_interview alloc_interview find_index
    zero_interviews
started_on = refl

abbrev six : List Env
six = at 2 ∷ at 3 ∷ at 4 ∷ at 5 ∷ at 6 ∷ at 7 ∷ []

interviews_end_example :
    ((turns esp_limits six started).svc.active_count ≡ 0)
    × (count_if is_active (turns esp_limits six started).svc.interviews ≡ 0)
interviews_end_example =
    interviews_end esp_limits fits six started started-IsConsistent started_on (omega arith)

-- A device that joins, and whose interview no turn reaches for 30 seconds.
abbrev empty_registry : Registry
empty_registry = let z : Registry = zero_registry esp_limits in record z { initialized = true }

empty_registry-IsValid : IsValid esp_limits empty_registry
unfolding Nodes.init
empty_registry-IsValid =
    init-IsValid esp_limits (zero_registry esp_limits) (zero_registry-IsValid esp_limits)

abbrev joined : World
joined = record {
  svc = zero_service;
  reg = (add_node esp_limits (at 0) empty_registry zero_bus 17 3).1;
  bus = zero_bus;
}

joined-IsConsistent : IsConsistent esp_limits joined
joined-IsConsistent = record {
  table = boot-IsConsistent.table;
  live = boot-IsConsistent.live;
  registry =
      add_node-IsValid esp_limits empty_registry empty_registry-IsValid (omega arith) (at 0)
        zero_bus 17 3;
}

abbrev waits : World
waits = call esp_limits (starts (at 1) 17) (call esp_limits inits joined)

waits-IsConsistent : IsConsistent esp_limits waits
unfolding calls
waits-IsConsistent =
    calls-IsConsistent esp_limits fits (inits ∷ starts (at 1) 17 ∷ []) joined joined-IsConsistent

waits_on : waits.svc.initialized ≡ true
unfolding call init start start_new start_at find_interview alloc_interview find_index
    zero_interviews
waits_on = refl

waits_late : AllLate (at 30002) waits.svc.interviews
unfolding call init start start_new start_at find_interview alloc_interview find_index
    zero_interviews
waits_late zero on = omega arith
waits_late (suc zero) on = cc
waits_late (suc (suc zero)) on = cc
waits_late (suc (suc (suc zero))) on = cc
waits_late (suc (suc (suc (suc k)))) on = cc

timeouts_silent_example :
    let w' = turns esp_limits (at 30002 ∷ at 90000 ∷ []) waits in
    (w'.svc.active_count ≡ 0)
    × (count_if is_active w'.svc.interviews ≡ 0)
    × ((k : ℕ)
        → get_or w'.svc.interviews k zero_interview
          ≡ expired (get_or waits.svc.interviews k zero_interview))
    × (w'.reg ≡ waits.reg)
    × (w'.bus ≡ waits.bus)
timeouts_silent_example =
    timeouts_silent esp_limits fits (at 30002) (at 90000 ∷ []) waits waits-IsConsistent waits_on
      waits_late
