-- ===== src/Services/Interview/Keep.antt =====
-- The functions of services/src/interview.c that start and cancel keep the service consistent.
use esp32_c6_gateway_os.Base.{
  ℕ, if_rule, Option, replicate-IsTable, find_index, Second, vacant, not, ◌≡◌, some, none, refl,
  each-replicate, get_or, fill-IsTable, false, clear-IsTable, add32, sub32, arith, count_in,
  fill-lt, clear-pos, each-set,
}
use esp32_c6_gateway_os.Services.Interview.State.{
  Interview, Service, zero_interviews, is_active, is_of, max_interviews, zero_interview,
}
use esp32_c6_gateway_os.Services.Interview.Ops.{
  World, init, cancel_at, cancel, find_interview, start_at, start_new, start, alloc_interview,
  fresh_interview,
}
use esp32_c6_gateway_os.Services.Registry.Types.{Limits, interviewing}
use esp32_c6_gateway_os.Services.Interview.Process.{IsConsistent}
use esp32_c6_gateway_os.Os.Types.{Env, Err}
use esp32_c6_gateway_os.Services.Interview.Steps.{IsLive}
use esp32_c6_gateway_os.Services.Registry.Keep.{set_state-IsValid}
use esp32_c6_gateway_os.Services.Registry.Nodes.{find_node}

abbrev address : Interview → ℕ
address c = c.ieee_addr

abbrev pub with_service : World → Service → World
with_service w s = record w { svc = s }

module _ (l : Limits) where
  pub init-IsConsistent :
      (w : World) → IsConsistent l w → IsConsistent l (with_service w (init w.svc).1)
  unfolding init zero_interviews
  init-IsConsistent w i =
      if_rule (λ (r : Err × Service). IsConsistent l (with_service w r.1)) w.svc.initialized _ _
        (λ _. i)
        (λ _. record {
          table = replicate-IsTable is_active address max_interviews zero_interview refl;
          live = each-replicate IsLive max_interviews zero_interview (λ f. cc f);
          registry = i.registry;
        })

  module _ (w : World) (i : IsConsistent l w) where
    cancel_at-IsConsistent :
        (ieee_addr : ℕ) (o : Option ℕ)
        → find_index (is_of ieee_addr) w.svc.interviews ≡ o
        → IsConsistent l (with_service w (cancel_at w.svc o).1)
    unfolding cancel_at
    cancel_at-IsConsistent ieee_addr none new = i
    cancel_at-IsConsistent ieee_addr (some k) found = record {
      table =
          clear-IsTable is_active address w.svc.interviews i.table zero_interview k ieee_addr gone
            found refl (sub32 w.svc.active_count 1)
            (omega (
              arith,
              count_in is_active address w.svc.interviews i.table zero_interview,
              clear-pos is_active address w.svc.interviews i.table zero_interview k ieee_addr gone
                  found refl,
            ));
      live = each-set IsLive w.svc.interviews k gone zero_interview i.live (λ f. cc f);
      registry = i.registry;
    }
      where
        c : Interview
        c = get_or w.svc.interviews k zero_interview

        gone : Interview
        gone = record c { active = false }

    pub cancel-IsConsistent :
        (ieee_addr : ℕ) → IsConsistent l (with_service w (cancel w.svc ieee_addr).1)
    unfolding cancel find_interview
    cancel-IsConsistent ieee_addr = cancel_at-IsConsistent ieee_addr _ refl

    module _ (e : Env) (ieee_addr : ℕ) where
      start_at-IsConsistent :
          (o : Option ℕ)
          → find_index (vacant is_active address) w.svc.interviews ≡ o
          → find_index (is_of ieee_addr) w.svc.interviews ≡ none
          → IsConsistent l (start_at l e w ieee_addr o).1
      unfolding start_at
      start_at-IsConsistent none full new = i
      start_at-IsConsistent (some k) free new = record {
        table =
            fill-IsTable is_active address w.svc.interviews i.table zero_interview k
              (fresh_interview e ieee_addr) free new refl (add32 w.svc.active_count 1)
              (omega (
                arith,
                fill-lt is_active address w.svc.interviews i.table zero_interview k
                    (fresh_interview e ieee_addr) free new refl,
              ));
        live =
            each-set IsLive w.svc.interviews k (fresh_interview e ieee_addr) zero_interview i.live
              (λ _. omega arith);
        registry = set_state-IsValid l w.reg i.registry (find_node w.reg ieee_addr) interviewing;
      }

      start_new-IsConsistent :
          (o : Option ℕ)
          → find_index (is_of ieee_addr) w.svc.interviews ≡ o
          → IsConsistent l (start_new l e w ieee_addr o).1
      unfolding start_new alloc_interview
      start_new-IsConsistent none new = start_at-IsConsistent _ refl new
      start_new-IsConsistent (some k) found = i

      pub start-IsConsistent : IsConsistent l (start l e w ieee_addr).1
      unfolding start find_interview
      start-IsConsistent =
          if_rule (Second (IsConsistent l)) (not w.svc.initialized) _ _ (λ _. i)
            (λ _. start_new-IsConsistent _ refl)
