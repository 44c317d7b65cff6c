-- ===== src/Services/Interview/Run.antt =====
-- Runs of the interview service of services/src/interview.c, and the end of every interview.
use esp32_c6_gateway_os.Services.Registry.Valid.{Fits}
use esp32_c6_gateway_os.Services.Interview.State.{
  Stage, Interview, active_ep, simple_desc, basic_attr, bindings, complete, unnamed,
}
use esp32_c6_gateway_os.Base.{
  ℕ, List, [], ◌∷◌, count_if, ◌≡◌, true, ◌≤◌, false, get_or, length, arith, ap, ◌-◌, one_if, suc,
  refl, if_rule, Bool-cases, inl, if_true, inr,
}
use esp32_c6_gateway_os.Os.Types.{Env}
use esp32_c6_gateway_os.Services.Registry.Types.{Limits}
use esp32_c6_gateway_os.Services.Interview.Ops.{World, process, init, start, cancel}
use esp32_c6_gateway_os.Services.Interview.Keep.{
  with_service, init-IsConsistent, start-IsConsistent, cancel-IsConsistent,
}
use esp32_c6_gateway_os.Services.Interview.Process.{
  IsConsistent, AllLive, process-IsConsistent, process-rank,
}
use esp32_c6_gateway_os.Services.Interview.State.{Interview, zero_interview, is_active}
use esp32_c6_gateway_os.Services.Interview.Steps.{rank, IsLive, pending}

-- A call of a function, with the time it reads.
pub data Call : Type 0 where
  inits : Call
  starts cancels : Env → ℕ → Call
  processes : Env → Call

module _ (l : Limits) where
  unfoldable pub call : Call → World → World
  call inits w = with_service w (init w.svc).1
  call (starts e ieee_addr) w = (start l e w ieee_addr).1
  call (cancels e ieee_addr) w = with_service w (cancel w.svc ieee_addr).1
  call (processes e) w = process l e w

  unfoldable pub calls : List Call → World → World
  calls [] w = w
  calls (c ∷ cs) w = calls cs (call c w)

  -- Turns of the task, each at its own time.
  unfoldable pub turns : List Env → World → World
  turns [] w = w
  turns (e ∷ es) w = turns es (process l e w)

  module _ (fits : Fits l) where
    call-IsConsistent : (c : Call) (w : World) → IsConsistent l w → IsConsistent l (call c w)
    unfolding call
    call-IsConsistent inits w i = init-IsConsistent l w i
    call-IsConsistent (starts e ieee_addr) w i = start-IsConsistent l w i e ieee_addr
    call-IsConsistent (cancels e ieee_addr) w i = cancel-IsConsistent l w i ieee_addr
    call-IsConsistent (processes e) w i = process-IsConsistent l fits e w i

    -- With registry arrays of at most 255 slots, any calls of `interview_init`, `_start`, `_cancel`
    -- and `_process`, at any times, keep a consistent service consistent: at most one active interview
    -- of a device, `active_count` the number of the active ones, each at a stage that it can leave,
    -- and a valid registry.
    pub calls-IsConsistent :
        (cs : List Call) (w : World) → IsConsistent l w → IsConsistent l (calls cs w)
    unfolding calls
    calls-IsConsistent [] w i = i
    calls-IsConsistent (c ∷ cs) w i = calls-IsConsistent cs (call c w) (call-IsConsistent c w i)

    turns-rank :
        (es : List Env) (w : World) (n : ℕ)
        → IsConsistent l w
        → w.svc.initialized ≡ true
        → ((k : ℕ) → rank (get_or w.svc.interviews k zero_interview) ≤ n)
        → n ≤ length es
        → IsConsistent l (turns es w)
          × ((k : ℕ) → rank (get_or (turns es w).svc.interviews k zero_interview) ≡ 0)
    unfolding turns
    turns-rank [] w n i on below enough = (i, λ k. omega (arith, below k))
    turns-rank (e ∷ es) w n i on below enough =
        let (less, on') = process-rank l fits e w i on in
        turns-rank es (process l e w) (n - 1) (process-IsConsistent l fits e w i) on'
          (λ k. omega (arith, less k, below k)) (omega arith)

    pending-le : (s : Stage) → pending s ≤ 6
    pending-le Stage.init = omega arith
    pending-le active_ep = omega arith
    pending-le simple_desc = omega arith
    pending-le basic_attr = omega arith
    pending-le bindings = omega arith
    pending-le complete = omega arith
    pending-le Stage.failed = omega arith
    pending-le unnamed = omega arith

    rank-le : (c : Interview) → rank c ≤ 6
    rank-le c = if_rule (λ n. n ≤ 6) c.active _ _ (λ _. pending-le c.stage) (λ _. omega arith)

    idle : (c : Interview) → IsLive c → rank c ≡ 0 → c.active ≡ false
    idle c live z = elim (Bool-cases c.active) [
      | inl t ↦
          let full : rank c ≡ pending c.stage = if_true c.active _ _ t in
          absurd (omega (arith, live t, full))
      | inr f ↦ f
    ]

    all_idle :
        (cs : List Interview)
        → AllLive cs
        → ((k : ℕ) → rank (get_or cs k zero_interview) ≡ 0)
        → count_if is_active cs ≡ 0
    unfolding count_if
    all_idle [] live z = refl
    all_idle (c ∷ cs) live z =
        omega (
          arith,
          ap one_if (idle c (live 0) (z 0)),
          all_idle cs (λ k. live (suc k)) (λ k. z (suc k)),
        )

    -- Every interview ends: with registry arrays of at most 255 slots, after six turns of
    -- `interview_process` or more, at whatever times and with whatever nodes in the registry, none of
    -- the interviews of a consistent initialised service is active, and `active_count` is 0.
    pub interviews_end :
        (es : List Env) (w : World)
        → IsConsistent l w
        → w.svc.initialized ≡ true
        → 6 ≤ length es
        → ((turns es w).svc.active_count ≡ 0) × (count_if is_active (turns es w).svc.interviews ≡ 0)
    interviews_end es w i on enough =
        let (i', z) =
          turns-rank es w 6 i on (λ k. rank-le (get_or w.svc.interviews k zero_interview)) enough in
        let none_active : count_if is_active (turns es w).svc.interviews ≡ 0 =
          all_idle (turns es w).svc.interviews i'.live z in
        (omega (arith, i'.table.counted, none_active), none_active)
