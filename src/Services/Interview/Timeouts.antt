-- ===== src/Services/Interview/Timeouts.antt =====
-- The body of the loop of `interview_process` in services/src/interview.c, its timeouts included.
use esp32_c6_gateway_os.Base.{
  ℕ, ◌<◌, ◌≡◌, ◌≢◌, ◌≤◌, arith, if_rule, ◌-◌, one_if, ap, ltb, ◌+◌, true, add8, if_true, not, refl,
  ◌∙◌,
}
use esp32_c6_gateway_os.Services.Interview.State.{
  Stage, Interview, active_ep, simple_desc, basic_attr, bindings, complete, unnamed, next_stage,
  max_step_retries, step_timeout_ms, interview_timeout_ms,
}
use esp32_c6_gateway_os.Os.Types.{Env}
use esp32_c6_gateway_os.Services.Registry.Types.{Limits}
use esp32_c6_gateway_os.Services.Interview.Steps.{
  pending, rank, IsLive, Advanced, advance_interview-Advanced, free_interview-Advanced,
}
use esp32_c6_gateway_os.Services.Interview.Advance.{
  Turn, free_interview, advance_interview, with_stage,
}
use esp32_c6_gateway_os.Services.Registry.Valid.{Fits, IsValid}
use esp32_c6_gateway_os.Services.Interview.Ops.{retried, step_timeout, is_late, process_context}

-- A step that is skipped brings the interview no further from its end, nor past the last stage.
next_stage-pending :
    (s : Stage) → 0 < pending s → (pending (next_stage s) ≤ pending s) × (next_stage s ≢ unnamed)
next_stage-pending Stage.init h = (omega arith, λ e. cc e)
next_stage-pending active_ep h = (omega arith, λ e. cc e)
next_stage-pending simple_desc h = (omega arith, λ e. cc e)
next_stage-pending basic_attr h = (omega arith, λ e. cc e)
next_stage-pending bindings h = (omega arith, λ e. cc e)
next_stage-pending complete h = (omega arith, λ e. cc e)
next_stage-pending Stage.failed h = absurd (omega arith)
next_stage-pending unnamed h = absurd (omega arith)

pending-named : (s : Stage) → 0 < pending s → s ≢ unnamed
pending-named s h e = absurd (omega (arith, ap pending e))

abbrev Late : Interview → Interview → Type 0
Late c c' =
    (c'.active ≡ c.active)
    × (c'.ieee_addr ≡ c.ieee_addr)
    × (pending c'.stage ≤ pending c.stage)
    × (c'.stage ≢ unnamed)

retried-Late : (e : Env) (c : Interview) → 0 < pending c.stage → Late c (retried e c)
retried-Late e c h =
    let (le, named) =
      if_rule (λ s. (pending s ≤ pending c.stage) × (s ≢ unnamed))
        (ltb max_step_retries (add8 c.retry_count 1)) (next_stage c.stage) c.stage
        (λ _. next_stage-pending c.stage h) (λ _. (omega arith, pending-named c.stage h)) in
    (refl, refl, le, named)

step_timeout-Late :
    (l : Limits) (e : Env) (t : Turn)
    → 0 < pending t.ctx.stage
    → Late t.ctx (step_timeout l e t).ctx
step_timeout-Late l e t h =
    if_rule (Late t.ctx) (is_late e t.ctx.step_start_time step_timeout_ms) _ _
      (λ _. retried-Late e t.ctx h) (λ _. (refl, refl, omega arith, pending-named t.ctx.stage h))

module _ (l : Limits) (fits : Fits l) (e : Env) where
  -- What the loop does to a context: an active one has a turn less before it or is freed.
  abbrev pub Turned : Turn → Turn → Type 0
  Turned t t' =
      (rank t'.ctx ≤ rank t.ctx - 1)
      × IsLive t'.ctx
      × (t'.ctx.ieee_addr ≡ t.ctx.ieee_addr)
      × (t'.active_count + one_if t.ctx.active ≡ t.active_count + one_if t'.ctx.active)
      × (t'.ctx.active ≡ true → t.ctx.active ≡ true)
      × IsValid l t'.reg

  module _ (t : Turn) (live : IsLive t.ctx) (counted : one_if t.ctx.active ≤ t.active_count)
      (few : t.active_count ≤ 4) (v : IsValid l t.reg) where
    rank_on : t.ctx.active ≡ true → rank t.ctx ≡ pending t.ctx.stage
    rank_on on = if_true t.ctx.active _ _ on

    turned :
        (t' : Turn) (n : ℕ)
        → t.ctx.active ≡ true
        → n ≤ pending t.ctx.stage
        → Advanced l t n t'
        → Turned t t'
    turned t' n on le (less, live', key, count, v') =
        (omega (arith, rank_on on), live', key, omega (arith, ap one_if on), λ _. on, v')

    some_on : t.ctx.active ≡ true → 0 < t.active_count
    some_on on = omega (arith, ap one_if on)

    expired : t.ctx.active ≡ true → Turned t (free_interview (with_stage t Stage.failed))
    expired on =
        turned (free_interview (with_stage t Stage.failed)) 0 on (omega arith)
          (free_interview-Advanced l (with_stage t Stage.failed) 0 on (some_on on) few v)

    advanced : t.ctx.active ≡ true → Turned t (advance_interview l e (step_timeout l e t))
    advanced on =
        let (same, key, le, named) = step_timeout-Late l e t (live on) in
        let (less, live', key', count, v') =
          advance_interview-Advanced l fits e (step_timeout l e t) (same ∙ on) (some_on on) few v
            named in
        turned (advance_interview l e (step_timeout l e t)) (pending (step_timeout l e t).ctx.stage)
          on le (less, live', key' ∙ key, count, v')

    pub process_context-Turned : Turned t (process_context l e t)
    unfolding process_context
    process_context-Turned =
        if_rule (Turned t) (not t.ctx.active) _ _
          (λ off. (ground arith, live, refl, refl, λ h. h, v))
          (λ busy.
            if_rule (Turned t) (is_late e t.ctx.start_time interview_timeout_ms) _ _
              (λ _. expired (ground arith)) (λ _. advanced (ground arith)))
