-- ===== src/Services/Interview/Expired.antt =====
-- What `interview_process` of services/src/interview.c does when the interviews time out.
use esp32_c6_gateway_os.Base.{
  true-false, ℕ, List, [], ◌∷◌, ◌≡◌, ◌≤◌, ◌<◌, ◌-◌, true, false, refl, sym, ap, ap₂, ◌∙◌, arith,
  zero, suc, get_or, count_if, one_if, sub32, if◌then◌else◌, if_true, if_false, not, lt→ltb,
  Bool-cases, inl, inr, count_in, if_rule,
}
use esp32_c6_gateway_os.Os.Types.{Env}
use esp32_c6_gateway_os.Os.Event.State.{Bus}
use esp32_c6_gateway_os.Services.Registry.Types.{Limits, Registry}
use esp32_c6_gateway_os.Services.Registry.Valid.{Fits}
use esp32_c6_gateway_os.Services.Interview.State.{
  Stage, Interview, zero_interview, is_active, interview_timeout_ms,
}
use esp32_c6_gateway_os.Services.Interview.Advance.{Turn, free_interview}
use esp32_c6_gateway_os.Services.Interview.Ops.{
  World, is_late, process_context, process_contexts, process, processed,
}
use esp32_c6_gateway_os.Services.Interview.Process.{IsConsistent, process-IsConsistent}
use esp32_c6_gateway_os.Services.Interview.Run.{turns}

-- An interview that was active has failed, one that was not stays as it is.
abbrev pub expired : Interview → Interview
expired c = if c.active then record c { stage = Stage.failed; active = false } else c

abbrev expired_all : List Interview → List Interview
expired_all [] = []
expired_all (c ∷ cs) = expired c ∷ expired_all cs

-- Each active interview began more than 30 seconds ago.
abbrev pub AllLate : Env → List Interview → Type 0
AllLate e cs =
    (k : ℕ)
    → (get_or cs k zero_interview).active ≡ true
    → 30000 < sub32 e.now (get_or cs k zero_interview).start_time

expired_all-get_or :
    (cs : List Interview) (k : ℕ)
    → get_or (expired_all cs) k zero_interview ≡ expired (get_or cs k zero_interview)
expired_all-get_or [] k = refl
expired_all-get_or (c ∷ cs) zero = refl
expired_all-get_or (c ∷ cs) (suc k) = expired_all-get_or cs k

expired-inactive : (c : Interview) → (expired c).active ≡ false
expired-inactive c =
    if_rule (λ (d : Interview). d.active ≡ false) c.active _ _ (λ _. refl) (λ off. off)

expired_off : (c : Interview) → c.active ≡ false → expired c ≡ c
expired_off c off = if_false c.active _ _ off

module _ (l : Limits) (e : Env) where
  process_context_late :
      (t : Turn)
      → (t.ctx.active ≡ true → 30000 < sub32 e.now t.ctx.start_time)
      → one_if t.ctx.active ≤ t.active_count
      → t.active_count ≤ 4
      → process_context l e t
        ≡ record t { ctx = expired t.ctx; active_count = t.active_count - one_if t.ctx.active }
  unfolding process_context free_interview
  process_context_late t late counted few = elim (Bool-cases t.ctx.active) [
    | inl on ↦
        if_false (not t.ctx.active) _ _ (ap not on)
        ∙ if_true (is_late e t.ctx.start_time interview_timeout_ms) _ _
            (lt→ltb 30000 (sub32 e.now t.ctx.start_time) (late on))
        ∙ if_true t.ctx.active _ _ on
        ∙ ap₂ (λ c n. record t { ctx = c; active_count = n }) (sym (if_true t.ctx.active _ _ on))
            (omega (arith, ap one_if on))
    | inr off ↦
        if_true (not t.ctx.active) _ _ (ap not off)
        ∙ ap₂ (λ c n. record t { ctx = c; active_count = n }) (sym (expired_off t.ctx off))
            (omega (arith, ap one_if off))
  ]

  process_contexts_late :
      (cs : List Interview) (active_count : ℕ) (r : Registry) (b : Bus)
      → AllLate e cs
      → count_if is_active cs ≤ active_count
      → active_count ≤ 4
      → process_contexts l e cs active_count r b
        ≡ (expired_all cs, active_count - count_if is_active cs, r, b)
  unfolding process_contexts count_if
  process_contexts_late [] active_count r b late counted few = ap (λ n. ([], n, r, b)) (omega arith)
  process_contexts_late (c ∷ cs) active_count r b late counted few =
      ap
        (λ (t : Turn).
          let rest = process_contexts l e cs t.active_count t.reg t.bus in
          (t.ctx ∷ rest.0, rest.1, rest.2, rest.3))
        (process_context_late (record { ctx = c; active_count = active_count; reg = r; bus = b })
          (late 0) (omega arith) few)
      ∙ ap
          (λ (rest : List Interview × ℕ × Registry × Bus).
            (expired c ∷ rest.0, rest.1, rest.2, rest.3))
          (process_contexts_late cs (active_count - one_if c.active) r b (λ k. late (suc k))
            (omega arith) (omega arith))
      ∙ ap (λ n. (expired c ∷ expired_all cs, n, r, b)) (omega arith)

-- A turn or more in which the interviews fail, and nobody hears of it.

pub record Silent (l : Limits) (w w' : World) : Type 0 where
  pub contexts :
      (k : ℕ)
      → get_or w'.svc.interviews k zero_interview
        ≡ expired (get_or w.svc.interviews k zero_interview)
  pub none_active : w'.svc.active_count ≡ 0
  pub on : w'.svc.initialized ≡ true
  pub consistent : IsConsistent l w'
  pub reg : w'.reg ≡ w.reg
  pub bus : w'.bus ≡ w.bus

Silent-trans : (l : Limits) (w w' w'' : World) → Silent l w w' → Silent l w' w'' → Silent l w w''
Silent-trans l w w' w'' a b = record {
  contexts = λ k.
      b.contexts k
      ∙ ap expired (a.contexts k)
      ∙ expired_off _ (expired-inactive (get_or w.svc.interviews k zero_interview));
  none_active = b.none_active;
  on = b.on;
  consistent = b.consistent;
  reg = b.reg ∙ a.reg;
  bus = b.bus ∙ a.bus;
}

module _ (l : Limits) (fits : Fits l) where
  process_late :
      (e : Env) (w : World)
      → IsConsistent l w
      → w.svc.initialized ≡ true
      → AllLate e w.svc.interviews
      → process l e w
        ≡ processed l w (
          expired_all w.svc.interviews,
          w.svc.active_count - count_if is_active w.svc.interviews,
          w.reg,
          w.bus,
        )
  unfolding process
  process_late e w i on late =
      if_false (not w.svc.initialized) _ _ (ap not on)
      ∙ ap (processed l w) (
          process_contexts_late l e w.svc.interviews w.svc.active_count w.reg w.bus late
            (omega (arith, i.table.counted))
            (omega (
              arith,
              count_in is_active (λ c. c.ieee_addr) w.svc.interviews i.table zero_interview,
            )))

  process-Silent :
      (e : Env) (w : World)
      → IsConsistent l w
      → w.svc.initialized ≡ true
      → AllLate e w.svc.interviews
      → Silent l w (process l e w)
  process-Silent e w i on late =
      let same = process_late e w i on late in
      record {
        contexts = λ k.
            ap (λ (w' : World). get_or w'.svc.interviews k zero_interview) same
            ∙ expired_all-get_or w.svc.interviews k;
        none_active =
            ap (λ (w' : World). w'.svc.active_count) same ∙ omega (arith, i.table.counted);
        on = ap (λ (w' : World). w'.svc.initialized) same ∙ on;
        consistent = process-IsConsistent l fits e w i;
        reg = ap (λ (w' : World). w'.reg) same;
        bus = ap (λ (w' : World). w'.bus) same;
      }

  turns-Silent : (es : List Env) (w w' : World) → Silent l w w' → Silent l w (turns l es w')
  unfolding turns
  turns-Silent [] w w' s = s
  turns-Silent (e ∷ es) w w' s =
      turns-Silent es w (process l e w')
        (Silent-trans l w w' (process l e w') s (process-Silent e w' s.consistent s.on none_late))
    where
      none_late : AllLate e w'.svc.interviews
      none_late k on = absurd (
          true-false (
            sym on
            ∙ ap (λ (c : Interview). c.active) (s.contexts k)
            ∙ expired-inactive (get_or w.svc.interviews k zero_interview)))

  -- If every active interview of a consistent initialised service is more than 30 seconds old when
  -- `interview_process` is called, then after this call and any number of further ones, at whatever
  -- times, no interview is active and `active_count` is 0; those that were active are at the stage
  -- INTERVIEW_STAGE_FAILED, the other contexts as before. But neither the registry nor the bus has
  -- changed: the node of each device stays in the state that it had, and no event tells of the end.
  pub timeouts_silent :
      (e : Env) (es : List Env) (w : World)
      → IsConsistent l w
      → w.svc.initialized ≡ true
      → AllLate e w.svc.interviews
      → let w' = turns l (e ∷ es) w in
        (w'.svc.active_count ≡ 0)
        × (count_if is_active w'.svc.interviews ≡ 0)
        × ((k : ℕ)
            → get_or w'.svc.interviews k zero_interview
              ≡ expired (get_or w.svc.interviews k zero_interview))
        × (w'.reg ≡ w.reg)
        × (w'.bus ≡ w.bus)
  unfolding turns
  timeouts_silent e es w i on late =
      let s = turns-Silent es w (process l e w) (process-Silent e w i on late) in
      (
        s.none_active,
        omega (arith, s.none_active, s.consistent.table.counted),
        s.contexts,
        s.reg,
        s.bus,
      )
