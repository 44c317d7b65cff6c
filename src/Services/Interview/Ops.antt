-- ===== src/Services/Interview/Ops.antt =====
-- services/src/interview.c: the functions of the service and one turn of its task.
use esp32_c6_gateway_os.Base.{
  ℕ, List, [], Option, Bool, if◌then◌else◌, find_index, true, ltb, add8, some, not, vacant, get_or,
  sub32, ◌∷◌, set, false, add32, none,
}
use esp32_c6_gateway_os.Services.Interview.State.{
  Service, Interview, Stage, step_timeout_ms, is_of, max_step_retries, interview_timeout_ms,
  zero_service, is_active, zero_interview, next_stage,
}
use esp32_c6_gateway_os.Os.Types.{Env, Err, already_exists, not_found, full, ok, not_initialized}
use esp32_c6_gateway_os.Services.Registry.Types.{Limits, Registry, interviewing}
use esp32_c6_gateway_os.Services.Interview.Advance.{
  Turn, free_interview, with_stage, advance_interview,
}
use esp32_c6_gateway_os.Os.Event.State.{Bus}
use esp32_c6_gateway_os.Services.Registry.Nodes.{set_state, find_node}

-- The service with the registry and the event bus that it works on.
pub record World : Type 0 where
  pub svc : Service
  pub reg : Registry
  pub bus : Bus

-- `interview_init`
unfoldable pub init : Service → Err × Service
init s =
    if s.initialized then (already_exists, s) else (ok, record zero_service { initialized = true })

-- `find_interview` and `alloc_interview`
unfoldable pub find_interview : Service → ℕ → Option ℕ
find_interview s ieee_addr = find_index (is_of ieee_addr) s.interviews

unfoldable pub alloc_interview : Service → Option ℕ
alloc_interview s = find_index (vacant is_active (λ c. c.ieee_addr)) s.interviews

abbrev pub fresh_interview : Env → ℕ → Interview
fresh_interview e ieee_addr = record {
  ieee_addr = ieee_addr;
  stage = Stage.init;
  retry_count = 0;
  current_ep_index = 0;
  start_time = e.now;
  step_start_time = e.now;
  active = true;
}

-- `interview_get_stage`
unfoldable pub get_stage : Service → ℕ → Stage
get_stage s ieee_addr = elim (find_interview s ieee_addr) [
  | none ↦ Stage.init
  | some i ↦ (get_or s.interviews i zero_interview).stage
]

-- `interview_cancel`
unfoldable pub cancel_at : Service → Option ℕ → Err × Service
cancel_at s none = (not_found, s)
cancel_at s (some i) =
    let c : Interview = get_or s.interviews i zero_interview in
    (
      ok,
      record s {
        interviews = set s.interviews i (record c { active = false });
        active_count = sub32 s.active_count 1;
      },
    )

unfoldable pub cancel : Service → ℕ → Err × Service
cancel s ieee_addr = cancel_at s (find_interview s ieee_addr)

-- `OS_TICKS_TO_MS (now - since) > limit`
abbrev pub is_late : Env → ℕ → ℕ → Bool
is_late e since limit = ltb limit (sub32 e.now since)

abbrev pub retried : Env → Interview → Interview
retried e c =
    let count : ℕ = add8 c.retry_count 1 in
    let late : Bool = ltb max_step_retries count in
    record c {
      retry_count = if late then 0 else count;
      stage = if late then next_stage c.stage else c.stage;
      step_start_time = e.now;
    }

module _ (l : Limits) where
  unfoldable pub start_at : Env → World → ℕ → Option ℕ → Err × World
  start_at e w ieee_addr none = (full, w)
  start_at e w ieee_addr (some i) =
      let s : Service = w.svc in
      (
        ok,
        record w {
          svc = record s {
            interviews = set s.interviews i (fresh_interview e ieee_addr);
            active_count = add32 s.active_count 1;
          };
          reg = (set_state l w.reg (find_node w.reg ieee_addr) interviewing).1;
        },
      )

  unfoldable pub start_new : Env → World → ℕ → Option ℕ → Err × World
  start_new e w ieee_addr (some i) = (ok, w)
  start_new e w ieee_addr none = start_at e w ieee_addr (alloc_interview w.svc)

  -- `interview_start`
  unfoldable pub start : Env → World → ℕ → Err × World
  start e w ieee_addr =
      if not w.svc.initialized
      then (not_initialized, w)
      else start_new e w ieee_addr (find_interview w.svc ieee_addr)

  -- The step's timeout: a retry, or at last the next stage.
  abbrev pub step_timeout : Env → Turn → Turn
  step_timeout e t =
      let c : Interview = t.ctx in
      record t { ctx = if is_late e c.step_start_time step_timeout_ms then retried e c else c }

  -- The body of the loop of `interview_process`.
  unfoldable pub process_context : Env → Turn → Turn
  process_context e t =
      if not t.ctx.active
      then t
      else if is_late e t.ctx.start_time interview_timeout_ms
      then free_interview (with_stage t Stage.failed)
      else advance_interview l e (step_timeout e t)

  -- The loop. Nothing that it calls reads another context, so a context is taken from the array
  -- and put back in its turn.
  unfoldable pub process_contexts :
      Env → List Interview → ℕ → Registry → Bus → List Interview × ℕ × Registry × Bus
  process_contexts e [] active_count r b = ([], active_count, r, b)
  process_contexts e (c ∷ cs) active_count r b =
      let t : Turn =
        process_context e (record { ctx = c; active_count = active_count; reg = r; bus = b }) in
      let (cs', active_count', r', b') = process_contexts e cs t.active_count t.reg t.bus in
      (t.ctx ∷ cs', active_count', r', b')

  abbrev pub processed : World → List Interview × ℕ × Registry × Bus → World
  processed w (cs, active_count, r, b) =
      let s : Service = w.svc in
      record { svc = record s { interviews = cs; active_count = active_count }; reg = r; bus = b }

  -- `interview_process`, one turn of `interview_task`
  unfoldable pub process : Env → World → World
  process e w =
      if not w.svc.initialized
      then w
      else processed w (process_contexts e w.svc.interviews w.svc.active_count w.reg w.bus)
