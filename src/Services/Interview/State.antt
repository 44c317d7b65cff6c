-- ===== src/Services/Interview/State.antt =====
-- services/src/interview.c: the static `service` and its contexts. Ticks are milliseconds.
use esp32_c6_gateway_os.Base.{ℕ, List, codes, Bool, false, replicate, has}

abbrev pub max_interviews : ℕ
max_interviews = 4

abbrev pub interview_timeout_ms : ℕ
interview_timeout_ms = 30000

abbrev pub step_timeout_ms : ℕ
step_timeout_ms = 5000

abbrev pub max_step_retries : ℕ
max_step_retries = 3

-- `interview_stage_t`; `unnamed` is what an increment past the last stage leaves, which no case of
-- a switch names.
pub data Stage : Type 0 where
  init active_ep simple_desc basic_attr bindings complete failed unnamed : Stage

-- `stage++`
abbrev pub next_stage : Stage → Stage
next_stage init = active_ep
next_stage active_ep = simple_desc
next_stage simple_desc = basic_attr
next_stage basic_attr = bindings
next_stage bindings = complete
next_stage complete = failed
next_stage failed = unnamed
next_stage unnamed = unnamed

-- `interview_ctx_t`
pub record Interview : Type 0 where
  pub ieee_addr : ℕ
  pub stage : Stage
  pub retry_count : ℕ
  pub current_ep_index : ℕ
  pub start_time : ℕ
  pub step_start_time : ℕ
  pub active : Bool

pub record Service : Type 0 where
  pub initialized : Bool
  pub interviews : List Interview
  pub active_count : ℕ

abbrev pub zero_interview : Interview
zero_interview = record {
  ieee_addr = 0;
  stage = Stage.init;
  retry_count = 0;
  current_ep_index = 0;
  start_time = 0;
  step_start_time = 0;
  active = false;
}

unfoldable pub zero_interviews : List Interview
zero_interviews = replicate max_interviews zero_interview

abbrev pub zero_service : Service
zero_service = record { initialized = false; interviews = zero_interviews; active_count = 0 }

abbrev pub is_active : Interview → Bool
is_active c = c.active

-- The test of `find_interview`.
abbrev pub is_of : ℕ → Interview → Bool
is_of = has is_active (λ c. c.ieee_addr)

-- `interview_stage_name`, with `stage_names`
unfoldable pub stage_name : Stage → List ℕ
stage_name init = codes "INIT"
stage_name active_ep = codes "ACTIVE_EP"
stage_name simple_desc = codes "SIMPLE_DESC"
stage_name basic_attr = codes "BASIC_ATTR"
stage_name bindings = codes "BINDINGS"
stage_name complete = codes "COMPLETE"
stage_name failed = codes "FAILED"
stage_name unnamed = codes "UNKNOWN"
