-- ===== src/Os/Fibre/State.antt =====
-- os/include/os_fibre.h and os/src/os_fibre.c (host): fibres and the state of the scheduler. A new
-- fibre is put before the head of the chain and none is taken out, so the fibres are a list in the
-- order in which they were made, a pointer to one is its place there, and `next` goes one place down.
use esp32_c6_gateway_os.Base.{
  ℕ, List, Bool, [], some, none, true, false, Option, get_or, set, suc, length, zero,
}

abbrev pub max_fibres : ℕ
max_fibres = 16

abbrev pub default_stack_size : ℕ
default_stack_size = 2048

abbrev pub idle_stack_size : ℕ
idle_stack_size = 512

-- `os_fibre_state_t`
pub data FibreState : Type 0 where
  ready running sleeping blocked dead : FibreState

-- `os_fibre_t`; `entry` is the number of a function, and the saved context is only its flag.
pub record Fibre : Type 0 where
  pub name : List ℕ
  pub state : FibreState
  pub entry : ℕ
  pub arg : ℕ
  pub stack_size : ℕ
  pub stack_base : List ℕ
  pub context_valid : Bool
  pub wake_tick : ℕ
  pub run_count : ℕ
  pub last_run_tick : ℕ
  pub total_run_ticks : ℕ

-- The static `sched`.
pub record Sched : Type 0 where
  pub initialized : Bool
  pub running : Bool
  pub current : Option ℕ
  pub fibres : List Fibre
  pub idle : Option ℕ
  pub count : ℕ
  pub ticks : ℕ

abbrev pub zero_fibre : Fibre
zero_fibre = record {
  name = [];
  state = ready;
  entry = 0;
  arg = 0;
  stack_size = 0;
  stack_base = [];
  context_valid = false;
  wake_tick = 0;
  run_count = 0;
  last_run_tick = 0;
  total_run_ticks = 0;
}

abbrev pub zero_sched : Sched
zero_sched = record {
  initialized = false;
  running = false;
  current = none;
  fibres = [];
  idle = none;
  count = 0;
  ticks = 0;
}

abbrev pub fibre_at : Sched → ℕ → Fibre
fibre_at s i = get_or s.fibres i zero_fibre

abbrev pub put_fibre : Sched → ℕ → Fibre → Sched
put_fibre s i f = record s { fibres = set s.fibres i f }

-- The pointer that goes on from a place in the chain, and from before its head.
abbrev pub below : ℕ → Option ℕ
below zero = none
below (suc i) = some i

abbrev pub head : Sched → Option ℕ
head s = below (length s.fibres)

unfoldable pub is_ready : FibreState → Bool
is_ready ready = true
is_ready running = false
is_ready sleeping = false
is_ready blocked = false
is_ready dead = false

unfoldable pub is_running : FibreState → Bool
is_running ready = false
is_running running = true
is_running sleeping = false
is_running blocked = false
is_running dead = false

unfoldable pub is_sleeping : FibreState → Bool
is_sleeping ready = false
is_sleeping running = false
is_sleeping sleeping = true
is_sleeping blocked = false
is_sleeping dead = false
