-- ===== src/Os/Fibre/Ops.antt =====
-- os/src/os_fibre.c (host): the functions of the scheduler. `setjmp` and `longjmp` pass control
-- between the scheduler and a fibre; each function here is what happens up to that point.
use esp32_c6_gateway_os.Base.{
  ℕ, List, Bool, [], ◌∷◌, some, none, true, false, Option, if◌then◌else◌, find_index, sub32, ◌-◌,
  add32, codes, ◌==◌, not, suc, length, take, replicate, leb, ◌||◌, ◌&&◌, ◌%◌, count_if, zero, ◌^◌,
  ◌++◌,
}
use esp32_c6_gateway_os.Os.Types.{
  Err, ok, invalid_arg, no_mem, not_initialized, already_exists, not_found,
}
use esp32_c6_gateway_os.Os.Fibre.State.{
  Fibre, FibreState, Sched, ready, running, sleeping, dead, is_ready, zero_fibre, zero_sched,
  is_sleeping, fibre_at, head, put_fibre, default_stack_size, idle_stack_size, below, is_running,
  max_fibres,
}

-- What `os_fibre_create` puts into a new fibre. NULL for a name is `none`.
unfoldable pub name_of : Option (List ℕ) → List ℕ
name_of none = codes "unnamed"
name_of (some name) = take 15 name

abbrev pub new_fibre : ℕ → ℕ → Option (List ℕ) → ℕ → Fibre
new_fibre entry arg name stack_size = record zero_fibre {
  name = name_of name;
  entry = entry;
  arg = arg;
  stack_size = stack_size;
  stack_base = replicate stack_size 205;
}

abbrev pub stack_or_default : ℕ → ℕ
stack_or_default n = if n == 0 then default_stack_size else n

-- `os_fibre_create`: the function is `none` where it is NULL, `memory` is whether both calls of
-- `malloc` succeed; the result has the handle that is written.
unfoldable pub create : Sched → Option ℕ → ℕ → Option (List ℕ) → ℕ → Bool → Err × Option ℕ × Sched
create s none arg name stack_size memory =
    if not s.initialized then (not_initialized, none, s) else (invalid_arg, none, s)
create s (some entry) arg name stack_size memory =
    if not s.initialized
    then (not_initialized, none, s)
    else if leb max_fibres s.count || not memory
    then (no_mem, none, s)
    else (
      ok,
      some (length s.fibres),
      record s {
        fibres = s.fibres ++ (new_fibre entry arg name (stack_or_default stack_size) ∷ []);
        count = add32 s.count 1;
      },
    )

-- The number of `fibre_idle_task` as a function.
abbrev pub idle_task : ℕ
idle_task = 0

unfoldable pub with_idle : Err × Option ℕ × Sched → Err × Sched
with_idle (ok, h, s) = (ok, record s { idle = h })
with_idle (e, h, s) = (e, record s { initialized = false })

-- `os_fibre_init`
unfoldable pub init : Sched → Bool → Err × Sched
init s memory =
    if s.initialized
    then (already_exists, s)
    else with_idle (
        create (record zero_sched { initialized = true }) (some idle_task) 0 (some (codes "idle"))
          idle_stack_size memory)

-- The stack is filled with 0xCD; what is no longer 0xCD was used.
unfoldable pub used_from : ℕ → Option ℕ → ℕ
used_from size none = 0
used_from size (some i) = size - i

-- `calc_stack_used`
unfoldable pub calc_stack_used : Fibre → ℕ
calc_stack_used f = used_from f.stack_size (find_index (λ b. not (b == 205)) f.stack_base)

-- `(int32_t)(wake_tick - now) <= 0`
abbrev pub due : ℕ → Fibre → Bool
due now f = let diff = sub32 f.wake_tick now in diff == 0 || leb (2 ^ 31) diff

abbrev pub woken : ℕ → Fibre → Fibre
woken now f = if is_sleeping f.state && due now f then record f { state = ready } else f

-- The first loop of `find_next_ready`.
unfoldable pub wake_all : ℕ → List Fibre → List Fibre
wake_all now [] = []
wake_all now (f ∷ fs) = woken now f ∷ wake_all now fs

-- One pointer on in the chain of `n` fibres, from its end to the head.
unfoldable pub around : ℕ → ℕ → ℕ
around n zero = n - 1
around n (suc i) = i

-- The second loop, on at most so many rounds: `none` where they do not suffice.
unfoldable pub scan : (ℕ → Bool) → ℕ → ℕ → ℕ → ℕ → Option (Option ℕ)
scan runs n start zero fibre = none
scan runs n start (suc rounds) fibre =
    let rest = scan runs n start rounds (around n fibre) in
    if runs fibre then some (some fibre) else if around n fibre == start then some none else rest

unfoldable pub is_pointer : Option ℕ → ℕ → Bool
is_pointer none i = false
is_pointer (some j) i = i == j

-- The condition of the loop.
abbrev pub can_run : Sched → ℕ → Bool
can_run s i = is_ready (fibre_at s i).state && not (is_pointer s.idle i)

unfoldable pub or_head : Sched → Option ℕ → Option ℕ
or_head s none = head s
or_head s (some i) = some i

unfoldable pub after_current : Sched → Option ℕ → Option ℕ
after_current s none = head s
after_current s (some c) = or_head s (below c)

unfoldable pub scan_from : Sched → Option ℕ → Option (Option ℕ)
scan_from s none = some none
scan_from s (some start) = scan (can_run s) (length s.fibres) start (length s.fibres) start

-- `find_next_ready`
unfoldable pub find_next_ready : Sched → Option (Option ℕ) × Sched
find_next_ready s =
    let s' : Sched = record s { fibres = wake_all s.ticks s.fibres } in
    (scan_from s' (after_current s' s'.current), s')

abbrev pub dispatched : ℕ → Fibre → Fibre
dispatched now f = record f {
  state = running;
  run_count = add32 f.run_count 1;
  last_run_tick = now;
  total_run_ticks = add32 f.total_run_ticks 1;
  context_valid = true;
}

unfoldable pub dispatch : Sched → Option ℕ → Sched
dispatch s none = s
dispatch s (some i) =
    if is_ready (fibre_at s i).state
    then put_fibre (record s { current = some i }) i (dispatched s.ticks (fibre_at s i))
    else s

-- The fibre that is found, or the idle fibre.
unfoldable pub or_idle : Sched → Option (Option ℕ) → Option ℕ
or_idle s none = none
or_idle s (some none) = s.idle
or_idle s (some (some i)) = some i

-- One round of the loop of `os_fibre_start`, up to the fibre.
unfoldable pub run_next : Sched → Sched
run_next s = let r = find_next_ready s in dispatch r.1 (or_idle r.1 r.0)

-- `os_fibre_start` up to its loop.
unfoldable pub start : Sched → Sched
start s = if not s.initialized || s.running then s else record s { running = true }

-- The function of the current fibre returns.
unfoldable pub returned : Sched → Option ℕ → Sched
returned s none = s
returned s (some i) = put_fibre s i (record (fibre_at s i) { state = dead })

unfoldable pub yielded : Sched → Option ℕ → Sched
yielded s none = s
yielded s (some i) = put_fibre s i (record (fibre_at s i) {
  state = if is_running (fibre_at s i).state then ready else (fibre_at s i).state;
  context_valid = true;
})

-- `os_yield`
unfoldable pub yield : Sched → Sched
yield s = if not s.running then s else yielded s s.current

unfoldable pub slept : Sched → Option ℕ → ℕ → Sched
slept s none ms = s
slept s (some i) ms = put_fibre s i (record (fibre_at s i) {
  state = sleeping;
  wake_tick = add32 s.ticks (ms % 2 ^ 32);
  context_valid = true;
})

-- `os_sleep`
unfoldable pub sleep : Sched → ℕ → Sched
sleep s ms = if not s.running then s else if ms == 0 then yield s else slept s s.current ms

-- `os_tick_advance`
unfoldable pub tick_advance : Sched → Sched
tick_advance s = record s { ticks = add32 s.ticks 1 }

-- `os_fibre_info_t`
pub record FibreInfo : Type 0 where
  pub name : List ℕ
  pub state : FibreState
  pub stack_size : ℕ
  pub stack_used : ℕ
  pub run_count : ℕ
  pub last_run_tick : ℕ
  pub total_run_ticks : ℕ
  pub wake_tick : ℕ

abbrev pub info_of : Fibre → FibreInfo
info_of f = record {
  name = f.name;
  state = f.state;
  stack_size = f.stack_size;
  stack_used = calc_stack_used f;
  run_count = f.run_count;
  last_run_tick = f.last_run_tick;
  total_run_ticks = f.total_run_ticks;
  wake_tick = f.wake_tick;
}

-- `os_fibre_get_info`, with room for the result: the fibre so many places from the head on.
unfoldable pub get_info : Sched → ℕ → Err × Option FibreInfo
get_info s index =
    if not s.initialized
    then (invalid_arg, none)
    else if leb (length s.fibres) index
    then (not_found, none)
    else (ok, some (info_of (fibre_at s (length s.fibres - 1 - index))))

-- `os_sched_stats_t`
pub record SchedStats : Type 0 where
  pub ticks : ℕ
  pub fibre_count : ℕ
  pub ready_count : ℕ
  pub sleeping_count : ℕ

-- `os_fibre_get_stats`
unfoldable pub get_stats : Sched → Err × Option SchedStats
get_stats s = if not s.initialized then (invalid_arg, none) else (
  ok,
  some (record {
    ticks = s.ticks;
    fibre_count = s.count;
    ready_count = count_if (λ f. is_ready f.state) s.fibres;
    sleeping_count = count_if (λ f. is_sleeping f.state) s.fibres;
  }),
)
