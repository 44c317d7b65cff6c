-- ===== src/Os/Log/Ops.antt =====
-- os/include/os_log.h and os/src/os_log.c: the state and the functions of the log. What a format and
-- its arguments make is an argument, the bytes of the message; what is printed is a component of
-- the result.
use esp32_c6_gateway_os.Base.{
  find_index, bytes_eq, ◌&&◌, ℕ, List, [], ◌∷◌, ◌++◌, ◌-◌, ◌%◌, ◌==◌, Bool, true, false, Option,
  some, none, if◌then◌else◌, not, ltb, leb, add32, sub32, length, replicate, get_or, set, take,
  codes, snprintf, decimal, ◌||◌, suc, zero, ◌+◌,
}
use esp32_c6_gateway_os.Os.Types.{Err, ok, already_exists, Env}

abbrev pub log_queue_size : ℕ
log_queue_size = 64

abbrev pub log_msg_max_len : ℕ
log_msg_max_len = 128

-- `os_log_level_t` is its number: `OS_LOG_LEVEL_COUNT` and `OS_LOG_DEFAULT_LEVEL`.
abbrev pub level_count : ℕ
level_count = 5

abbrev pub default_level : ℕ
default_level = 2

-- `log_entry_t`
pub record LogEntry : Type 0 where
  pub level : ℕ
  pub timestamp : ℕ
  pub module_name : List ℕ
  pub message : List ℕ

abbrev pub zero_log_entry : LogEntry
zero_log_entry = record { level = 0; timestamp = 0; module_name = []; message = [] }

-- The static `logger`
pub record Logger : Type 0 where
  pub initialized : Bool
  pub level : ℕ
  pub queue : List LogEntry
  pub head : ℕ
  pub tail : ℕ
  pub count : ℕ
  pub dropped : ℕ

unfoldable pub zero_log_queue : List LogEntry
zero_log_queue = replicate log_queue_size zero_log_entry

abbrev pub zero_logger : Logger
zero_logger = record {
  initialized = false;
  level = 0;
  queue = zero_log_queue;
  head = 0;
  tail = 0;
  count = 0;
  dropped = 0;
}

-- `os_log_init`
unfoldable pub log_init : Logger → Err × Logger
log_init g =
    if g.initialized
    then (already_exists, g)
    else (ok, record zero_logger { level = default_level; initialized = true })

-- `os_log_set_level`
unfoldable pub set_level : Logger → ℕ → Logger
set_level g level = if ltb level level_count then record g { level = level } else g

abbrev pub module_or_unknown : Option (List ℕ) → List ℕ
module_or_unknown none = codes "???"
module_or_unknown (some s) = s

-- The entry that a message leaves in its slot.
abbrev pub log_entry : Env → ℕ → Option (List ℕ) → List ℕ → LogEntry
log_entry e level name message = record {
  level = level;
  timestamp = e.now;
  module_name = take 7 (module_or_unknown name);
  message = snprintf log_msg_max_len message;
}

unfoldable pub put_log_entry : Logger → LogEntry → Logger
put_log_entry g x = record g {
  queue = set g.queue g.tail x;
  tail = add32 g.tail 1 % log_queue_size;
  count = add32 g.count 1;
}

-- `os_log_write`
unfoldable pub log_write : Env → Logger → ℕ → Option (List ℕ) → List ℕ → Logger
log_write e g level name message =
    if not g.initialized
    then g
    else if ltb g.level level
    then g
    else if leb log_queue_size g.count
    then record g { dropped = add32 g.dropped 1 }
    else put_log_entry g (log_entry e level name message)

-- `level_names`
abbrev pub level_names : List (List ℕ)
level_names = codes "ERROR" ∷ codes "WARN" ∷ codes "INFO" ∷ codes "DEBUG" ∷ codes "TRACE" ∷ []

-- `%-Ns` and `%08u`
abbrev pub padded : ℕ → List ℕ → List ℕ
padded width s = s ++ replicate (width - length s) 32

abbrev pub zero_padded : ℕ → List ℕ → List ℕ
zero_padded width s = replicate (width - length s) 48 ++ s

-- The line that is printed of an entry.
unfoldable pub log_line : LogEntry → List ℕ
log_line x =
    codes "["
    ++ zero_padded 8 (decimal x.timestamp)
    ++ codes "]["
    ++ padded 5 (get_or level_names x.level [])
    ++ codes "]["
    ++ padded 6 x.module_name
    ++ codes "] "
    ++ x.message
    ++ 10 ∷ []

unfoldable pub advance_log_head : Logger → Logger
advance_log_head g = record g { head = add32 g.head 1 % log_queue_size; count = sub32 g.count 1 }

-- The loop of `os_log_flush`, on as many rounds as there are messages: the lines that it prints.
unfoldable pub flush_rounds : ℕ → Logger → List (List ℕ) × Logger
flush_rounds zero g = ([], g)
flush_rounds (suc n) g =
    let rest = flush_rounds n (advance_log_head g) in
    (log_line (get_or g.queue g.head zero_log_entry) ∷ rest.0, rest.1)

-- `os_log_flush`: what it returns, what it prints, and the log.
unfoldable pub log_flush : Logger → ℕ × List (List ℕ) × Logger
log_flush g =
    let r = flush_rounds g.count g in
    if not g.initialized || g.count == 0 then (0, [], g) else (length r.0, r.0, r.1)

-- `os_log_level_name`
unfoldable pub level_name : ℕ → List ℕ
level_name level = if ltb level level_count then get_or level_names level [] else codes "?????"

-- `strcasecmp (a, b) == 0`
abbrev pub lower : ℕ → ℕ
lower c = if leb 65 c && leb c 90 then c + 32 else c

unfoldable pub lower_all : List ℕ → List ℕ
lower_all [] = []
lower_all (c ∷ cs) = lower c ∷ lower_all cs

abbrev pub or_default : Option ℕ → ℕ
or_default none = default_level
or_default (some level) = level

-- `os_log_level_parse`
unfoldable pub level_parse : Option (List ℕ) → ℕ
level_parse none = default_level
level_parse (some name) =
    or_default (find_index (λ s. bytes_eq (lower_all name) (lower_all s)) level_names)
