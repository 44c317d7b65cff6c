-- ===== src/Os/Types.antt =====
-- os/include/os_types.h and os/include/os_config.h: error codes and limits, and what a call reads
-- from its surroundings.
use esp32_c6_gateway_os.Base.{ℕ, zero, suc, ◌+◌, List, [], ◌∷◌}

-- `os_err_t`
pub data Err : Type 0 where
  ok invalid_arg no_mem timeout full empty not_found busy : Err
  already_exists not_initialized not_ready : Err

abbrev pub event_queue_size : ℕ
event_queue_size = 256

abbrev pub max_subscribers : ℕ
max_subscribers = 32

-- What a call reads and does not choose: `os_now_ticks ()`, and the bytes that lie in the padding
-- of a struct, which C leaves unspecified.
pub record Env : Type 0 where
  pub now : ℕ
  pub padding : ℕ → ℕ

-- `k` bytes of padding, from byte `i` of a struct on.
unfoldable pub pad_bytes : Env → ℕ → ℕ → List ℕ
pad_bytes e i zero = []
pad_bytes e i (suc k) = e.padding i ∷ pad_bytes e (i + 1) k
