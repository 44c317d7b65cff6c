-- ===== src/Os/Log/Tests.antt =====
-- Runs of the log (os/src/os_log.c).
use esp32_c6_gateway_os.Base.{
  find_index, decimal_from, List, [], ◌∷◌, ◌++◌, ◌+◌, ◌-◌, ◌%◌, ◌^◌, ◌≡◌, refl, some, none, true,
  arith, length, length-replicate, codes, take,
}
use esp32_c6_gateway_os.Os.Log.Ops.{
  Logger, log_init, zero_logger, zero_log_queue, zero_log_entry, log_flush, log_line,
  log_queue_size, flush_rounds, advance_log_head, log_write, put_log_entry, level_parse, lower_all,
}
use esp32_c6_gateway_os.Os.Log.Ring.{IsValidLog, waiting, lines}
use esp32_c6_gateway_os.Os.Log.Queue.{LogCall, log_writes, passing, log_flush-log_writes}

abbrev booted : Logger
booted = (log_init zero_logger).1

booted-IsValidLog : IsValidLog booted
unfolding log_init zero_log_queue
booted-IsValidLog = record {
  queue_length = length-replicate 64 zero_log_entry;
  head_in = omega arith;
  count_in = omega arith;
  tail_at = refl;
  dropped_in = omega arith;
}

booted_on : booted.initialized ≡ true
unfolding log_init
booted_on = refl

-- A message, one of a level that is not shown, and one of no module.
abbrev three_calls : List LogCall
three_calls =
    record {
      at = record { now = 7; padding = λ i. 0 };
      level = 2;
      name = some (codes "REGISTRY");
      message = codes "up";
    }
    ∷ record {
      at = record { now = 8; padding = λ i. 0 };
      level = 4;
      name = some (codes "ZB");
      message = codes "x";
    }
    ∷ record {
      at = record { now = 1234; padding = λ i. 0 };
      level = 0;
      name = none;
      message = codes "bad";
    }
    ∷ []

three_printed :
    (log_flush (log_writes booted three_calls)).1
    ≡ codes "[00000007][INFO ][REGISTR] up\n" ∷ codes "[00001234][ERROR][???   ] bad\n" ∷ []
unfolding log_flush log_writes log_write put_log_entry log_init zero_log_queue flush_rounds
    advance_log_head log_line decimal_from
three_printed = refl

log_flush-log_writes_example :
    let xs = waiting booted ++ passing booted.level three_calls in
    let (n, printed, g') = log_flush (log_writes booted three_calls) in
    (printed ≡ lines (take log_queue_size xs))
    × (n ≡ length printed)
    × (g'.count ≡ 0)
    × (g'.dropped ≡ (booted.dropped + (length xs - log_queue_size)) % 2 ^ 32)
log_flush-log_writes_example = log_flush-log_writes booted three_calls booted-IsValidLog booted_on

parsed : level_parse (some (codes "wArN")) ≡ 1
unfolding level_parse lower_all find_index
parsed = refl
