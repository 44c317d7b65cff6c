-- ===== src/Os/Persist/Flush.antt =====
-- os/src/os_persist.c (host): `write_file`, `os_persist_flush` and the flush task's turn.
use esp32_c6_gateway_os.Os.Types.{Err, ok, busy, not_initialized, Env}
use esp32_c6_gateway_os.Os.Event.State.{event_persist_flush}
use esp32_c6_gateway_os.Os.Event.Publish.{emit}
use esp32_c6_gateway_os.Os.Persist.Types.{Entry, Persist, Disk, Store, key_to_path}
use esp32_c6_gateway_os.Base.{
  none, some, ◌==◌, List, Bool, ℕ, true, ◌∷◌, if◌then◌else◌, false, add32, ltb, not, ◌+◌, le_bytes,
  [], length,
}

-- What the loop of a flush has done so far.
pub record Flushed (disk : Disk) : Type 0 where
  pub files : disk.Files
  pub buffer : List Entry
  pub total : ℕ
  pub flushed : ℕ
  pub error : Err

module _ (disk : Disk) where
  -- `write_file`
  unfoldable pub write_file : disk.Files → List ℕ → List ℕ → Err × disk.Files
  write_file fs key bytes =
      let (written, fs') = disk.write fs (key_to_path key) bytes in
      elim written [
        | none ↦ (busy, fs')
        | some n ↦ if n == length bytes then (ok, fs') else (busy, fs')
      ]

  abbrev pub written_ok : Err → Bool
  written_ok ok = true
  written_ok _ = false

  -- The loop: `total`, `flushed` and `error` are what `total_writes`, `flushed` and `last_error` are
  -- before the entries of the list.
  unfoldable pub flush_entries : disk.Files → ℕ → ℕ → Err → List Entry → Flushed disk
  flush_entries fs total flushed error [] = record {
    files = fs;
    buffer = [];
    total = total;
    flushed = flushed;
    error = error;
  }
  flush_entries fs total flushed error (x ∷ xs) =
      let (err, fs') = write_file fs x.key x.bytes in
      let done = written_ok err in
      let skip = flush_entries fs total flushed error xs in
      let next =
        flush_entries fs' (if done then add32 total 1 else total)
          (if done then flushed + 1 else flushed) (if done then error else err) xs in
      if x.valid
      then record next { buffer = (if done then record x { valid = false } else x) ∷ next.buffer }
      else record skip { buffer = x ∷ skip.buffer }

  abbrev pub flush_all : Store disk → Flushed disk
  flush_all s =
      let p : Persist = s.svc in flush_entries s.files p.total_writes 0 p.last_error p.write_buffer

  abbrev pub after_flush : Env → Store disk → Flushed disk → Store disk
  after_flush e s f =
      let p : Persist = s.svc in
      record {
        svc = record p {
          write_buffer = f.buffer;
          writes_buffered = 0;
          total_writes = f.total;
          last_error = f.error;
          last_flush_tick = if ltb 0 f.flushed then e.now else p.last_flush_tick;
        };
        files = f.files;
        bus =
            if ltb 0 f.flushed
            then (emit e s.bus event_persist_flush (le_bytes 4 f.flushed)).1
            else s.bus;
      }

  abbrev pub with_error : Store disk → Err → Store disk
  with_error s err = let p : Persist = s.svc in record s { svc = record p { last_error = err } }

  -- `os_persist_flush`
  unfoldable pub flush : Env → Store disk → Err × Store disk
  flush e s =
      if not s.svc.initialized
      then (not_initialized, with_error s not_initialized)
      else (ok, after_flush e s (flush_all s))

  -- One turn of `os_persist_task`, after its sleep.
  unfoldable pub task_turn : Env → Store disk → Store disk
  task_turn e s = if ltb 0 s.svc.writes_buffered then (flush e s).1 else s
