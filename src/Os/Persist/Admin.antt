-- ===== src/Os/Persist/Admin.antt =====
-- os/src/os_persist.c (host): `os_persist_init`, the schema version, `os_persist_erase_all` and the
-- statistics.
use esp32_c6_gateway_os.Base.{
  ℕ, List, [], ◌∷◌, Bool, ◌+◌, true, ◌*◌, not, if◌then◌else◌, ◌++◌, ◌==◌, some, take, le_bytes,
  false, codes,
}
use esp32_c6_gateway_os.Os.Types.{Err, ok, Env, busy, already_exists, not_initialized}
use esp32_c6_gateway_os.Os.Persist.Types.{
  Persist, Disk, Store, zero_persist, schema_key, zero_buffer,
}
use esp32_c6_gateway_os.Os.Persist.Ops.{put, read_file}
use esp32_c6_gateway_os.Os.Persist.Flush.{with_error}

-- The number whose low bytes, the lowest first, these are.
unfoldable pub le_value : List ℕ → ℕ
le_value [] = 0
le_value (x ∷ xs) = x + 256 * le_value xs

-- `os_persist_stats_t`
pub record Stats : Type 0 where
  pub writes_buffered : ℕ
  pub total_writes : ℕ
  pub total_reads : ℕ
  pub last_flush_tick : ℕ
  pub last_error : Err

-- `os_persist_get_stats_ex`
abbrev pub get_stats_ex : Persist → Stats
get_stats_ex p = record {
  writes_buffered = p.writes_buffered;
  total_writes = p.total_writes;
  total_reads = p.total_reads;
  last_flush_tick = p.last_flush_tick;
  last_error = p.last_error;
}

-- `os_persist_schema_version`
abbrev pub schema_version : Persist → ℕ
schema_version p = p.schema_version

abbrev pub filename_max_len : ℕ
filename_max_len = 102

-- `d_name[0] != '.'`; the empty name starts with the terminator.
abbrev pub is_visible : List ℕ → Bool
is_visible [] = true
is_visible (c ∷ name) = not (c == 46)

module _ (disk : Disk) where
  abbrev pub version_read : Err × List ℕ → ℕ
  version_read (ok, bytes) = le_value bytes
  version_read (_, _) = 0

  unfoldable pub init_with : Store disk → Bool × disk.Files → Err × Store disk
  init_with s (false, fs) = (busy, record s { svc = zero_persist; files = fs })
  init_with s (true, fs) = (
    ok,
    record s {
      svc = record zero_persist {
        initialized = true;
        schema_version = version_read (read_file disk fs schema_key 4);
      };
      files = fs;
    },
  )

  -- `os_persist_init`, with `ensure_dir`
  unfoldable pub init : Store disk → Err × Store disk
  init s = if s.svc.initialized then (already_exists, s) else init_with s (disk.ensure_dir s.files)

  -- `os_persist_set_schema_version`
  unfoldable pub set_schema_version : Env → Store disk → ℕ → Err × Store disk
  set_schema_version e s version =
      let p : Persist = s.svc in
      put disk e (record s { svc = record p { schema_version = version } }) (some schema_key)
        (some (le_bytes 4 version))

  -- The loop of `os_persist_erase_all` over the directory.
  unfoldable pub erase_files : disk.Files → List (List ℕ) → disk.Files
  erase_files fs [] = fs
  erase_files fs (name ∷ names) =
      let path = codes "/tmp/bridge_persist/" ++ take filename_max_len name in
      let keep = erase_files fs names in
      let gone = erase_files (disk.unlink fs path).1 names in if is_visible name then gone else keep

  -- `os_persist_erase_all`
  unfoldable pub erase_all : Env → Store disk → Err × Store disk
  erase_all e s =
      if not s.svc.initialized
      then (not_initialized, with_error disk s not_initialized)
      else let p : Persist = s.svc in
        (
          ok,
          record s {
            svc = record p {
              write_buffer = zero_buffer;
              writes_buffered = 0;
              schema_version = 0;
              last_flush_tick = e.now;
            };
            files = erase_files s.files (disk.names s.files);
          },
        )
