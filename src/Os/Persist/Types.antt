-- ===== src/Os/Persist/Types.antt =====
-- os/src/os_persist.c (host): the state, and the C library's files as a parameter. A key is the bytes
-- of its string before the terminator, stored data the bytes of the entry, `len` their number.
use esp32_c6_gateway_os.Base.{
  List, [], ℕ, false, Bool, replicate, Option, ◌≡◌, ◌++◌, some, take, length, ◌≢◌, codes,
}
use esp32_c6_gateway_os.Os.Types.{Err, ok}
use esp32_c6_gateway_os.Os.Event.State.{Bus}

abbrev pub key_max : ℕ
key_max = 32

abbrev pub value_max : ℕ
value_max = 512

abbrev pub write_buffer_size : ℕ
write_buffer_size = 16

-- `write_buffer_entry_t`
pub record Entry : Type 0 where
  pub key : List ℕ
  pub bytes : List ℕ
  pub valid : Bool

abbrev pub zero_entry : Entry
zero_entry = record { key = []; bytes = []; valid = false }

pub record Persist : Type 0 where
  pub initialized : Bool
  pub write_buffer : List Entry
  pub writes_buffered : ℕ
  pub total_writes : ℕ
  pub total_reads : ℕ
  pub schema_version : ℕ
  pub last_flush_tick : ℕ
  pub last_error : Err

unfoldable pub zero_buffer : List Entry
zero_buffer = replicate write_buffer_size zero_entry

abbrev pub zero_persist : Persist
zero_persist = record {
  initialized = false;
  write_buffer = zero_buffer;
  writes_buffered = 0;
  total_writes = 0;
  total_reads = 0;
  schema_version = 0;
  last_flush_tick = 0;
  last_error = ok;
}

-- What the program uses of files: whether the directory is there or can be made; `fopen (path, "wb")`
-- with `fwrite`, which either cannot open the file or writes a number of bytes; the content that
-- `fopen (path, "rb")` and `fread` give; `unlink`, which says whether the file is gone; the names in
-- the directory; and `stat`.
pub record Disk : Type 1 where
  pub Files : Type 0
  pub ensure_dir : Files → Bool × Files
  pub write : Files → List ℕ → List ℕ → Option ℕ × Files
  pub read : Files → List ℕ → Option (List ℕ)
  pub unlink : Files → List ℕ → Bool × Files
  pub names : Files → List (List ℕ)
  pub stat : Files → List ℕ → Bool

-- A complete write is what is read back, and no write touches another file.
pub record IsFaithful (disk : Disk) : Type 0 where
  pub read-write :
      (fs : disk.Files) (path bytes : List ℕ)
      → (disk.write fs path bytes).0 ≡ some (length bytes)
      → disk.read (disk.write fs path bytes).1 path ≡ some bytes
  pub read-write_ne :
      (fs : disk.Files) (path other bytes : List ℕ)
      → path ≢ other
      → disk.read (disk.write fs path bytes).1 other ≡ disk.read fs other

-- Every write succeeds.
abbrev pub Accepts : Disk → Type 0
Accepts disk =
    (fs : disk.Files) (path bytes : List ℕ) → (disk.write fs path bytes).0 ≡ some (length bytes)

-- The service with the files and the event bus that it works on.
pub record Store (disk : Disk) : Type 0 where
  pub svc : Persist
  pub files : disk.Files
  pub bus : Bus

-- `key_to_path`: at most 32 bytes of the key, which fit the 128 of the path.
unfoldable pub key_to_path : List ℕ → List ℕ
key_to_path key = codes "/tmp/bridge_persist/" ++ (take 32 key ++ codes ".bin")

abbrev pub schema_key : List ℕ
schema_key = codes "_schema_version"
