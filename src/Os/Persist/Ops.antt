-- ===== src/Os/Persist/Ops.antt =====
-- os/src/os_persist.c (host): `os_persist_put`, `_get`, `_del` and `_exists`. A key or a value is
-- `none` where the pointer is NULL.
use esp32_c6_gateway_os.Base.{
  ℕ, List, [], Bool, Option, take, ◌∷◌, ◌&&◌, none, not, true, some, if◌then◌else◌, length, false,
  bytes_eq, set, add32, find_index, ltb, sub32,
}
use esp32_c6_gateway_os.Os.Types.{Err, ok, Env, invalid_arg, not_found, busy, no_mem}
use esp32_c6_gateway_os.Os.Persist.Types.{Entry, Disk, Store, key_to_path, Persist, value_max}
use esp32_c6_gateway_os.Os.Persist.Flush.{with_error, flush}

-- `valid && strcmp (entry.key, key) == 0`, the test of every loop over the buffer.
unfoldable pub holds : List ℕ → Entry → Bool
holds key x = x.valid && bytes_eq x.key key

unfoldable pub find_entry : List ℕ → List Entry → Option Entry
unfolding holds
find_entry key [] = none
find_entry key (x ∷ xs) = let rest = find_entry key xs in if holds key x then some x else rest

abbrev pub is_unused : Entry → Bool
is_unused x = not x.valid

-- The entry that a write leaves in its slot: `strncpy` keeps 31 bytes of the key.
abbrev pub new_entry : List ℕ → List ℕ → Entry
new_entry key bytes = record { key = take 31 key; bytes = bytes; valid = true }

-- What a read gives: the error, the bytes copied to the caller's buffer, and `*out_len`.
pub record Got : Type 0 where
  pub err : Err
  pub copied : List ℕ
  pub out_len : ℕ

abbrev pub got : Err → List ℕ → ℕ → Got
got err copied out_len = record { err = err; copied = copied; out_len = out_len }

module _ (disk : Disk) where
  -- The end of `os_persist_put`, at the slot found, with `writes_buffered` as it is then.
  abbrev pub put_at : Store disk → ℕ → ℕ → Entry → Store disk
  put_at s count i x =
      let p : Persist = s.svc in
      record s {
        svc = record p {
          write_buffer = set p.write_buffer i x;
          writes_buffered = count;
          last_error = ok;
        };
      }

  -- No slot has the key: the first unused one, or slot 0 after a flush.
  unfoldable pub put_new : Env → Store disk → Entry → Option ℕ → Store disk
  put_new e s x (some i) = put_at s (add32 s.svc.writes_buffered 1) i x
  put_new e s x none =
      let s' : Store disk = (flush disk e s).1 in put_at s' (add32 s'.svc.writes_buffered 1) 0 x

  unfoldable pub put_entry : Env → Store disk → Entry → Option ℕ → Store disk
  put_entry e s x (some i) = put_at s s.svc.writes_buffered i x
  put_entry e s x none = put_new e s x (find_index is_unused s.svc.write_buffer)

  unfoldable pub put_bytes : Env → Store disk → List ℕ → List ℕ → Err × Store disk
  put_bytes e s key bytes =
      if ltb value_max (length bytes)
      then (invalid_arg, with_error disk s invalid_arg)
      else (ok, put_entry e s (new_entry key bytes) (find_index (holds key) s.svc.write_buffer))

  -- `os_persist_put`
  unfoldable pub put : Env → Store disk → Option (List ℕ) → Option (List ℕ) → Err × Store disk
  put e s none value = (invalid_arg, with_error disk s invalid_arg)
  put e s (some key) none = (invalid_arg, with_error disk s invalid_arg)
  put e s (some key) (some bytes) =
      if not s.svc.initialized
      then (invalid_arg, with_error disk s invalid_arg)
      else put_bytes e s key bytes

  -- `read_file`: the bytes read, of which `*out_len` is the number.
  unfoldable pub read_file : disk.Files → List ℕ → ℕ → Err × List ℕ
  read_file fs key buf_len = elim (disk.read fs (key_to_path key)) [
    | none ↦ (not_found, [])
    | some bytes ↦ if ltb buf_len (length bytes) then (no_mem, []) else (ok, bytes)
  ]

  abbrev pub counted_read : Store disk → Err → Store disk
  counted_read s err =
      let p : Persist = s.svc in
      record s { svc = record p { total_reads = add32 p.total_reads 1; last_error = err } }

  abbrev pub get_file : Store disk → Err × List ℕ → Got × Store disk
  get_file s r = (got r.0 r.1 (length r.1), counted_read s r.0)

  unfoldable pub get_entry : Store disk → List ℕ → ℕ → Option Entry → Got × Store disk
  get_entry s key buf_len (some x) =
      (got ok (take buf_len x.bytes) (length x.bytes), counted_read s ok)
  get_entry s key buf_len none = get_file s (read_file s.files key buf_len)

  -- `os_persist_get` into a buffer of `buf_len` bytes
  unfoldable pub get : Store disk → Option (List ℕ) → ℕ → Got × Store disk
  get s none buf_len = (got invalid_arg [] 0, with_error disk s invalid_arg)
  get s (some key) buf_len =
      if not s.svc.initialized
      then (got invalid_arg [] 0, with_error disk s invalid_arg)
      else get_entry s key buf_len (find_entry key s.svc.write_buffer)

  -- The loop of `os_persist_del`, with `writes_buffered` before the entries of the list.
  unfoldable pub drop_entries : List ℕ → ℕ → List Entry → ℕ × List Entry
  drop_entries key count [] = (count, [])
  drop_entries key count (x ∷ xs) =
      let hit = holds key x in
      let (count', xs') = drop_entries key (if hit then sub32 count 1 else count) xs in
      (count', (if hit then record x { valid = false } else x) ∷ xs')

  abbrev pub dropped : Store disk → Bool × disk.Files → ℕ × List Entry → Err × Store disk
  dropped s (gone, fs) (count, buffer) =
      let err : Err = if gone then ok else busy in
      let p : Persist = s.svc in
      (
        err,
        record s {
          svc = record p { write_buffer = buffer; writes_buffered = count; last_error = err };
          files = fs;
        },
      )

  -- `os_persist_del`, with `delete_file`
  unfoldable pub del : Store disk → Option (List ℕ) → Err × Store disk
  del s none = (invalid_arg, with_error disk s invalid_arg)
  del s (some key) =
      if not s.svc.initialized
      then (invalid_arg, with_error disk s invalid_arg)
      else dropped s (disk.unlink s.files (key_to_path key))
          (drop_entries key s.svc.writes_buffered s.svc.write_buffer)

  unfoldable pub exists_key : Store disk → List ℕ → Option Entry → Bool
  exists_key s key (some x) = true
  exists_key s key none = disk.stat s.files (key_to_path key)

  -- `os_persist_exists`
  unfoldable pub exists : Store disk → Option (List ℕ) → Bool
  exists s none = false
  exists s (some key) =
      if not s.svc.initialized then false else exists_key s key (find_entry key s.svc.write_buffer)
