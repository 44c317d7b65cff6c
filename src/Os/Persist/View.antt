-- ===== src/Os/Persist/View.antt =====
-- The store of os/src/os_persist.c (host) as a map from keys to values: what a key has is its entry in
-- the write buffer, else its file.
use esp32_c6_gateway_os.Base.{
  ℕ, List, length, Option, ◌≡◌, true, count_if, ap, ◌∙◌, arith, refl, sym,
}
use esp32_c6_gateway_os.Os.Persist.Types.{
  Disk, Persist, Store, IsFaithful, Accepts, write_buffer_size, key_to_path,
}
use esp32_c6_gateway_os.Os.Persist.FlushView.{
  stored, flush_entries-unused, flush_entries-length, flush_entries-ShortKeys, flush_entries-read,
  flush_on,
}
use esp32_c6_gateway_os.Os.Types.{Env, ok}
use esp32_c6_gateway_os.Os.Persist.Ops.{find_entry}
use esp32_c6_gateway_os.Os.Persist.Lookup.{
  ShortKeys, Distinct, is_used, find_entry-unused, holds-le-used,
}
use esp32_c6_gateway_os.Os.Persist.Flush.{flush, after_flush, flush_all}

abbrev pub view : (disk : Disk) → Store disk → List ℕ → Option (List ℕ)
view disk s key = stored (find_entry key s.svc.write_buffer) (disk.read s.files (key_to_path key))

-- The buffer has its 16 slots, no key of more than 31 bytes, no key twice, and `writes_buffered`
-- is the number of the entries in use.
pub record IsValid (p : Persist) : Type 0 where
  pub size : length p.write_buffer ≡ write_buffer_size
  pub short : ShortKeys p.write_buffer
  pub distinct : Distinct p.write_buffer
  pub counted : p.writes_buffered ≡ count_if is_used p.write_buffer

module _ (disk : Disk) (good : IsFaithful disk) (accepts : Accepts disk) (e : Env) (s : Store disk)
    (v : IsValid s.svc) (on : s.svc.initialized ≡ true) where
  emptied : count_if is_used (flush_all disk s).buffer ≡ 0
  emptied =
      flush_entries-unused disk good accepts s.svc.write_buffer s.files s.svc.total_writes 0
        s.svc.last_error

  after_flush-IsValid : IsValid (after_flush disk e s (flush_all disk s)).svc
  after_flush-IsValid = record {
    size = flush_entries-length disk good accepts s.svc.write_buffer _ _ _ _ ∙ v.size;
    short = flush_entries-ShortKeys disk good accepts s.svc.write_buffer _ _ _ _ v.short;
    distinct = λ key. omega (arith, holds-le-used key (flush_all disk s).buffer, emptied);
    counted = sym emptied;
  }

  -- On a valid initialised store with files that keep what is written and take every write,
  -- `os_persist_flush` returns OS_OK, changes what no key has, and leaves no entry in use;
  -- `writes_buffered` is then 0 and the store valid.
  pub flush-view :
      let (err, s') = flush disk e s in
      (err ≡ ok)
      × ((key : List ℕ) → view disk s' key ≡ view disk s key)
      × (count_if is_used s'.svc.write_buffer ≡ 0)
      × (s'.svc.writes_buffered ≡ 0)
      × IsValid s'.svc
      × (s'.svc.initialized ≡ true)
  flush-view = rw (flush_on disk e s on) (
    refl,
    (λ key.
        ap (λ o. stored o (disk.read (flush_all disk s).files (key_to_path key)))
          (find_entry-unused key _ emptied)
        ∙ flush_entries-read disk good accepts s.svc.write_buffer s.files s.svc.total_writes 0
            s.svc.last_error key v.short v.distinct),
    emptied,
    refl,
    after_flush-IsValid,
    on,
  )
