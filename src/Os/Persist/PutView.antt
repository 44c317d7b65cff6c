-- ===== src/Os/Persist/PutView.antt =====
-- What `os_persist_put` of os/src/os_persist.c (host) does to the map of keys to values.
use esp32_c6_gateway_os.Base.{
  ℕ, List, true, length, ◌≤◌, ◌≡◌, if◌then◌else◌, find_index, bytes_eq, get_or, some, count_if,
  none, add32, ◌∙◌, find_index-lt, find_index_sound, arith, ap, refl, Option, count_if-zero,
  le→ltb_false, take_all, if_false, not, ltb,
}
use esp32_c6_gateway_os.Os.Persist.Types.{Disk, Store, zero_entry, IsFaithful, Accepts, value_max}
use esp32_c6_gateway_os.Os.Persist.View.{view, IsValid, flush-view}
use esp32_c6_gateway_os.Os.Persist.Ops.{
  holds, put_at, put_new, put_entry, put, is_unused, put_bytes,
}
use esp32_c6_gateway_os.Os.Persist.Lookup.{is_used, unused_at_zero, unused_entry, holds-le-used}
use esp32_c6_gateway_os.Os.Types.{Env, ok}
use esp32_c6_gateway_os.Os.Persist.Flush.{flush}
use esp32_c6_gateway_os.Os.Persist.PutSlot.{IsPut, entry, fresh_key, known_key}

module _ (disk : Disk) (good : IsFaithful disk) (accepts : Accepts disk) (e : Env) (s : Store disk)
    (v : IsValid s.svc) (on : s.svc.initialized ≡ true) (key bytes : List ℕ)
    (short : length key ≤ 31) where
  -- What a flush on the way to the slot keeps.
  IsPut-after :
      (s' s'' : Store disk)
      → ((other : List ℕ) → view disk s' other ≡ view disk s other)
      → IsPut disk key bytes s' s''
      → IsPut disk key bytes s s''
  IsPut-after s' s'' same (seen, valid, on') = (
    (λ other. seen other ∙ ap (λ m. if bytes_eq key other then some bytes else m) (same other)),
    valid,
    on',
  )

  flushed_first :
      (s' : Store disk)
      → (count_if is_used s'.svc.write_buffer ≡ 0)
      → IsValid s'.svc
      → (s'.svc.initialized ≡ true)
      → IsPut disk key bytes s'
          (put_at disk s' (add32 s'.svc.writes_buffered 1) 0 (entry key bytes))
  flushed_first s' emptied valid on' =
      fresh_key disk key bytes short s' valid on' 0 (omega (arith, valid.size))
        (unused_at_zero s'.svc.write_buffer (omega (arith, valid.size)) emptied)
        (count_if-zero (holds key) s'.svc.write_buffer
          (omega (arith, emptied, holds-le-used key s'.svc.write_buffer)))

  put_new-IsPut :
      (o : Option ℕ)
      → find_index is_unused s.svc.write_buffer ≡ o
      → find_index (holds key) s.svc.write_buffer ≡ none
      → IsPut disk key bytes s (put_new disk e s (entry key bytes) o)
  unfolding put_new
  put_new-IsPut (some i) free new =
      fresh_key disk key bytes short s v on i (find_index-lt is_unused s.svc.write_buffer i free)
        (unused_entry (get_or s.svc.write_buffer i zero_entry)
          (find_index_sound is_unused s.svc.write_buffer zero_entry i free))
        new
  put_new-IsPut none full new =
      let (done, same, emptied, zero_count, valid, on') = flush-view disk good accepts e s v on in
      IsPut-after (flush disk e s).1
        (put_at disk (flush disk e s).1 (add32 (flush disk e s).1.svc.writes_buffered 1) 0
          (entry key bytes))
        same (flushed_first (flush disk e s).1 emptied valid on')

  put_entry-IsPut :
      (o : Option ℕ)
      → find_index (holds key) s.svc.write_buffer ≡ o
      → IsPut disk key bytes s (put_entry disk e s (entry key bytes) o)
  unfolding put_entry
  put_entry-IsPut (some i) found = known_key disk key bytes short s v on i found
  put_entry-IsPut none new = put_new-IsPut (find_index is_unused s.svc.write_buffer) refl new

  put_is :
      length bytes ≤ value_max
      → put disk e s (some key) (some bytes)
        ≡ (ok, put_entry disk e s (entry key bytes) (find_index (holds key) s.svc.write_buffer))
  unfolding put put_bytes
  put_is fits =
      if_false (not s.svc.initialized) _ _ (ap not on)
      ∙ if_false (ltb value_max (length bytes)) _ _ (le→ltb_false (length bytes) value_max fits)
      ∙ ap
          (λ k.
            (ok, put_entry disk e s (entry k bytes) (find_index (holds key) s.svc.write_buffer)))
          (take_all 31 key short)

  -- On a valid initialised store with files that keep what is written and take every write,
  -- `os_persist_put` of a key of at most 31 bytes and of at most 512 bytes of data returns OS_OK;
  -- the key then has the data, every other key what it had, in the buffer or on file, and the
  -- store is valid. A full buffer is flushed on the way.
  pub put-view :
      length bytes ≤ value_max
      → let (err, s') = put disk e s (some key) (some bytes) in
        (err ≡ ok)
        × ((other : List ℕ)
            → view disk s' other ≡ (if bytes_eq key other then some bytes else view disk s other))
        × IsValid s'.svc
        × (s'.svc.initialized ≡ true)
  put-view fits =
      let (seen, valid, on') = put_entry-IsPut (find_index (holds key) s.svc.write_buffer) refl in
      rw (put_is fits) (refl, seen, valid, on')
