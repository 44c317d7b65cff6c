-- ===== src/Os/Persist/Loss.antt =====
-- Writes that os/src/os_persist.c (host) acknowledges and then loses, when the files take none.
use esp32_c6_gateway_os.Base.{
  ℕ, List, [], ◌≡◌, none, true, ◌∷◌, refl, ap, if_rule, length, ◌≤◌, find_index, some, set, add32,
  if_false, not, ◌∙◌, ltb, le→ltb_false,
}
use esp32_c6_gateway_os.Os.Persist.Types.{Disk, Entry, Store, key_to_path, value_max}
use esp32_c6_gateway_os.Os.Persist.Flush.{
  write_file, flush_entries, flush, task_turn, Flushed, flush_all, after_flush,
}
use esp32_c6_gateway_os.Os.Types.{Env, busy, Err, ok}
use esp32_c6_gateway_os.Os.Persist.Ops.{
  is_unused, holds, put, new_entry, put_bytes, put_at, put_entry, put_new,
}
use esp32_c6_gateway_os.Os.Persist.FlushView.{flush_on}

-- Every `fopen` for writing fails.
abbrev pub Refuses : Disk → Type 0
Refuses disk = (fs : disk.Files) (path bytes : List ℕ) → disk.write fs path bytes ≡ (none, fs)

module _ (disk : Disk) (refuses : Refuses disk) where
  write_file_refused :
      (fs : disk.Files) (key bytes : List ℕ) → write_file disk fs key bytes ≡ (busy, fs)
  unfolding write_file
  write_file_refused fs key bytes = simp (refuses fs (key_to_path key) bytes, write_file)

  abbrev Unchanged : List Entry → disk.Files → ℕ → Flushed disk → Type 0
  Unchanged xs fs flushed r = (r.buffer ≡ xs) × (r.files ≡ fs) × (r.flushed ≡ flushed)

  flush_entries_refused :
      (xs : List Entry) (fs : disk.Files) (total flushed : ℕ) (err : Err)
      → Unchanged xs fs flushed (flush_entries disk fs total flushed err xs)
  unfolding flush_entries
  flush_entries_refused [] fs total flushed err = (refl, refl, refl)
  flush_entries_refused (x ∷ xs) fs total flushed err =
      if_rule (Unchanged (x ∷ xs) fs flushed) x.valid _ _
        (λ _. rw (write_file_refused fs x.key x.bytes) (
          kept (flush_entries disk fs total flushed busy xs)
            (flush_entries_refused xs fs total flushed busy)))
        (λ _.
          kept (flush_entries disk fs total flushed err xs)
            (flush_entries_refused xs fs total flushed err))
    where
      kept :
          (r : Flushed disk)
          → Unchanged xs fs flushed r
          → Unchanged (x ∷ xs) fs flushed (record r { buffer = x ∷ r.buffer })
      kept r (a, b, c) = (ap (λ ys. x ∷ ys) a, b, c)

  module _ (e : Env) (s : Store disk) (on : s.svc.initialized ≡ true) where
    idle_after :
        task_turn disk e (after_flush disk e s (flush_all disk s))
        ≡ after_flush disk e s (flush_all disk s)
    unfolding task_turn
    idle_after = refl

    -- With files that take no write, `os_persist_flush` returns OS_OK and keeps every entry, but
    -- sets `writes_buffered` to 0, so the flush task tries none of them again.
    flush_refused :
        let (err, s') = flush disk e s in
        (err ≡ ok)
        × (s'.svc.write_buffer ≡ s.svc.write_buffer)
        × (s'.files ≡ s.files)
        × (s'.svc.writes_buffered ≡ 0)
        × (task_turn disk e s' ≡ s')
    flush_refused =
        let (buffer, files, zero_flushed) = all_kept in
        rw (flush_on disk e s on) (refl, buffer, files, refl, idle_after)
      where
        all_kept : Unchanged s.svc.write_buffer s.files 0 (flush_all disk s)
        all_kept =
            flush_entries_refused s.svc.write_buffer s.files s.svc.total_writes 0 s.svc.last_error

    put_at_zero :
        (key bytes : List ℕ)
        → length bytes ≤ value_max
        → find_index is_unused s.svc.write_buffer ≡ none
        → find_index (holds key) s.svc.write_buffer ≡ none
        → put disk e s (some key) (some bytes) ≡ (
          ok,
          put_at disk
              (flush disk e s).1
              (add32 (flush disk e s).1.svc.writes_buffered 1)
              0
              (new_entry key bytes),
        )
    unfolding put put_bytes put_entry put_new
    put_at_zero key bytes fits full new =
        if_false (not s.svc.initialized) _ _ (ap not on)
        ∙ if_false (ltb value_max (length bytes)) _ _ (le→ltb_false (length bytes) value_max fits)
        ∙ ap (λ o. (ok, put_entry disk e s (new_entry key bytes) o)) new
        ∙ ap (λ o. (ok, put_new disk e s (new_entry key bytes) o)) full

    -- On an initialised store with files that take no write, `os_persist_put` of at most 512 bytes
    -- under a key that is not in a full buffer returns OS_OK and puts the new entry in the place of
    -- slot 0, with the files as they were: what was acknowledged there is gone. `writes_buffered` is
    -- then 1, though no slot is unused.
    pub put_lost :
        (key bytes : List ℕ)
        → length bytes ≤ value_max
        → find_index is_unused s.svc.write_buffer ≡ none
        → find_index (holds key) s.svc.write_buffer ≡ none
        → let (err, s') = put disk e s (some key) (some bytes) in
          (err ≡ ok)
          × (s'.svc.write_buffer ≡ set s.svc.write_buffer 0 (new_entry key bytes))
          × (s'.files ≡ s.files)
          × (s'.svc.writes_buffered ≡ 1)
    put_lost key bytes fits full new =
        let (done, buffer, files, zero_count, idle) = flush_refused in
        rw put_is (
          refl,
          ap (λ xs. set xs 0 (new_entry key bytes)) buffer,
          files,
          ap (λ n. add32 n 1) zero_count,
        )
      where
        s' : Store disk
        s' = (flush disk e s).1

        put_is :
            put disk e s (some key) (some bytes)
            ≡ (ok, put_at disk s' (add32 s'.svc.writes_buffered 1) 0 (new_entry key bytes))
        put_is = put_at_zero key bytes fits full new
