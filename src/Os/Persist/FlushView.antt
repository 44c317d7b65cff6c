-- ===== src/Os/Persist/FlushView.antt =====
-- What `os_persist_flush` of os/src/os_persist.c (host) leaves in the buffer and in the files.
use esp32_c6_gateway_os.Base.{
  none, some, if_true, if_false, ℕ, List, [], Option, some, ◌≡◌, count_if, length, ◌∷◌, eq_self,
  Bool-cases, refl, inl, inr, true, false, add32, ◌+◌, ◌∙◌, ◌≤◌, bytes_eq, if_rule, suc, arith, ap,
  sym, bytes_eq_sound, bytes_eq_self,
}
use esp32_c6_gateway_os.Os.Persist.Types.{Disk, Entry, IsFaithful, Accepts, key_to_path, Store}
use esp32_c6_gateway_os.Os.Persist.Flush.{
  write_file, flush_entries, Flushed, flush, after_flush, flush_all,
}
use esp32_c6_gateway_os.Os.Persist.Ops.{find_entry, holds}
use esp32_c6_gateway_os.Os.Types.{Err, ok, Env}
use esp32_c6_gateway_os.Os.Persist.Lookup.{
  ShortKeys, is_used, Distinct, find_entry-none, key_to_path_ne, holds_used, Distinct-tail,
  find_entry-hit, find_entry-miss, holds_free, ShortKeys-cons,
}

-- What a key has: the bytes of its entry in the buffer, else of its file.
abbrev pub stored : Option Entry → Option (List ℕ) → Option (List ℕ)
stored (some x) file = some x.bytes
stored none file = file

pub flush_on :
    (disk : Disk) (e : Env) (s : Store disk)
    → s.svc.initialized ≡ true
    → flush disk e s ≡ (ok, after_flush disk e s (flush_all disk s))
unfolding flush
flush_on disk e s on = simp (on, flush)

module _ (disk : Disk) (good : IsFaithful disk) (accepts : Accepts disk) where
  write_file_accepted :
      (fs : disk.Files) (key bytes : List ℕ)
      → write_file disk fs key bytes ≡ (ok, (disk.write fs (key_to_path key) bytes).1)
  unfolding write_file
  write_file_accepted fs key bytes =
      simp (accepts fs (key_to_path key) bytes, eq_self (length bytes), write_file)

  -- One round of the loop: an entry in use is written and marked as unused.
  abbrev round : Entry → Flushed disk → Flushed disk
  round x next = record next { buffer = (record x { valid = false }) ∷ next.buffer }

  abbrev pass : Entry → Flushed disk → Flushed disk
  pass x next = record next { buffer = x ∷ next.buffer }

  flush_entries-used :
      (x : Entry) (xs : List Entry) (fs : disk.Files) (total flushed : ℕ) (err : Err)
      → x.valid ≡ true
      → flush_entries disk fs total flushed err (x ∷ xs)
        ≡ round x (
            flush_entries disk
              (disk.write fs (key_to_path x.key) x.bytes).1
              (add32 total 1)
              (flushed + 1)
              err
              xs)
  unfolding flush_entries
  flush_entries-used x xs fs total flushed err t =
      if_true x.valid _ _ t ∙ rw (write_file_accepted fs x.key x.bytes) refl

  flush_entries-free :
      (x : Entry) (xs : List Entry) (fs : disk.Files) (total flushed : ℕ) (err : Err)
      → x.valid ≡ false
      → flush_entries disk fs total flushed err (x ∷ xs)
        ≡ pass x (flush_entries disk fs total flushed err xs)
  unfolding flush_entries
  flush_entries-free x xs fs total flushed err f = if_false x.valid _ _ f

  -- What the file of a key has after the entry is written.
  abbrev kept : disk.Files → Entry → disk.Files
  kept fs x = (disk.write fs (key_to_path x.key) x.bytes).1

  read_own :
      (fs : disk.Files) (x : Entry) (xs : List Entry) (key : List ℕ)
      → holds key x ≡ true
      → count_if (holds key) (x ∷ xs) ≤ 1
      → stored (find_entry key xs) (disk.read (kept fs x) (key_to_path key)) ≡ some x.bytes
  unfolding holds count_if
  read_own fs x xs key t one = rw (find_entry-none key xs (ground arith)) (
      rw (sym (bytes_eq_sound x.key key (ground arith)))
        (good.read-write fs (key_to_path x.key) x.bytes (accepts fs (key_to_path x.key) x.bytes)))

  read_other :
      (fs : disk.Files) (x : Entry) (key : List ℕ)
      → length x.key ≤ 31
      → bytes_eq x.key key ≡ false
      → disk.read (kept fs x) (key_to_path key) ≡ disk.read fs (key_to_path key)
  read_other fs x key short f =
      good.read-write_ne fs (key_to_path x.key) (key_to_path key) x.bytes (
        key_to_path_ne x.key key short
          (λ e. cc (sym f ∙ ap (λ k. bytes_eq k key) e ∙ bytes_eq_self key)))

  after_write :
      (fs : disk.Files) (x : Entry) (xs : List Entry) (key : List ℕ)
      → length x.key ≤ 31
      → x.valid ≡ true
      → count_if (holds key) (x ∷ xs) ≤ 1
      → stored (find_entry key xs) (disk.read (kept fs x) (key_to_path key))
        ≡ stored (find_entry key (x ∷ xs)) (disk.read fs (key_to_path key))
  after_write fs x xs key short t one = elim (Bool-cases (bytes_eq x.key key)) [
    | inl u ↦
        let h : holds key x ≡ true = holds_used key x t ∙ u in
        read_own fs x xs key h one
        ∙ ap (λ o. stored o (disk.read fs (key_to_path key))) (sym (find_entry-hit key x xs h))
    | inr u ↦ rw (read_other fs x key short u) (
        ap (λ o. stored o (disk.read fs (key_to_path key)))
          (sym (find_entry-miss key x xs (holds_used key x t ∙ u))))
  ]

  -- The files after the loop have, for each key, what the buffer or the file had before.
  pub flush_entries-read :
      (xs : List Entry) (fs : disk.Files) (total flushed : ℕ) (err : Err) (key : List ℕ)
      → ShortKeys xs
      → Distinct xs
      → disk.read (flush_entries disk fs total flushed err xs).files (key_to_path key)
        ≡ stored (find_entry key xs) (disk.read fs (key_to_path key))
  unfolding flush_entries count_if
  flush_entries-read [] fs total flushed err key short one = rw (find_entry-none key [] refl) refl
  flush_entries-read (x ∷ xs) fs total flushed err key short one = elim (Bool-cases x.valid) [
    | inl t ↦ rw (flush_entries-used x xs fs total flushed err t) (
        flush_entries-read xs (kept fs x) (add32 total 1) (flushed + 1) err key (λ k. short (suc k))
          (Distinct-tail x xs one)
        ∙ after_write fs x xs key (short 0) t (one key))
    | inr f ↦ rw (flush_entries-free x xs fs total flushed err f) (
        flush_entries-read xs fs total flushed err key (λ k. short (suc k)) (Distinct-tail x xs one)
        ∙ ap (λ o. stored o (disk.read fs (key_to_path key)))
            (sym (find_entry-miss key x xs (holds_free key x f))))
  ]

  -- No entry is left in the buffer, its size is what it was, and no key is longer.
  pub flush_entries-unused :
      (xs : List Entry) (fs : disk.Files) (total flushed : ℕ) (err : Err)
      → count_if is_used (flush_entries disk fs total flushed err xs).buffer ≡ 0
  unfolding flush_entries count_if is_used
  flush_entries-unused [] fs total flushed err = refl
  flush_entries-unused (x ∷ xs) fs total flushed err = elim (Bool-cases x.valid) [
    | inl t ↦
        rw (flush_entries-used x xs fs total flushed err t)
          (omega (arith, flush_entries-unused xs (kept fs x) (add32 total 1) (flushed + 1) err))
    | inr f ↦
        rw (flush_entries-free x xs fs total flushed err f)
          (ground (arith, f, flush_entries-unused xs fs total flushed err))
  ]

  pub flush_entries-length :
      (xs : List Entry) (fs : disk.Files) (total flushed : ℕ) (err : Err)
      → length (flush_entries disk fs total flushed err xs).buffer ≡ length xs
  unfolding flush_entries
  flush_entries-length [] fs total flushed err = refl
  flush_entries-length (x ∷ xs) fs total flushed err =
      if_rule (λ (r : Flushed disk). length r.buffer ≡ suc (length xs)) x.valid _ _
        (λ _. ap suc (flush_entries-length xs _ _ _ _))
        (λ _. ap suc (flush_entries-length xs _ _ _ _))

  pub flush_entries-ShortKeys :
      (xs : List Entry) (fs : disk.Files) (total flushed : ℕ) (err : Err)
      → ShortKeys xs
      → ShortKeys (flush_entries disk fs total flushed err xs).buffer
  unfolding flush_entries
  flush_entries-ShortKeys [] fs total flushed err short = short
  flush_entries-ShortKeys (x ∷ xs) fs total flushed err short = elim (Bool-cases x.valid) [
    | inl t ↦ rw (flush_entries-used x xs fs total flushed err t) (
        ShortKeys-cons _ _ (short 0) (
          flush_entries-ShortKeys xs (kept fs x) (add32 total 1) (flushed + 1) err
            (λ k. short (suc k))))
    | inr f ↦ rw (flush_entries-free x xs fs total flushed err f) (
        ShortKeys-cons _ _ (short 0)
          (flush_entries-ShortKeys xs fs total flushed err (λ k. short (suc k))))
  ]
