-- ===== src/Os/Persist/DelView.antt =====
-- What `os_persist_del` of os/src/os_persist.c (host) does to the map of keys to values.
use esp32_c6_gateway_os.Os.Persist.View.{IsValid, view}
use esp32_c6_gateway_os.Base.{
  ℕ, List, [], ◌∷◌, if◌then◌else◌, count_if, false, ◌≡◌, true, none, ◌≤◌, ◌≢◌, Bool-cases, length,
  arith, inl, ◌+◌, inr, sub32, one_if, ◌∙◌, ap, sym, suc, refl, Bool, count_if-le-length, some,
  if_false, not,
}
use esp32_c6_gateway_os.Os.Persist.Types.{Entry, Disk, Store, key_to_path}
use esp32_c6_gateway_os.Os.Persist.Ops.{drop_entries, holds, find_entry, dropped, del}
use esp32_c6_gateway_os.Os.Persist.Lookup.{
  is_used, find_entry-none, ShortKeys, find_entry-hit, find_entry-miss, holds_free, holds-is_used,
  holds_other, holds_key, ShortKeys-cons, free_entry, key_to_path_ne,
}
use esp32_c6_gateway_os.Os.Types.{ok, busy}
use esp32_c6_gateway_os.Os.Persist.FlushView.{stored}

module _ (disk : Disk) (key : List ℕ) where
  -- What the loop makes of the buffer and of the count of its entries in use.
  abbrev Dropped : ℕ → List Entry → ℕ × List Entry → Type 0
  Dropped count xs (count', xs') =
      (find_entry key xs' ≡ none)
      × ((other : List ℕ) → key ≢ other → find_entry other xs' ≡ find_entry other xs)
      × (length xs' ≡ length xs)
      × (ShortKeys xs → ShortKeys xs')
      × ((other : List ℕ) → count_if (holds other) xs' ≤ count_if (holds other) xs)
      × (count' + count_if is_used xs ≡ count + count_if is_used xs')

  Dropped-hit :
      (x : Entry) (xs : List Entry) (count : ℕ) (r : ℕ × List Entry)
      → holds key x ≡ true
      → 1 ≤ count
      → count ≤ 16
      → Dropped (sub32 count 1) xs r
      → Dropped count (x ∷ xs) (r.0, record x { valid = false } ∷ r.1)
  unfolding count_if
  Dropped-hit x xs count (count', xs') t some_used few (free, others, size, short, less, total) = (
    find_entry-miss key y xs' (holds_free key y refl) ∙ free,
    (λ other ne.
        find_entry-miss other y xs' (holds_free other y refl)
        ∙ others other ne
        ∙ sym (
            find_entry-miss other x xs
              (holds_other other x (λ same. ne (sym (holds_key key x t) ∙ same))))),
    ap suc size,
    (λ h. ShortKeys-cons y xs' (h 0) (short (λ k. h (suc k)))),
    (λ other. omega (arith, less other, ap one_if (holds_free other y refl))),
    omega (arith, total, ap one_if (holds-is_used key x t), ap one_if (free_entry y refl)),
  )
    where
      y : Entry
      y = record x { valid = false }

  Dropped-miss :
      (x : Entry) (xs : List Entry) (count : ℕ) (r : ℕ × List Entry)
      → holds key x ≡ false
      → Dropped count xs r
      → Dropped count (x ∷ xs) (r.0, x ∷ r.1)
  unfolding count_if
  Dropped-miss x xs count (count', xs') f (free, others, size, short, less, total) = (
    find_entry-miss key x xs' f ∙ free,
    (λ other ne. same_head other (others other ne)),
    ap suc size,
    (λ h. ShortKeys-cons x xs' (h 0) (short (λ k. h (suc k)))),
    (λ other. omega (arith, less other)),
    omega (arith, total),
  )
    where
      same_head :
          (other : List ℕ)
          → find_entry other xs' ≡ find_entry other xs
          → find_entry other (x ∷ xs') ≡ find_entry other (x ∷ xs)
      same_head other e = elim (Bool-cases (holds other x)) [
        | inl h ↦ find_entry-hit other x xs' h ∙ sym (find_entry-hit other x xs h)
        | inr h ↦ find_entry-miss other x xs' h ∙ e ∙ sym (find_entry-miss other x xs h)
      ]

  empty_loop : (count : ℕ) → Dropped count [] (drop_entries disk key count [])
  unfolding drop_entries count_if
  empty_loop count =
      (find_entry-none key [] refl, λ other ne. refl, refl, λ h. h, λ other. omega arith, refl)

  -- A round of the loop, by the test of its entry.
  abbrev round : Bool → Entry → List Entry → ℕ → ℕ × List Entry
  round b x xs count =
      let r = drop_entries disk key (if b then sub32 count 1 else count) xs in
      (r.0, (if b then record x { valid = false } else x) ∷ r.1)

  drop_entries-round :
      (x : Entry) (xs : List Entry) (count : ℕ) (b : Bool)
      → holds key x ≡ b
      → drop_entries disk key count (x ∷ xs) ≡ round b x xs count
  unfolding drop_entries
  drop_entries-round x xs count b e = ap (λ c. round c x xs count) e

  drop_entries-Dropped :
      (xs : List Entry) (count : ℕ)
      → count_if is_used xs ≤ count
      → count ≤ 16
      → Dropped count xs (drop_entries disk key count xs)
  unfolding count_if
  drop_entries-Dropped [] count below few = empty_loop count
  drop_entries-Dropped (x ∷ xs) count below few = elim (Bool-cases (holds key x)) [
    | inl t ↦
        let used : one_if (is_used x) ≡ 1 = ap one_if (holds-is_used key x t) in
        rw (drop_entries-round x xs count true t) (
          Dropped-hit x xs count (drop_entries disk key (sub32 count 1) xs) t (omega (arith, used))
            few
            (drop_entries-Dropped xs (sub32 count 1) (omega (arith, used)) (omega (arith, used))))
    | inr f ↦ rw (drop_entries-round x xs count false f) (
        Dropped-miss x xs count (drop_entries disk key count xs) f
          (drop_entries-Dropped xs count (omega arith) few))
  ]

-- Every file can be taken away: it is gone then, and no other is.
pub record Unlinks (disk : Disk) : Type 0 where
  pub removes : (fs : disk.Files) (path : List ℕ) → (disk.unlink fs path).0 ≡ true
  pub read-unlink :
      (fs : disk.Files) (path : List ℕ) → disk.read (disk.unlink fs path).1 path ≡ none
  pub read-unlink_ne :
      (fs : disk.Files) (path other : List ℕ)
      → path ≢ other
      → disk.read (disk.unlink fs path).1 other ≡ disk.read fs other

module _ (disk : Disk) (u : Unlinks disk) (s : Store disk) (v : IsValid s.svc)
    (on : s.svc.initialized ≡ true) (key : List ℕ) (short : length key ≤ 31) where
  abbrev removed : Store disk
  removed =
      (dropped disk s (disk.unlink s.files (key_to_path key))
        (drop_entries disk key s.svc.writes_buffered s.svc.write_buffer)).1

  del_is : del disk s (some key) ≡ (ok, removed)
  unfolding del
  del_is =
      if_false (not s.svc.initialized) _ _ (ap not on)
      ∙ ap (λ b. (if b then ok else busy, removed)) (u.removes s.files (key_to_path key))

  whole_loop :
      Dropped disk key s.svc.writes_buffered s.svc.write_buffer
        (drop_entries disk key s.svc.writes_buffered s.svc.write_buffer)
  whole_loop =
      drop_entries-Dropped disk key s.svc.write_buffer s.svc.writes_buffered
        (omega (arith, v.counted))
        (omega (arith, v.counted, v.size, count_if-le-length is_used s.svc.write_buffer))

  -- On a valid initialised store with files that can be taken away, `os_persist_del` of a key of at
  -- most 31 bytes returns OS_OK; the key then has nothing, neither in the buffer nor on file, every
  -- other key what it had, and the store is valid.
  pub del-view :
      let (err, s') = del disk s (some key) in
      (err ≡ ok)
      × (view disk s' key ≡ none)
      × ((other : List ℕ) → key ≢ other → view disk s' other ≡ view disk s other)
      × IsValid s'.svc
  del-view =
      let (free, others, size, shorts, less, total) = whole_loop in
      rw del_is (
        refl,
        ap (λ o. stored o (disk.read removed.files (key_to_path key))) free
            ∙ u.read-unlink s.files (key_to_path key),
        (λ other ne.
            ap (λ o. stored o (disk.read removed.files (key_to_path other))) (others other ne)
            ∙ ap (stored (find_entry other s.svc.write_buffer)) (
                u.read-unlink_ne s.files (key_to_path key) (key_to_path other)
                  (key_to_path_ne key other short ne))),
        record {
          size = size ∙ v.size;
          short = shorts v.short;
          distinct = λ other. omega (arith, less other, v.distinct other);
          counted = omega (arith, total, v.counted);
        },
      )
