-- ===== src/Drivers/Zigbee/CacheView.antt =====
-- The cache of network addresses of drivers/zigbee/zb_real.c as a map.
use esp32_c6_gateway_os.Base.{
  ℕ, List, [], ◌∷◌, ◌++◌, suc, take, ◌<◌, ◌≤◌, set, length, get_or, find_index, Option, ◌≡◌, ap,
  arith, none, some, true, refl, ◌≢◌, add8, find_index-lt, eq_self, ◌∙◌, get_or-set_ne, eq_ne,
  get_or-set_self, length-set, sym, eq_sound, find_index-set_same, find_index_sound, ◌==◌, ◌⊎◌, inr,
  if_rule, leb, inl, length-take_le, get_or-take, take-set_end, find_index-append_hit,
  find_index-append_miss, take-set,
}
use esp32_c6_gateway_os.Drivers.Zigbee.State.{Adapter, max_devices, zero_entry, NwkEntry}
use esp32_c6_gateway_os.Drivers.Zigbee.Cache.{
  lookup_nwk, cache_index, has_eui64, cached, found_nwk, write_entry, insert_at, nwk_cache_insert,
}
use esp32_c6_gateway_os.Os.Types.{Env}

-- The cache has its 64 slots, of which no more than these are counted.
pub record IsCache (a : Adapter) : Type 0 where
  pub size : length a.nwk_cache ≡ max_devices
  pub counted : a.nwk_count ≤ max_devices

module _ (e : Env) (a : Adapter) (v : IsCache a) (eui64 nwk_addr : ℕ) where
  -- An address is known under the number given, what is known of the others stays.
  abbrev pub Learnt : Adapter → Type 0
  Learnt a' =
      (lookup_nwk a' eui64 ≡ nwk_addr)
      × ((other : ℕ) → eui64 ≢ other → lookup_nwk a' other ≡ lookup_nwk a other)
      × IsCache a'

  live : List NwkEntry
  live = take a.nwk_count a.nwk_cache

  length-live : length live ≡ a.nwk_count
  unfolding live
  length-live = length-take_le a.nwk_count a.nwk_cache (omega (arith, v.size, v.counted))

  has_own : has_eui64 eui64 (cached e eui64 nwk_addr) ≡ true
  has_own = eq_self eui64

  -- The entry at an index is written, and the search for every other address is as before.
  found_same :
      (a' : Adapter) (i other : ℕ) (x : NwkEntry) (o : Option ℕ)
      → a'.nwk_cache ≡ set a.nwk_cache i x
      → ((j : ℕ) → o ≡ some j → i ≢ j)
      → found_nwk a' o ≡ found_nwk a o
  found_same a' i other x none written apart = refl
  found_same a' i other x (some j) written apart =
      ap (λ xs. (get_or xs j zero_entry).nwk_addr) written
      ∙ ap (λ y. y.nwk_addr) (get_or-set_ne a.nwk_cache i j x zero_entry (apart j refl))

  below_count : (other j : ℕ) → cache_index a other ≡ some j → j < a.nwk_count
  unfolding cache_index live
  below_count other j found =
      omega (arith, length-live, find_index-lt (has_eui64 other) live j found)

  -- The entry found has the address looked for.
  key_at :
      (other j : ℕ) → cache_index a other ≡ some j → (get_or a.nwk_cache j zero_entry).eui64 ≡ other
  unfolding cache_index live
  key_at other j found =
      ap (λ (y : NwkEntry). y.eui64)
        (sym (get_or-take a.nwk_count a.nwk_cache j zero_entry (below_count other j found)))
      ∙ eq_sound (get_or live j zero_entry).eui64 other
          (find_index_sound (has_eui64 other) live zero_entry j found)

  -- A new address in the first slot that does not count.
  module _ (new : cache_index a eui64 ≡ none) (room : a.nwk_count < max_devices) where
    a' : Adapter
    a' = record a {
      nwk_cache = set a.nwk_cache a.nwk_count (cached e eui64 nwk_addr);
      nwk_count = add8 a.nwk_count 1;
    }

    grown :
        take (add8 a.nwk_count 1) (set a.nwk_cache a.nwk_count (cached e eui64 nwk_addr))
        ≡ live ++ (cached e eui64 nwk_addr ∷ [])
    unfolding live
    grown =
        ap (λ n. take n (set a.nwk_cache a.nwk_count (cached e eui64 nwk_addr))) one_more
        ∙ take-set_end a.nwk_count a.nwk_cache (cached e eui64 nwk_addr) (omega (arith, v.size))
      where
        one_more : add8 a.nwk_count 1 ≡ suc a.nwk_count
        one_more = omega arith

    index_new : cache_index a' eui64 ≡ some a.nwk_count
    unfolding cache_index a' live
    index_new =
        ap (find_index (has_eui64 eui64)) grown
        ∙ find_index-append_hit (has_eui64 eui64) live (cached e eui64 nwk_addr) new has_own
        ∙ ap some length-live

    index_other : (other : ℕ) → eui64 ≢ other → cache_index a' other ≡ cache_index a other
    unfolding cache_index a' live
    index_other other ne =
        ap (find_index (has_eui64 other)) grown
        ∙ find_index-append_miss (has_eui64 other) live (cached e eui64 nwk_addr)
            (eq_ne eui64 other ne)

    appended-Learnt : Learnt a'
    unfolding lookup_nwk a'
    appended-Learnt = (
      ap (found_nwk a') index_new
          ∙ ap (λ y. y.nwk_addr)
              (get_or-set_self a.nwk_cache a.nwk_count (cached e eui64 nwk_addr) zero_entry
                (omega (arith, v.size))),
      (λ other ne.
          ap (found_nwk a') (index_other other ne)
          ∙ found_same a' a.nwk_count other (cached e eui64 nwk_addr) (cache_index a other) refl
              (λ j found same. absurd (omega (arith, below_count other j found, same)))),
      record {
        size = length-set a.nwk_cache a.nwk_count (cached e eui64 nwk_addr) ∙ v.size;
        counted = omega arith;
      },
    )

  -- The address is there: its entry takes the new number.
  module _ (i : ℕ) (found : cache_index a eui64 ≡ some i) where
    old : NwkEntry
    old = get_or a.nwk_cache i zero_entry

    new_entry : NwkEntry
    new_entry = record old { nwk_addr = nwk_addr; last_seen_ms = e.now }

    i_below : i < a.nwk_count
    i_below = below_count eui64 i found

    i_own : old.eui64 ≡ eui64
    unfolding old
    i_own = key_at eui64 i found

    index_kept : (other : ℕ) → cache_index (write_entry a i new_entry) other ≡ cache_index a other
    unfolding cache_index new_entry old
    index_kept other =
        ap (find_index (has_eui64 other)) (take-set a.nwk_count a.nwk_cache i new_entry)
        ∙ find_index-set_same (has_eui64 other) (take a.nwk_count a.nwk_cache) i new_entry
            zero_entry
            (ap (λ (y : NwkEntry). y.eui64 == other)
              (get_or-take a.nwk_count a.nwk_cache i zero_entry i_below))

    not_other : (other j : ℕ) → eui64 ≢ other → cache_index a other ≡ some j → i ≢ j
    unfolding old
    not_other other j ne hit same =
        ne (sym i_own ∙ ap (λ m. (get_or a.nwk_cache m zero_entry).eui64) same ∙ key_at other j hit)

    updated-Learnt : Learnt (write_entry a i new_entry)
    unfolding lookup_nwk new_entry
    updated-Learnt = (
      ap (found_nwk (write_entry a i new_entry)) (index_kept eui64 ∙ found)
          ∙ ap (λ y. y.nwk_addr)
              (get_or-set_self a.nwk_cache i new_entry zero_entry
                (omega (arith, v.size, v.counted, i_below))),
      (λ other ne.
          ap (found_nwk (write_entry a i new_entry)) (index_kept other)
          ∙ found_same (write_entry a i new_entry) i other new_entry (cache_index a other) refl
              (λ j hit. not_other other j ne hit)),
      record { size = length-set a.nwk_cache i new_entry ∙ v.size; counted = v.counted },
    )

  abbrev Insertion : Option ℕ × Adapter → Type 0
  Insertion (o, a'') =
      ((o ≡ none) × (cache_index a eui64 ≡ none) × (a.nwk_count ≡ max_devices) × (a'' ≡ a))
      ⊎ ((i : ℕ) × (o ≡ some i) × Learnt a'')

  insert_at-Insertion :
      (o : Option ℕ) → cache_index a eui64 ≡ o → Insertion (insert_at e a eui64 nwk_addr o)
  unfolding insert_at new_entry old a'
  insert_at-Insertion (some i) found = inr (i, refl, updated-Learnt i found)
  insert_at-Insertion none new =
      if_rule Insertion (leb max_devices a.nwk_count) _ _
        (λ full. inl (refl, new, ground (arith, v.counted), refl))
        (λ space. inr (a.nwk_count, refl, appended-Learnt new (ground arith)))

  -- On a cache of 64 slots in order, `nwk_cache_insert` refuses only an unknown address when all
  -- count, and then changes nothing. Otherwise `zb_lookup_nwk` of the address gives the number
  -- inserted, that of every other address what it gave before, and the cache is in order.
  pub nwk_cache_insert-lookup :
      let (o, a'') = nwk_cache_insert e a eui64 nwk_addr in
      ((o ≡ none) × (cache_index a eui64 ≡ none) × (a.nwk_count ≡ max_devices) × (a'' ≡ a))
      ⊎ ((i : ℕ) × (o ≡ some i) × Learnt a'')
  unfolding nwk_cache_insert
  nwk_cache_insert-lookup = insert_at-Insertion (cache_index a eui64) refl
