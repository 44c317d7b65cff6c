-- ===== src/Os/Persist/PutSlot.antt =====
-- The slot that `os_persist_put` of os/src/os_persist.c (host) writes, and the map after it.
use esp32_c6_gateway_os.Base.{
  ℕ, List, true, length, ◌≤◌, ◌≡◌, if◌then◌else◌, ◌<◌, find_index, bytes_eq, ◌≢◌, get_or, some,
  false, count_if, none, set, add32, Bool-cases, inl, inr, length-set, ◌∙◌, each-set, find_index-lt,
  bytes_eq_self, find_index_sound, arith, sym, one_if, find_index-none, ap, count_if-set,
  bytes_eq_sound, count_if-lt-length, refl,
}
use esp32_c6_gateway_os.Os.Persist.Types.{Disk, Entry, Store, zero_entry, key_to_path}
use esp32_c6_gateway_os.Os.Persist.View.{view, IsValid}
use esp32_c6_gateway_os.Os.Persist.Ops.{holds, put_at, find_entry}
use esp32_c6_gateway_os.Os.Persist.Lookup.{
  is_used, set-Distinct, holds_used, holds_free, holds-is_used, find_entry-set_hit, holds_other,
  free_entry, find_entry-set_miss, holds_key, used_entry,
}
use esp32_c6_gateway_os.Os.Persist.FlushView.{stored}

abbrev pub IsPut : (disk : Disk) → List ℕ → List ℕ → Store disk → Store disk → Type 0
IsPut disk key bytes s s' =
    ((other : List ℕ)
      → view disk s' other ≡ (if bytes_eq key other then some bytes else view disk s other))
    × IsValid s'.svc
    × (s'.svc.initialized ≡ true)

abbrev pub entry : List ℕ → List ℕ → Entry
entry key bytes = record { key = key; bytes = bytes; valid = true }

module _ (disk : Disk) (key bytes : List ℕ) (short : length key ≤ 31) where
  module _ (s : Store disk) (v : IsValid s.svc) (on : s.svc.initialized ≡ true) (i count : ℕ)
      (lt : i < length s.svc.write_buffer)
      (others : (other : List ℕ)
        → key ≢ other
        → holds other (get_or s.svc.write_buffer i zero_entry) ≡ false)
      (own : count_if (holds key) (set s.svc.write_buffer i (entry key bytes)) ≤ 1)
      (counted : count ≡ count_if is_used (set s.svc.write_buffer i (entry key bytes))) where
    put_at-IsPut : IsPut disk key bytes s (put_at disk s count i (entry key bytes))
    put_at-IsPut = (seen, valid, on)
      where
        x : Entry
        x = entry key bytes

        own_hit : holds key x ≡ true
        own_hit = holds_used key x refl ∙ bytes_eq_self key

        differs : {other : List ℕ} → bytes_eq key other ≡ false → key ≢ other
        differs f same = cc (sym f ∙ ap (bytes_eq key) (sym same) ∙ bytes_eq_self key)

        seen :
            (other : List ℕ)
            → stored
                (find_entry other (set s.svc.write_buffer i x))
                (disk.read s.files (key_to_path other))
              ≡ (if bytes_eq key other then some bytes else view disk s other)
        seen other = elim (Bool-cases (bytes_eq key other)) [
          | inl t ↦
              rw (sym (bytes_eq_sound key other t), bytes_eq_self key)
                (ap (λ o. stored o (disk.read s.files (key_to_path key)))
                  (find_entry-set_hit key s.svc.write_buffer i x lt own_hit own))
          | inr f ↦ rw f (
              ap (λ o. stored o (disk.read s.files (key_to_path other)))
                (find_entry-set_miss other s.svc.write_buffer i x (others other (differs f))
                  (holds_other other x (differs f))))
        ]

        valid : IsValid (put_at disk s count i (entry key bytes)).svc
        valid = record {
          size = length-set s.svc.write_buffer i x ∙ v.size;
          short = each-set (λ y. length y.key ≤ 31) s.svc.write_buffer i x zero_entry v.short short;
          distinct = set-Distinct s.svc.write_buffer i x lt others v.distinct own;
          counted = counted;
        }

  module _ (s : Store disk) (v : IsValid s.svc) (on : s.svc.initialized ≡ true) where
    pub known_key :
        (i : ℕ)
        → find_index (holds key) s.svc.write_buffer ≡ some i
        → IsPut disk key bytes s (put_at disk s s.svc.writes_buffered i (entry key bytes))
    known_key i found =
        put_at-IsPut s v on i s.svc.writes_buffered lt others
          (omega (
            arith,
            v.distinct key,
            hits,
            ap one_if (holds_used key x refl ∙ bytes_eq_self key),
            count_if-set (holds key) xs i x zero_entry lt,
          ))
          (omega (
            arith,
            v.counted,
            used,
            ap one_if (used_entry x refl),
            count_if-set is_used xs i x zero_entry lt,
          ))
      where
        xs : List Entry
        xs = s.svc.write_buffer

        x : Entry
        x = entry key bytes

        lt : i < length xs
        lt = find_index-lt (holds key) xs i found

        old : holds key (get_or xs i zero_entry) ≡ true
        old = find_index_sound (holds key) xs zero_entry i found

        hits : one_if (holds key (get_or xs i zero_entry)) ≡ 1
        hits = ap one_if old

        used : one_if (is_used (get_or xs i zero_entry)) ≡ 1
        used = ap one_if (holds-is_used key (get_or xs i zero_entry) old)

        others : (other : List ℕ) → key ≢ other → holds other (get_or xs i zero_entry) ≡ false
        others other ne =
            holds_other other (get_or xs i zero_entry)
              (λ same. ne (sym (holds_key key (get_or xs i zero_entry) old) ∙ same))

    pub fresh_key :
        (i : ℕ)
        → i < length s.svc.write_buffer
        → (get_or s.svc.write_buffer i zero_entry).valid ≡ false
        → find_index (holds key) s.svc.write_buffer ≡ none
        → IsPut disk key bytes s (put_at disk s (add32 s.svc.writes_buffered 1) i (entry key bytes))
    fresh_key i lt unused new =
        put_at-IsPut s v on i (add32 s.svc.writes_buffered 1) lt
          (λ other ne. holds_free other (get_or xs i zero_entry) unused)
          (omega (
            arith,
            find_index-none (holds key) xs new,
            count_if-set (holds key) xs i x zero_entry lt,
            ap one_if (holds_used key x refl ∙ bytes_eq_self key),
          ))
          (omega (
            arith,
            v.counted,
            v.size,
            count_if-lt-length is_used xs i zero_entry lt
                (free_entry (get_or xs i zero_entry) unused),
            ap one_if (free_entry (get_or xs i zero_entry) unused),
            ap one_if (used_entry x refl),
            count_if-set is_used xs i x zero_entry lt,
          ))
      where
        xs : List Entry
        xs = s.svc.write_buffer

        x : Entry
        x = entry key bytes
