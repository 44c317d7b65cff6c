-- ===== src/Drivers/Zigbee/Cache.antt =====
-- drivers/zigbee/zb_real.c: the cache of network addresses. The first `s_nwk_count` entries count.
use esp32_c6_gateway_os.Base.{
  ℕ, Bool, Option, set, ◌==◌, find_index, some, false, take, get_or, true, if◌then◌else◌, leb, ltb,
  ◌-◌, add8, sub8, none,
}
use esp32_c6_gateway_os.Drivers.Zigbee.State.{NwkEntry, Adapter, zero_entry, max_devices}
use esp32_c6_gateway_os.Os.Types.{Env}

abbrev pub has_eui64 : ℕ → NwkEntry → Bool
has_eui64 eui64 x = x.eui64 == eui64

-- The search `for (i = 0; i < s_nwk_count; i++)`.
unfoldable pub cache_index : Adapter → ℕ → Option ℕ
cache_index a eui64 = find_index (has_eui64 eui64) (take a.nwk_count a.nwk_cache)

abbrev pub cached : Env → ℕ → ℕ → NwkEntry
cached e eui64 nwk_addr = record { eui64 = eui64; nwk_addr = nwk_addr; last_seen_ms = e.now }

abbrev pub write_entry : Adapter → ℕ → NwkEntry → Adapter
write_entry a i x = record a { nwk_cache = set a.nwk_cache i x }

unfoldable pub insert_at : Env → Adapter → ℕ → ℕ → Option ℕ → Option ℕ × Adapter
insert_at e a eui64 nwk_addr (some i) =
    let x : NwkEntry = get_or a.nwk_cache i zero_entry in
    (some i, write_entry a i (record x { nwk_addr = nwk_addr; last_seen_ms = e.now }))
insert_at e a eui64 nwk_addr none = if leb max_devices a.nwk_count then (none, a) else (
  some a.nwk_count,
  record a {
    nwk_cache = set a.nwk_cache a.nwk_count (cached e eui64 nwk_addr);
    nwk_count = add8 a.nwk_count 1;
  },
)

-- `nwk_cache_insert`
unfoldable pub nwk_cache_insert : Env → Adapter → ℕ → ℕ → Option ℕ × Adapter
nwk_cache_insert e a eui64 nwk_addr = insert_at e a eui64 nwk_addr (cache_index a eui64)

unfoldable pub remove_at : Adapter → Option ℕ → Bool × Adapter
remove_at a none = (false, a)
remove_at a (some i) = (
  true,
  record a {
    nwk_cache =
        if ltb i (a.nwk_count - 1)
        then set a.nwk_cache i (get_or a.nwk_cache (a.nwk_count - 1) zero_entry)
        else a.nwk_cache;
    nwk_count = sub8 a.nwk_count 1;
  },
)

-- `nwk_cache_remove`
unfoldable pub nwk_cache_remove : Adapter → ℕ → Bool × Adapter
nwk_cache_remove a eui64 = remove_at a (cache_index a eui64)

-- `zb_lookup_nwk`, with `nwk_cache_lookup_by_eui64`
abbrev pub found_nwk : Adapter → Option ℕ → ℕ
found_nwk a none = 65535
found_nwk a (some i) = (get_or a.nwk_cache i zero_entry).nwk_addr

unfoldable pub lookup_nwk : Adapter → ℕ → ℕ
lookup_nwk a eui64 = found_nwk a (cache_index a eui64)
