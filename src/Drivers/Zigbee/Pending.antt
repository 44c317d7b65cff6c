-- ===== src/Drivers/Zigbee/Pending.antt =====
-- drivers/zigbee/zb_real.c: the commands that wait for an answer. A `zb_pending_cmd_t *` is the index
-- of its slot.
use esp32_c6_gateway_os.Base.{
  ℕ, Bool, false, set, get_or, Option, not, ◌&&◌, true, some, find_index, ◌==◌, if◌then◌else◌, none,
}
use esp32_c6_gateway_os.Drivers.Zigbee.State.{Pending, Adapter, zero_pending}
use esp32_c6_gateway_os.Os.Types.{Env}

abbrev pub slot_free : Pending → Bool
slot_free p = not p.in_use

abbrev pub slot_used : Pending → Bool
slot_used p = p.in_use

abbrev pub awaits : ℕ → Pending → Bool
awaits tsn p = p.in_use && p.tsn_valid && p.tsn == tsn

abbrev pub pending_for : Env → ℕ → Pending
pending_for e corr_id = record {
  tsn = 0;
  tsn_valid = false;
  corr_id = corr_id;
  timestamp_ms = e.now;
  in_use = true;
}

abbrev pub put_pending : Adapter → ℕ → Pending → Adapter
put_pending a i p = record a { pending = set a.pending i p }

abbrev pub pending_at : Adapter → ℕ → Pending
pending_at a i = get_or a.pending i zero_pending

-- `pending_cmd_alloc`
unfoldable pub alloc_at : Env → Adapter → ℕ → Option ℕ → Option ℕ × Adapter
alloc_at e a corr_id none = (none, a)
alloc_at e a corr_id (some i) = (some i, put_pending a i (pending_for e corr_id))

unfoldable pub pending_cmd_alloc : Env → Adapter → ℕ → Option ℕ × Adapter
pending_cmd_alloc e a corr_id = alloc_at e a corr_id (find_index slot_free a.pending)

-- `pending_cmd_set_tsn`
unfoldable pub pending_cmd_set_tsn : Adapter → Option ℕ → ℕ → Adapter
pending_cmd_set_tsn a none tsn = a
pending_cmd_set_tsn a (some i) tsn =
    let p : Pending = pending_at a i in
    if p.in_use then put_pending a i (record p { tsn = tsn; tsn_valid = true }) else a

-- `pending_cmd_lookup_by_tsn`
unfoldable pub pending_cmd_lookup_by_tsn : Adapter → ℕ → Option ℕ
pending_cmd_lookup_by_tsn a tsn = find_index (awaits tsn) a.pending

-- `pending_cmd_free`
unfoldable pub pending_cmd_free : Adapter → Option ℕ → Adapter
pending_cmd_free a none = a
pending_cmd_free a (some i) =
    let p : Pending = pending_at a i in put_pending a i (record p { in_use = false })
