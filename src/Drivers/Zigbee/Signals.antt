-- ===== src/Drivers/Zigbee/Signals.antt =====
-- drivers/zigbee/zb_real.c: the start of the adapter and what the stack calls. The requests that the
-- handlers make of the stack (commissioning, opening the network) are left out: nothing comes back.
use esp32_c6_gateway_os.Drivers.Zigbee.State.{uninitialized, initializing, ready, error, ZbState}
use esp32_c6_gateway_os.Base.{
  false, true, ℕ, List, [], Bool, le_bytes, if◌then◌else◌, ◌++◌, Option, some, true, none,
}
use esp32_c6_gateway_os.Drivers.Zigbee.State.{Adapter, state_transition, is_ready, error, ready}
use esp32_c6_gateway_os.Os.Types.{
  Env, Err, pad_bytes, ok, not_ready, no_mem, not_initialized, already_exists,
}
use esp32_c6_gateway_os.Os.Event.State.{
  Bus, event_zb_stack_up, event_zb_cmd_confirm, event_zb_cmd_error, event_zb_announce,
}
use esp32_c6_gateway_os.Drivers.Zigbee.Pending.{
  pending_cmd_lookup_by_tsn, pending_at, pending_cmd_free,
}
use esp32_c6_gateway_os.Os.Event.Publish.{emit}
use esp32_c6_gateway_os.Drivers.Zigbee.Cache.{nwk_cache_insert}

unfoldable pub init_from : Adapter → ZbState → Bool → Err × Adapter
init_from a uninitialized true = (ok, (state_transition a initializing).1)
init_from a uninitialized false = (no_mem, a)
init_from a _ created = (already_exists, a)

-- `zba_init`; the flag says whether the task could be created. The set-up of the stack before it
-- aborts the program where it fails.
unfoldable pub zba_init : Adapter → Bool → Err × Adapter
zba_init a created = init_from a a.state created

-- `zba_start_coordinator`
unfoldable pub start_coordinator : Adapter → Err
start_coordinator a = elim a.state [
  | uninitialized ↦ not_initialized
  | initializing ↦ ok
  | ready ↦ ok
  | error ↦ not_ready
]

-- `zba_set_permit_join`
unfoldable pub set_permit_join : Adapter → Err
set_permit_join a = if is_ready a then ok else not_ready

-- The signals that the handler has a case for, and a status of ESP_OK.
pub data Signal : Type 0 where
  skip_startup : Signal
  first_start reboot formation : Bool → Signal
  device_annce : ℕ → ℕ → Signal
  other : Signal

-- The struct of an address and a network address, with the padding at its end.
abbrev pub announce_payload : Env → ℕ → ℕ → List ℕ
announce_payload e eui64 nwk_addr = le_bytes 8 eui64 ++ le_bytes 2 nwk_addr ++ pad_bytes e 10 6

abbrev pub started : Adapter → Bus → Bool → Adapter × Bus
started a b true = (a, b)
started a b false = ((state_transition a error).1, b)

-- `esp_zb_app_signal_handler`
unfoldable pub app_signal_handler : Env → Adapter → Bus → Signal → Adapter × Bus
app_signal_handler e a b skip_startup = (a, b)
app_signal_handler e a b (first_start status_ok) = started a b status_ok
app_signal_handler e a b (reboot status_ok) = started a b status_ok
app_signal_handler e a b (formation true) =
    ((state_transition a ready).1, (emit e b event_zb_stack_up []).1)
app_signal_handler e a b (formation false) = ((state_transition a error).1, b)
app_signal_handler e a b (device_annce eui64 nwk_addr) = (
  (nwk_cache_insert e a eui64 nwk_addr).1,
  (emit e b event_zb_announce (announce_payload e eui64 nwk_addr)).1,
)
app_signal_handler e a b other = (a, b)

-- `zb_send_status_cb`, of the transaction `tsn`
unfoldable pub status_at : Env → Adapter → Bus → Option ℕ → Bool → Adapter × Bus
status_at e a b none success = (a, b)
status_at e a b (some i) success =
    let bytes : List ℕ = le_bytes 4 (pending_at a i).corr_id in
    let event : ℕ = if success then event_zb_cmd_confirm else event_zb_cmd_error in
    (pending_cmd_free a (some i), (emit e b event bytes).1)

unfoldable pub send_status_cb : Env → Adapter → Bus → ℕ → Bool → Adapter × Bus
send_status_cb e a b tsn success = status_at e a b (pending_cmd_lookup_by_tsn a tsn) success
