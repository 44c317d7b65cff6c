-- ===== src/Drivers/Zigbee/Commands.antt =====
-- drivers/zigbee/zb_cmd.c: the commands. A request that the stack accepts is a value of `Request`; the
-- flag `sent` says whether it accepts this one.
use esp32_c6_gateway_os.Base.{
  false, true, ℕ, Bool, Option, ◌*◌, ◌/◌, ◌+◌, ◌%◌, some, if◌then◌else◌, not, none, true, ◌==◌,
}
use esp32_c6_gateway_os.Drivers.Zigbee.State.{Adapter, is_ready}
use esp32_c6_gateway_os.Os.Types.{Env, Err, ok, no_mem, invalid_arg, not_ready, not_found}
use esp32_c6_gateway_os.Drivers.Zigbee.Cache.{lookup_nwk}
use esp32_c6_gateway_os.Drivers.Zigbee.Pending.{pending_cmd_free, pending_cmd_alloc}

-- What goes to the stack: network address, endpoint, and what the command says.
pub data Request : Type 0 where
  on_off : ℕ → ℕ → Bool → Request
  move_to_level : ℕ → ℕ → ℕ → ℕ → Request

-- The stack's answer to a request, for which the slot was taken.
unfoldable pub requested : Adapter → Option ℕ → Request → Bool → Err × Option Request × Adapter
requested a slot r true = (ok, some r, a)
requested a slot r false = (invalid_arg, none, pending_cmd_free a slot)

unfoldable pub with_slot : Option ℕ × Adapter → Request → Bool → Err × Option Request × Adapter
with_slot (none, a) r sent = (no_mem, none, a)
with_slot (some i, a) r sent = requested a (some i) r sent

-- The steps that both commands share, for the request made of the network address.
unfoldable pub send : Env → Adapter → ℕ → ℕ → (ℕ → Request) → Bool → Err × Option Request × Adapter
send e a node_id corr_id request sent =
    let nwk : ℕ = lookup_nwk a node_id in
    if not (is_ready a)
    then (not_ready, none, a)
    else if nwk == 65535
    then (not_found, none, a)
    else with_slot (pending_cmd_alloc e a corr_id) (request nwk) sent

-- `zba_send_onoff`
unfoldable pub send_onoff : Env → Adapter → ℕ → ℕ → Bool → ℕ → Bool → Err × Option Request × Adapter
send_onoff e a node_id endpoint on corr_id sent =
    send e a node_id corr_id (λ nwk. on_off nwk endpoint on) sent

-- The level in the units of the stack, and the time in tenths of a second.
abbrev pub zb_level : ℕ → ℕ
zb_level level_0_100 = ((level_0_100 * 254 + 50) / 100) % 256

abbrev pub zb_trans : ℕ → ℕ
zb_trans transition_ms = transition_ms / 100

-- `zba_send_level`
unfoldable pub send_level :
    Env → Adapter → ℕ → ℕ → ℕ → ℕ → ℕ → Bool → Err × Option Request × Adapter
send_level e a node_id endpoint level_0_100 transition_ms corr_id sent =
    send e a node_id corr_id
      (λ nwk. move_to_level nwk endpoint (zb_level level_0_100) (zb_trans transition_ms)) sent
