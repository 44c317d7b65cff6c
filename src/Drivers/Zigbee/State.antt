-- ===== src/Drivers/Zigbee/State.antt =====
-- drivers/zigbee/zb_real.c: the static state of the adapter, and its state machine. What the stack
-- answers is an argument of the function that asks it; the time in ms is `now`.
use esp32_c6_gateway_os.Base.{codes, List, ℕ, List, Bool, false, replicate, true, if◌then◌else◌}

-- `zb_state_t`
pub data ZbState : Type 0 where
  uninitialized initializing ready error : ZbState

-- `zb_nwk_entry_t`
pub record NwkEntry : Type 0 where
  pub eui64 : ℕ
  pub nwk_addr : ℕ
  pub last_seen_ms : ℕ

-- `zb_pending_cmd_t`
pub record Pending : Type 0 where
  pub tsn : ℕ
  pub tsn_valid : Bool
  pub corr_id : ℕ
  pub timestamp_ms : ℕ
  pub in_use : Bool

abbrev pub max_devices : ℕ
max_devices = 64

abbrev pub max_pending : ℕ
max_pending = 16

abbrev pub zero_entry : NwkEntry
zero_entry = record { eui64 = 0; nwk_addr = 0; last_seen_ms = 0 }

abbrev pub zero_pending : Pending
zero_pending = record { tsn = 0; tsn_valid = false; corr_id = 0; timestamp_ms = 0; in_use = false }

-- The static variables `s_zb_state`, `s_nwk_cache`, `s_nwk_count` and `s_pending_cmds`.
pub record Adapter : Type 0 where
  pub state : ZbState
  pub nwk_cache : List NwkEntry
  pub nwk_count : ℕ
  pub pending : List Pending

unfoldable pub zero_pendings : List Pending
zero_pendings = replicate max_pending zero_pending

abbrev pub boot : Adapter
boot = record {
  state = uninitialized;
  nwk_cache = replicate max_devices zero_entry;
  nwk_count = 0;
  pending = zero_pendings;
}

abbrev pub allowed : ZbState → ZbState → Bool
allowed uninitialized initializing = true
allowed initializing ready = true
allowed initializing error = true
allowed ready error = true
allowed _ _ = false

-- `zb_state_transition`
unfoldable pub state_transition : Adapter → ZbState → Bool × Adapter
state_transition a new_state =
    if allowed a.state new_state then (true, record a { state = new_state }) else (false, a)

-- `zb_is_ready`
abbrev pub state_ready : ZbState → Bool
state_ready ready = true
state_ready _ = false

abbrev pub is_ready : Adapter → Bool
is_ready a = state_ready a.state

-- `zb_state_name`
unfoldable pub zb_state_name : ZbState → List ℕ
zb_state_name uninitialized = codes "UNINITIALIZED"
zb_state_name initializing = codes "INITIALIZING"
zb_state_name ready = codes "READY"
zb_state_name error = codes "ERROR"
