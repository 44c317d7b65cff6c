-- ===== src/Services/Capability/Report.antt =====
-- services/src/capability.c: `cap_get_state`, `cap_handle_attribute_report`, `cap_execute_command`.
use esp32_c6_gateway_os.Base.{
  ℕ, List, Bool, [], ◌∷◌, some, none, true, ◌==◌, Option, get_or, if◌then◌else◌, le_bytes,
  find_index, not, ◌&&◌, ltb, ◌++◌, set, take, ◌^◌, ◌+◌, ◌-◌, ◌*◌, ◌/◌, of_bytes,
}
use esp32_c6_gateway_os.Services.Capability.Types.{
  CapId, cap_number, unknown, switch_on, light_on, light_level, light_color_temp,
  sensor_temperature, sensor_humidity, sensor_contact, sensor_motion, sensor_illuminance,
  power_watts, energy_kwh, CapState, NodeCaps, Service, ClusterCap, Floats, zero_cap, with_bool,
  zero_value, cluster_map, bool_of, with_word, word_of,
}
use esp32_c6_gateway_os.Services.Capability.Compute.{find_cache, cache_at, put_cache}
use esp32_c6_gateway_os.Os.Types.{Err, ok, invalid_arg, not_found, Env, pad_bytes}
use esp32_c6_gateway_os.Os.Event.State.{Bus, event_cap_state_changed, event_cap_command}
use esp32_c6_gateway_os.Os.Event.Publish.{emit}

-- `find_cap_in_cache`
abbrev pub is_cap : CapId → CapState → Bool
is_cap id c = cap_number c.id == cap_number id

unfoldable pub find_cap_in_cache : NodeCaps → CapId → Option ℕ
find_cap_in_cache c id = find_index (is_cap id) (take c.cap_count c.caps)

abbrev pub cap_at : NodeCaps → ℕ → CapState
cap_at c k = get_or c.caps k zero_cap

unfoldable pub state_of : NodeCaps → Option ℕ → Err × Option CapState
state_of c none = (not_found, none)
state_of c (some k) = (ok, some (cap_at c k))

unfoldable pub state_in : Service → Option ℕ → CapId → Err × Option CapState
state_in s none id = (not_found, none)
state_in s (some i) id = state_of (cache_at s i) (find_cap_in_cache (cache_at s i) id)

-- `cap_get_state`, with room for the state.
unfoldable pub get_state : Service → ℕ → CapId → Err × Option CapState
get_state s node_addr id =
    if not s.initialized then (invalid_arg, none) else state_in s (find_cache s node_addr) id

-- The capability of a cluster and an attribute.
unfoldable pub reported_cap : ℕ → ℕ → List ClusterCap → CapId
reported_cap cluster_id attr_id [] = unknown
reported_cap cluster_id attr_id (m ∷ ms) =
    let rest = reported_cap cluster_id attr_id ms in
    if m.cluster_id == cluster_id && m.attr_id == attr_id then m.cap_id else rest

-- `value->s16` as an `int32_t`.
abbrev pub sign_extend : ℕ → ℕ
sign_extend n = if ltb n (2 ^ 15) then n else n + 2 ^ 32 - 2 ^ 16

-- The bits of `100.0f`.
abbrev pub hundred : ℕ
hundred = 1120403456

abbrev pub zcl_level_max : ℕ
zcl_level_max = 254

-- The new value, by the capability; the attribute's value is the 32 bytes of its union.
unfoldable pub new_value : Floats → CapId → List ℕ → List ℕ
new_value fl light_on value = with_bool zero_value (bool_of value)
new_value fl switch_on value = with_bool zero_value (bool_of value)
new_value fl light_level value = with_word zero_value (get_or value 0 0 * 100 / zcl_level_max)
new_value fl sensor_temperature value =
    with_word zero_value (fl.div (fl.of_int (sign_extend (of_bytes (take 2 value)))) hundred)
new_value fl sensor_humidity value =
    with_word zero_value (fl.div (fl.of_int (of_bytes (take 2 value))) hundred)
new_value fl unknown value = with_word zero_value (word_of value)
new_value fl light_color_temp value = with_word zero_value (word_of value)
new_value fl sensor_contact value = with_word zero_value (word_of value)
new_value fl sensor_motion value = with_word zero_value (word_of value)
new_value fl sensor_illuminance value = with_word zero_value (word_of value)
new_value fl power_watts value = with_word zero_value (word_of value)
new_value fl energy_kwh value = with_word zero_value (word_of value)

-- The struct of `emit_state_changed`: its last four bytes are padding.
abbrev pub changed_payload : Env → ℕ → CapId → List ℕ → List ℕ
changed_payload e node_addr id value =
    le_bytes 8 node_addr ++ le_bytes 4 (cap_number id) ++ value ++ pad_bytes e 44 4

-- `emit_state_changed`
unfoldable pub emit_state_changed : Env → Bus → ℕ → CapId → List ℕ → Bus
emit_state_changed e b node_addr id value =
    (emit e b event_cap_state_changed (changed_payload e node_addr id value)).1

abbrev pub reported : Env → CapState → List ℕ → CapState
reported e c value = record c { value = value; timestamp = e.now; valid = true }

unfoldable pub report_cap :
    Floats → Env → Service → Bus → ℕ → CapId → List ℕ → ℕ → Option ℕ → Err × Service × Bus
report_cap fl e s b node_addr id value i none = (not_found, s, b)
report_cap fl e s b node_addr id value i (some k) =
    let c : NodeCaps = cache_at s i in
    let new : List ℕ = new_value fl id value in
    (
      ok,
      put_cache s i (record c { caps = set c.caps k (reported e (cap_at c k) new) }),
      emit_state_changed e b node_addr id new,
    )

unfoldable pub report_in :
    Floats → Env → Service → Bus → ℕ → CapId → List ℕ → Option ℕ → Err × Service × Bus
report_in fl e s b node_addr id value none = (not_found, s, b)
report_in fl e s b node_addr id value (some i) =
    report_cap fl e s b node_addr id value i (find_cap_in_cache (cache_at s i) id)

-- `cap_handle_attribute_report`; the endpoint is not used.
unfoldable pub handle_attribute_report :
    Floats → Env → Service → Bus → ℕ → ℕ → ℕ → Option (List ℕ) → Err × Service × Bus
handle_attribute_report fl e s b node_addr cluster_id attr_id none = (invalid_arg, s, b)
handle_attribute_report fl e s b node_addr cluster_id attr_id (some value) =
    let id : CapId = reported_cap cluster_id attr_id cluster_map in
    if not s.initialized
    then (invalid_arg, s, b)
    else if cap_number id == 0
    then (ok, s, b)
    else report_in fl e s b node_addr id value (find_cache s node_addr)

-- `cap_command_t`
pub record CapCommand : Type 0 where
  pub node_addr : ℕ
  pub endpoint_id : ℕ
  pub cap_id : CapId
  pub cmd_type : ℕ
  pub value : List ℕ
  pub corr_id : ℕ

-- The bytes of a command, with the padding behind the endpoint.
abbrev pub command_bytes : Env → CapCommand → List ℕ
command_bytes e cmd =
    le_bytes 8 cmd.node_addr
    ++ (cmd.endpoint_id ∷ pad_bytes e 9 3)
    ++ le_bytes 4 (cap_number cmd.cap_id)
    ++ le_bytes 4 cmd.cmd_type
    ++ cmd.value
    ++ le_bytes 4 cmd.corr_id

-- The cluster of a capability, 0 where there is none.
unfoldable pub cluster_of : CapId → List ClusterCap → ℕ
cluster_of id [] = 0
cluster_of id (m ∷ ms) =
    let rest = cluster_of id ms in
    if cap_number m.cap_id == cap_number id then m.cluster_id else rest

-- `cap_execute_command`
unfoldable pub execute_command : Env → Service → Bus → Option CapCommand → Err × Bus
execute_command e s b none = (invalid_arg, b)
execute_command e s b (some cmd) =
    if not s.initialized
    then (invalid_arg, b)
    else if cluster_of cmd.cap_id cluster_map == 0
    then (not_found, b)
    else (ok, (emit e b event_cap_command (command_bytes e cmd)).1)
