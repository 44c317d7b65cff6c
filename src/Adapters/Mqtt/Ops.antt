-- ===== src/Adapters/Mqtt/Ops.antt =====
-- adapters/mqtt_adapter/mqtt_adapter.c (host): the functions of the adapter.
use esp32_c6_gateway_os.Base.{
  ℕ, List, Bool, [], ◌∷◌, some, none, true, false, Option, if◌then◌else◌, hex, snprintf, codes, not,
  ◌++◌, signed_decimal, decimal, ◌||◌, add32, ◌==◌, of_bytes, c_string, take, drop,
}
use esp32_c6_gateway_os.Adapters.Mqtt.State.{
  Adapter, Config, MqttState, MqttStats, connected, connecting, disconnected, error, default_config,
  zero_adapter, is_disconnected, is_connected,
}
use esp32_c6_gateway_os.Services.Capability.Types.{
  ValueType, bool, int, float, string, Floats, bool_of, word_of,
}
use esp32_c6_gateway_os.Os.Types.{Err, ok, invalid_arg, not_initialized, already_exists, busy, Env}
use esp32_c6_gateway_os.Os.Event.State.{Bus, Event, event_cap_state_changed}
use esp32_c6_gateway_os.Services.Capability.Info.{CapInfo, get_info}
use esp32_c6_gateway_os.Os.Event.Subscribe.{subscribe}

-- The number of `handle_cap_state_changed` as a handler of the bus.
abbrev pub mqtt_handler : ℕ
mqtt_handler = 40

abbrev pub config_or_default : Option Config → Config
config_or_default none = default_config
config_or_default (some c) = c

-- `mqtt_init`: what is published before a `memset` of the state stays published.
unfoldable pub init : Adapter → Bus → Option Config → Err × Adapter × Bus
init a b config =
    let z : Adapter = zero_adapter in
    let s =
      subscribe b
        (some (record { type_min = event_cap_state_changed; type_max = event_cap_state_changed }))
        mqtt_handler 0 in
    if a.initialized then (already_exists, a, b) else (
      ok,
      record z { initialized = true; config = config_or_default config; sent = a.sent },
      s.1,
    )

-- `mqtt_publish`
unfoldable pub publish : Adapter → List ℕ → List ℕ → Err × Adapter
publish a topic payload =
    let stats : MqttStats = a.stats in
    if not a.initialized
    then (not_initialized, a)
    else if not (is_connected a.state)
    then (busy, a)
    else (
      ok,
      record a {
        stats = record stats { messages_published = add32 stats.messages_published 1 };
        sent = a.sent ++ (record { topic = topic; payload = payload } ∷ []);
      },
    )

abbrev pub max_topic_len : ℕ
max_topic_len = 128

abbrev pub max_payload_len : ℕ
max_payload_len = 256

-- `OS_EUI64_FMT`
abbrev pub eui64 : ℕ → List ℕ
eui64 node_addr = hex 16 node_addr

abbrev pub status_payload : Bool → List ℕ
status_payload online =
    snprintf 64
      (codes "{\"v\":\"" ++ (if online then codes "online" else codes "offline") ++ codes "\"}")

-- `mqtt_publish_status`
unfoldable pub publish_status : Adapter → Bool → Err × Adapter
publish_status a online =
    if not a.initialized
    then (not_initialized, a)
    else publish a (snprintf max_topic_len (codes "bridge/status")) (status_payload online)

-- `mqtt_connect`
unfoldable pub connect : Adapter → Err × Adapter
connect a =
    if not a.initialized
    then (not_initialized, a)
    else if is_connected a.state
    then (ok, a)
    else (ok, (publish_status (record a { state = connected }) true).1)

-- `mqtt_disconnect`
unfoldable pub disconnect : Adapter → Err × Adapter
disconnect a =
    let a' : Adapter = (publish_status a false).1 in
    if not a.initialized then (not_initialized, a) else (ok, record a' { state = disconnected })

abbrev pub state_topic : ℕ → List ℕ → List ℕ
state_topic node_addr name =
    snprintf max_topic_len
      (codes "bridge/" ++ eui64 node_addr ++ codes "/" ++ name ++ codes "/state")

-- The value in the payload, by the type of the capability.
unfoldable pub value_text : Floats → ValueType → List ℕ → List ℕ
value_text fl bool value = if bool_of value then codes "true" else codes "false"
value_text fl int value = signed_decimal (word_of value)
value_text fl float value = fl.two_places (word_of value)
value_text fl string value = codes "\"" ++ c_string value ++ codes "\""

abbrev pub state_payload : Floats → ℕ → ValueType → List ℕ → List ℕ
state_payload fl now type value =
    snprintf max_payload_len
      (codes "{\"v\":" ++ value_text fl type value ++ codes ",\"ts\":" ++ decimal now ++ codes "}")

unfoldable pub publish_info : Floats → Env → Adapter → ℕ → Option CapInfo → List ℕ → Err × Adapter
publish_info fl e a node_addr none value = (invalid_arg, a)
publish_info fl e a node_addr (some info) value =
    publish a (state_topic node_addr info.name) (state_payload fl e.now info.type value)

-- `mqtt_publish_state`, on the number of a capability.
unfoldable pub publish_state : Floats → Env → Adapter → ℕ → ℕ → List ℕ → Err × Adapter
publish_state fl e a node_addr cap_id value =
    if not a.initialized || not (is_connected a.state)
    then (not_initialized, a)
    else publish_info fl e a node_addr (get_info cap_id) value

abbrev pub or_empty : Option (List ℕ) → List ℕ
or_empty none = []
or_empty (some s) = s

-- `mqtt_publish_meta`
unfoldable pub publish_meta : Adapter → ℕ → Option (List ℕ) → Option (List ℕ) → Err × Adapter
publish_meta a node_addr manufacturer model =
    if not a.initialized || not (is_connected a.state)
    then (not_initialized, a)
    else publish a (snprintf max_topic_len (codes "bridge/" ++ eui64 node_addr ++ codes "/meta")) (
        snprintf max_payload_len (
          codes "{\"ieee\":\""
          ++ eui64 node_addr
          ++ codes "\",\"manufacturer\":\""
          ++ or_empty manufacturer
          ++ codes "\",\"model\":\""
          ++ or_empty model
          ++ codes "\"}"))

-- `mqtt_subscribe_commands`: on the host the subscription is a line of the log.
unfoldable pub subscribe_commands : Adapter → Err
subscribe_commands a =
    if not a.initialized || not (is_connected a.state) then not_initialized else ok

-- `mqtt_get_stats`, with room for the result.
unfoldable pub get_stats : Adapter → Err × Option MqttStats
get_stats a = if not a.initialized then (invalid_arg, none) else (ok, some a.stats)

-- `mqtt_task` before its loop, and one round of the loop.
unfoldable pub task_start : Adapter → Adapter
task_start a = (connect a).1

unfoldable pub task_round : Adapter → Adapter
task_round a =
    let stats : MqttStats = a.stats in
    if is_disconnected a.state
    then (connect (record a { stats = record stats { reconnects = add32 stats.reconnects 1 } })).1
    else a

-- `state_names`
unfoldable pub state_name : MqttState → List ℕ
state_name disconnected = codes "DISCONNECTED"
state_name connecting = codes "CONNECTING"
state_name connected = codes "CONNECTED"
state_name error = codes "ERROR"

-- `handle_cap_state_changed`: the fields of the struct in the payload. The struct is longer than the
-- payload; the value is what of it the payload has.
unfoldable pub handle_cap_state_changed : Floats → Env → Adapter → Event → Adapter
handle_cap_state_changed fl e a event =
    if not (event.type == event_cap_state_changed)
    then a
    else (publish_state fl e a (of_bytes (take 8 event.payload))
        (of_bytes (take 4 (drop 8 event.payload))) (drop 12 event.payload)).1
