-- ===== src/Adapters/Mqtt/State.antt =====
-- adapters/mqtt_adapter/mqtt_adapter.h and mqtt_adapter.c: the state of the adapter. On the host a
-- message that is published is a line of the log: `sent` is these lines, oldest first.
use esp32_c6_gateway_os.Base.{ℕ, List, Bool, [], some, none, true, false, Option, codes}

-- `mqtt_state_t`
pub data MqttState : Type 0 where
  disconnected connecting connected error : MqttState

-- `mqtt_config_t`; a pointer that may be NULL is an option.
pub record Config : Type 0 where
  pub broker_uri : Option (List ℕ)
  pub client_id : Option (List ℕ)
  pub username : Option (List ℕ)
  pub password : Option (List ℕ)
  pub keepalive_sec : ℕ

-- `mqtt_stats_t`
pub record MqttStats : Type 0 where
  pub messages_published : ℕ
  pub messages_received : ℕ
  pub reconnects : ℕ
  pub errors : ℕ

pub record Message : Type 0 where
  pub topic : List ℕ
  pub payload : List ℕ

-- The static `adapter`, with the messages published.
pub record Adapter : Type 0 where
  pub initialized : Bool
  pub state : MqttState
  pub config : Config
  pub stats : MqttStats
  pub sent : List Message

abbrev pub zero_adapter : Adapter
zero_adapter = record {
  initialized = false;
  state = disconnected;
  config = record {
    broker_uri = none;
    client_id = none;
    username = none;
    password = none;
    keepalive_sec = 0;
  };
  stats = record { messages_published = 0; messages_received = 0; reconnects = 0; errors = 0 };
  sent = [];
}

abbrev pub default_config : Config
default_config = record {
  broker_uri = some (codes "mqtt://localhost:1883");
  client_id = some (codes "zigbee-bridge");
  username = none;
  password = none;
  keepalive_sec = 30;
}

abbrev pub is_connected : MqttState → Bool
is_connected disconnected = false
is_connected connecting = false
is_connected connected = true
is_connected error = false

abbrev pub is_disconnected : MqttState → Bool
is_disconnected disconnected = true
is_disconnected connecting = false
is_disconnected connected = false
is_disconnected error = false
