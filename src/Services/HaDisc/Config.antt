-- ===== src/Services/HaDisc/Config.antt =====
-- services/ha_disc/ha_disc.c: `ha_disc_generate_config` and `ha_disc_component_name`.
use esp32_c6_gateway_os.Base.{
  ℕ, List, Bool, [], some, none, false, codes, if◌then◌else◌, Option, ◌==◌, snprintf, not, ◌||◌,
  ◌++◌, take, c_string,
}
use esp32_c6_gateway_os.Services.Capability.Info.{CapInfo, get_info}
use esp32_c6_gateway_os.Services.Registry.Types.{Node, Limits}
use esp32_c6_gateway_os.Services.HaDisc.State.{World}
use esp32_c6_gateway_os.Services.HaDisc.Messages.{device_id, dots_replaced, filled, bridge_topic}
use esp32_c6_gateway_os.Services.HaDisc.Ops.{node_of}
use esp32_c6_gateway_os.Os.Types.{Err, ok, invalid_arg}
use esp32_c6_gateway_os.Adapters.Mqtt.Ops.{eui64}

-- `ha_component_t`
pub data Component : Type 0 where
  light switch sensor binary_sensor : Component

-- `component_names`
unfoldable pub component_name : Component → List ℕ
component_name light = codes "light"
component_name switch = codes "switch"
component_name sensor = codes "sensor"
component_name binary_sensor = codes "binary_sensor"

-- `ha_disc_config_t`
pub record DiscConfig : Type 0 where
  pub component : Component
  pub unique_id : List ℕ
  pub name : List ℕ
  pub state_topic : List ℕ
  pub command_topic : List ℕ
  pub availability_topic : List ℕ
  pub has_brightness : Bool
  pub brightness_state_topic : List ℕ
  pub brightness_command_topic : List ℕ

-- The component, by the number of the capability.
unfoldable pub component_for : ℕ → Component
component_for cap =
    if cap == 2 || cap == 3
    then light
    else if cap == 1
    then switch
    else if cap == 7 || cap == 8
    then binary_sensor
    else sensor

-- The name: the friendly one, or the model, or the address.
unfoldable pub config_name : ℕ → Option Node → List ℕ
config_name node_addr none = snprintf 32 (codes "Zigbee " ++ eui64 node_addr)
config_name node_addr (some n) =
    if filled n.friendly_name
    then take 31 (c_string n.friendly_name)
    else if filled n.model
    then take 31 (c_string n.model)
    else snprintf 32 (codes "Zigbee " ++ eui64 node_addr)

abbrev pub config_for : ℕ → ℕ → Option Node → CapInfo → DiscConfig
config_for node_addr cap node info = record {
  component = component_for cap;
  unique_id = dots_replaced (snprintf 64 (device_id node_addr ++ codes "_" ++ info.name));
  name = config_name node_addr node;
  state_topic = snprintf 128 (bridge_topic node_addr (info.name ++ codes "/state"));
  command_topic = snprintf 128 (bridge_topic node_addr (info.name ++ codes "/set"));
  availability_topic = take 31 (codes "bridge/status");
  has_brightness = false;
  brightness_state_topic = [];
  brightness_command_topic = [];
}

unfoldable pub config_of : ℕ → ℕ → Option Node → Option CapInfo → Err × Option DiscConfig
config_of node_addr cap found none = (invalid_arg, none)
config_of node_addr cap found (some info) = (ok, some (config_for node_addr cap found info))

-- `ha_disc_generate_config`, with room for the result.
unfoldable pub generate_config : Limits → World → ℕ → ℕ → Err × Option DiscConfig
generate_config l w node_addr cap =
    if not w.ha.initialized
    then (invalid_arg, none)
    else config_of node_addr cap (node_of l w node_addr) (get_info cap)
