-- ===== src/Services/HaDisc/Messages.antt =====
-- services/ha_disc/ha_disc.c: the topics and the payloads of the discovery messages.
use esp32_c6_gateway_os.Base.{
  ℕ, List, Bool, [], ◌∷◌, some, none, codes, ◌++◌, snprintf, if◌then◌else◌, take, not, Option, ◌==◌,
  get_or, c_string,
}
use esp32_c6_gateway_os.Services.Capability.Types.{
  CapId, unknown, switch_on, light_on, light_level, light_color_temp, sensor_temperature,
  sensor_humidity, sensor_contact, sensor_motion, sensor_illuminance, power_watts, energy_kwh,
}
use esp32_c6_gateway_os.Services.Capability.Info.{CapInfo}
use esp32_c6_gateway_os.Services.Registry.Types.{Node}
use esp32_c6_gateway_os.Adapters.Mqtt.Ops.{eui64}
use esp32_c6_gateway_os.Services.HaDisc.Escape.{json_escape_string}

abbrev pub bridge_id : List ℕ
bridge_id = codes "zigbee_bridge"

-- The bridge's name for a device, and the names of its entities.
abbrev pub device_id : ℕ → List ℕ
device_id node_addr = bridge_id ++ codes "_" ++ eui64 node_addr

-- `homeassistant/<component>/<bridge>_<device>_<name>/config`, in an array of 256 bytes.
abbrev pub config_topic : List ℕ → ℕ → List ℕ → List ℕ
config_topic component node_addr name = snprintf 256 (
    codes "homeassistant/"
    ++ component
    ++ codes "/"
    ++ device_id node_addr
    ++ codes "_"
    ++ name
    ++ codes "/config")

abbrev pub light_topic : ℕ → List ℕ
light_topic node_addr = config_topic (codes "light") node_addr (codes "light")

-- Each dot becomes an underscore, in a copy of at most 31 bytes.
unfoldable pub dots_replaced : List ℕ → List ℕ
dots_replaced [] = []
dots_replaced (c ∷ cs) = (if c == 46 then 95 else c) ∷ dots_replaced cs

abbrev pub sanitized : List ℕ → List ℕ
sanitized name = dots_replaced (take 31 name)

-- The texts of a node that is found, and what stands for them.
abbrev pub filled : List ℕ → Bool
filled chars = not (get_or chars 0 0 == 0)

unfoldable pub name_raw : Option Node → List ℕ → List ℕ
name_raw none default = default
name_raw (some n) default =
    if filled n.friendly_name
    then c_string n.friendly_name
    else if filled n.model
    then c_string n.model
    else default

unfoldable pub manufacturer_raw : Option Node → List ℕ
manufacturer_raw none = []
manufacturer_raw (some n) = if filled n.manufacturer then c_string n.manufacturer else []

unfoldable pub model_raw : Option Node → List ℕ
model_raw none = []
model_raw (some n) = if filled n.model then c_string n.model else []

abbrev pub name_escaped : Option Node → List ℕ → List ℕ
name_escaped node default = json_escape_string 64 (name_raw node default)

-- A key, and a value between quotes.
abbrev pub quoted : List ℕ → List ℕ
quoted text = codes "\"" ++ text ++ codes "\""

abbrev pub field : List ℕ → List ℕ → List ℕ
field key value = quoted key ++ codes ":" ++ quoted value ++ codes ","

abbrev pub device_part : ℕ → Option Node → List ℕ → List ℕ
device_part node_addr node name =
    codes "\"device\":{\"identifiers\":["
    ++ quoted (device_id node_addr)
    ++ codes "],"
    ++ field (codes "name") name
    ++ field (codes "manufacturer") (json_escape_string 64 (manufacturer_raw node))
    ++ codes "\"model\":"
    ++ quoted (json_escape_string 64 (model_raw node))
    ++ codes "}}"

abbrev pub bridge_topic : ℕ → List ℕ → List ℕ
bridge_topic node_addr rest = codes "bridge/" ++ eui64 node_addr ++ codes "/" ++ rest

abbrev pub availability_part : List ℕ
availability_part =
    field (codes "availability_topic") (codes "bridge/status")
    ++ field (codes "payload_available") (codes "online")
    ++ field (codes "payload_not_available") (codes "offline")

abbrev pub brightness_part : ℕ → List ℕ
brightness_part node_addr =
    field (codes "brightness_state_topic") (bridge_topic node_addr (codes "light.level/state"))
    ++ field (codes "brightness_command_topic") (bridge_topic node_addr (codes "light.level/set"))
    ++ field (codes "brightness_value_template") (codes "{{ (value_json.v | float * 2.55) | int }}")
    ++ codes "\"brightness_scale\":255,"

-- The payload of `publish_light_discovery`, in an array of 1024 bytes.
unfoldable pub light_payload : ℕ → Option Node → Bool → List ℕ
light_payload node_addr node has_level =
    let name : List ℕ = name_escaped node (codes "Zigbee Light") in
    snprintf 1024 (
      codes "{"
      ++ field (codes "name") name
      ++ field (codes "unique_id") (device_id node_addr ++ codes "_light")
      ++ availability_part
      ++ field (codes "state_topic") (bridge_topic node_addr (codes "light.on/state"))
      ++ field (codes "command_topic") (bridge_topic node_addr (codes "light.on/set"))
      ++ field (codes "value_template") (codes "{{ value_json.v }}")
      ++ field (codes "state_value_template") (codes "{{ 'ON' if value_json.v else 'OFF' }}")
      ++ field (codes "payload_on") (codes "{\\\"v\\\":true}")
      ++ field (codes "payload_off") (codes "{\\\"v\\\":false}")
      ++ (if has_level then brightness_part node_addr else [])
      ++ device_part node_addr node name)

-- The `switch` of `publish_sensor_discovery`: the component and the device class.
unfoldable pub component_of : CapId → List ℕ × List ℕ
component_of sensor_temperature = (codes "sensor", codes "temperature")
component_of sensor_humidity = (codes "sensor", codes "humidity")
component_of sensor_contact = (codes "binary_sensor", codes "door")
component_of sensor_motion = (codes "binary_sensor", codes "motion")
component_of unknown = (codes "sensor", [])
component_of switch_on = (codes "sensor", [])
component_of light_on = (codes "sensor", [])
component_of light_level = (codes "sensor", [])
component_of light_color_temp = (codes "sensor", [])
component_of sensor_illuminance = (codes "sensor", [])
component_of power_watts = (codes "sensor", [])
component_of energy_kwh = (codes "sensor", [])

abbrev pub sensor_topic : ℕ → CapId → CapInfo → List ℕ
sensor_topic node_addr id info = config_topic (component_of id).0 node_addr (sanitized info.name)

-- The payload of `publish_sensor_discovery`.
unfoldable pub sensor_payload : ℕ → Option Node → CapId → CapInfo → List ℕ
sensor_payload node_addr node id info =
    let name : List ℕ = name_escaped node (codes "Zigbee Sensor") in
    snprintf 1024 (
      codes "{"
      ++ field (codes "name") (name ++ codes " " ++ info.name)
      ++ field (codes "unique_id") (device_id node_addr ++ codes "_" ++ sanitized info.name)
      ++ field (codes "device_class") (component_of id).1
      ++ field (codes "state_topic") (bridge_topic node_addr (info.name ++ codes "/state"))
      ++ field (codes "value_template") (codes "{{ value_json.v }}")
      ++ field (codes "unit_of_measurement") (json_escape_string 16 info.unit)
      ++ availability_part
      ++ device_part node_addr node name)
