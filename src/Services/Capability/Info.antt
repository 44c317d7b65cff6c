-- ===== src/Services/Capability/Info.antt =====
-- services/src/capability.c: the names and units of the capabilities.
use esp32_c6_gateway_os.Base.{
  ℕ, List, [], ◌∷◌, some, none, codes, Option, find_index, if◌then◌else◌, bytes_eq, ◌≡◌, ltb, take,
  refl, get_or,
}
use esp32_c6_gateway_os.Services.Capability.Types.{
  CapId, ValueType, info_type, cap_number, unknown, switch_on, light_on, light_level,
  light_color_temp, sensor_temperature, sensor_humidity, sensor_contact, sensor_motion,
  sensor_illuminance, power_watts, energy_kwh,
}
use Prim.Native.String.{String}

-- `cap_info_t`
pub record CapInfo : Type 0 where
  pub id : CapId
  pub name : List ℕ
  pub type : ValueType
  pub unit : List ℕ

abbrev pub info : CapId → String → String → CapInfo
info id name unit = record { id = id; name = codes name; type = info_type id; unit = codes unit }

-- The unit of a temperature is the sign of a degree, two bytes in UTF-8, and a C.
abbrev pub degrees : List ℕ
degrees = 194 ∷ 176 ∷ 67 ∷ []

-- `cap_info_table`
unfoldable pub cap_info_table : List CapInfo
cap_info_table =
    info unknown "unknown" ""
    ∷ info switch_on "switch.on" ""
    ∷ info light_on "light.on" ""
    ∷ info light_level "light.level" "%"
    ∷ info light_color_temp "light.color_temp" "mireds"
    ∷ record (info sensor_temperature "sensor.temperature" "") { unit = degrees }
    ∷ info sensor_humidity "sensor.humidity" "%"
    ∷ info sensor_contact "sensor.contact" ""
    ∷ info sensor_motion "sensor.motion" ""
    ∷ info sensor_illuminance "sensor.illuminance" "lux"
    ∷ info power_watts "power.watts" "W"
    ∷ info energy_kwh "energy.kwh" "kWh"
    ∷ []

-- `CAP_MAX`
abbrev pub cap_max : ℕ
cap_max = 12

abbrev pub zero_info : CapInfo
zero_info = record { id = unknown; name = []; type = info_type unknown; unit = [] }

-- `cap_get_info`, on the number of a capability.
unfoldable pub get_info : ℕ → Option CapInfo
get_info id = if ltb id cap_max then some (get_or cap_info_table id zero_info) else none

unfoldable pub id_or_unknown : Option ℕ → ℕ
id_or_unknown none = 0
id_or_unknown (some i) = i

-- `cap_parse_name`: the number of the capability.
unfoldable pub parse_name : Option (List ℕ) → ℕ
parse_name none = 0
parse_name (some name) =
    id_or_unknown (find_index (λ c. bytes_eq name c.name) (take cap_max cap_info_table))

-- The name of each capability, parsed, gives it back.
parse_name-get_info :
    (id : CapId)
    → (c : CapInfo) × (get_info (cap_number id) ≡ some c)
      × (c.id ≡ id)
      × (parse_name (some c.name) ≡ cap_number id)
unfolding get_info parse_name cap_info_table find_index cap_number id_or_unknown
parse_name-get_info unknown = (_, refl, refl, refl)
parse_name-get_info switch_on = (_, refl, refl, refl)
parse_name-get_info light_on = (_, refl, refl, refl)
parse_name-get_info light_level = (_, refl, refl, refl)
parse_name-get_info light_color_temp = (_, refl, refl, refl)
parse_name-get_info sensor_temperature = (_, refl, refl, refl)
parse_name-get_info sensor_humidity = (_, refl, refl, refl)
parse_name-get_info sensor_contact = (_, refl, refl, refl)
parse_name-get_info sensor_motion = (_, refl, refl, refl)
parse_name-get_info sensor_illuminance = (_, refl, refl, refl)
parse_name-get_info power_watts = (_, refl, refl, refl)
parse_name-get_info energy_kwh = (_, refl, refl, refl)
