-- ===== src/Services/Capability/Types.antt =====
-- services/include/capability.h and services/src/capability.c: capabilities, their tables and the cache.
use esp32_c6_gateway_os.Base.{
  ℕ, List, [], ◌∷◌, Bool, replicate, false, of_bytes, take, le_bytes, drop, ◌++◌, not, get_or, ◌==◌,
  set, one_if,
}

-- `cap_id_t`
pub data CapId : Type 0 where
  unknown switch_on light_on light_level light_color_temp : CapId
  sensor_temperature sensor_humidity sensor_contact sensor_motion sensor_illuminance : CapId
  power_watts energy_kwh : CapId

-- `cap_value_type_t`
pub data ValueType : Type 0 where
  bool int float string : ValueType

-- The types of `cap_info_table`.
abbrev pub info_type : CapId → ValueType
info_type unknown = int
info_type switch_on = bool
info_type light_on = bool
info_type light_level = int
info_type light_color_temp = int
info_type sensor_temperature = float
info_type sensor_humidity = float
info_type sensor_contact = bool
info_type sensor_motion = bool
info_type sensor_illuminance = int
info_type power_watts = float
info_type energy_kwh = float

-- `cluster_cap_map_t`
pub record ClusterCap : Type 0 where
  pub cluster_id : ℕ
  pub attr_id : ℕ
  pub cap_id : CapId

abbrev pub maps : ℕ → ℕ → CapId → ClusterCap
maps cluster_id attr_id cap_id = record {
  cluster_id = cluster_id;
  attr_id = attr_id;
  cap_id = cap_id;
}

-- `cluster_map`: on/off, level, colour, temperature and humidity.
abbrev pub cluster_map : List ClusterCap
cluster_map =
    maps 6 0 light_on
    ∷ maps 8 0 light_level
    ∷ maps 768 7 light_color_temp
    ∷ maps 1026 0 sensor_temperature
    ∷ maps 1029 0 sensor_humidity
    ∷ []

abbrev pub max_node_caps : ℕ
max_node_caps = 8

abbrev pub max_cap_cache : ℕ
max_cap_cache = 32

-- `cap_state_t`; the union `cap_value_t` is its 32 bytes.
pub record CapState : Type 0 where
  pub id : CapId
  pub type : ValueType
  pub value : List ℕ
  pub timestamp : ℕ
  pub valid : Bool

-- `node_cap_cache_t`
pub record NodeCaps : Type 0 where
  pub node_addr : ℕ
  pub caps : List CapState
  pub cap_count : ℕ
  pub valid : Bool

pub record Service : Type 0 where
  pub initialized : Bool
  pub cache : List NodeCaps

unfoldable pub zero_value : List ℕ
zero_value = replicate 32 0

abbrev pub zero_cap : CapState
zero_cap = record { id = unknown; type = bool; value = zero_value; timestamp = 0; valid = false }

abbrev pub zero_node_caps : NodeCaps
zero_node_caps = record {
  node_addr = 0;
  caps = replicate max_node_caps zero_cap;
  cap_count = 0;
  valid = false;
}

unfoldable pub zero_cache : List NodeCaps
zero_cache = replicate max_cap_cache zero_node_caps

abbrev pub zero_service : Service
zero_service = record { initialized = false; cache = zero_cache }

-- The number of a `cap_id_t`, by which C compares it.
unfoldable pub cap_number : CapId → ℕ
cap_number unknown = 0
cap_number switch_on = 1
cap_number light_on = 2
cap_number light_level = 3
cap_number light_color_temp = 4
cap_number sensor_temperature = 5
cap_number sensor_humidity = 6
cap_number sensor_contact = 7
cap_number sensor_motion = 8
cap_number sensor_illuminance = 9
cap_number power_watts = 10
cap_number energy_kwh = 11

-- The members of the union `cap_value_t` that share its first bytes: `i`, `f` (its bits) and `b`.
abbrev pub word_of : List ℕ → ℕ
word_of v = of_bytes (take 4 v)

abbrev pub with_word : List ℕ → ℕ → List ℕ
with_word v n = le_bytes 4 n ++ drop 4 v

abbrev pub bool_of : List ℕ → Bool
bool_of v = not (get_or v 0 0 == 0)

abbrev pub with_bool : List ℕ → Bool → List ℕ
with_bool v b = set v 0 (one_if b)

-- The routines of the compiler's library for `float`, on the bits of their arguments: the ESP32
-- has no instructions for them. `exceeds a b` is `a > b`,
-- and `two_places` the text of `%.2f`.
pub record Floats : Type 0 where
  pub of_int : ℕ → ℕ
  pub to_int : ℕ → ℕ
  pub add : ℕ → ℕ → ℕ
  pub sub : ℕ → ℕ → ℕ
  pub mul : ℕ → ℕ → ℕ
  pub div : ℕ → ℕ → ℕ
  pub abs : ℕ → ℕ
  pub exceeds : ℕ → ℕ → Bool
  pub two_places : ℕ → List ℕ
