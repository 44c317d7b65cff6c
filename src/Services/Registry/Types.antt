-- ===== src/Services/Registry/Types.antt =====
-- services/include/reg_types.h: nodes, endpoints, clusters and attributes, and the static state of
-- services/src/registry.c. The sizes of the arrays differ between the host and the ESP32, so they
-- are a value of `Limits`; strings and values are the bytes of their arrays.
use esp32_c6_gateway_os.Base.{ℕ, Bool, false, List, replicate, has, ◌==◌}

pub record Limits : Type 0 where
  pub max_nodes : ℕ
  pub max_endpoints : ℕ
  pub max_clusters : ℕ
  pub max_attributes : ℕ

abbrev pub host_limits : Limits
host_limits = record { max_nodes = 32; max_endpoints = 8; max_clusters = 16; max_attributes = 32 }

abbrev pub esp_limits : Limits
esp_limits = record { max_nodes = 8; max_endpoints = 4; max_clusters = 8; max_attributes = 8 }

-- `reg_state_t`
pub data NodeState : Type 0 where
  new announced interviewing ready offline failed stale left : NodeState

-- The number of a state in its enumeration, and `==` on states.
abbrev pub state_number : NodeState → ℕ
state_number new = 0
state_number announced = 1
state_number interviewing = 2
state_number ready = 3
state_number offline = 4
state_number failed = 5
state_number stale = 6
state_number left = 7

abbrev pub state_eq : NodeState → NodeState → Bool
state_eq s t = state_number s == state_number t

-- `reg_cluster_dir_t`
pub data ClusterDir : Type 0 where
  server client : ClusterDir

-- `reg_power_source_t`
pub data PowerSource : Type 0 where
  unknown mains battery dc : PowerSource

-- `reg_attr_type_t`
pub data AttrType : Type 0 where
  unknown bool u8 u16 u32 s8 s16 s32 string array : AttrType

-- `reg_attribute_t`; the union `reg_attr_value_t` is its 32 bytes.
pub record Attribute : Type 0 where
  pub attr_id : ℕ
  pub type : AttrType
  pub value : List ℕ
  pub last_updated : ℕ
  pub valid : Bool

-- `reg_cluster_t`
pub record Cluster : Type 0 where
  pub cluster_id : ℕ
  pub direction : ClusterDir
  pub attributes : List Attribute
  pub attr_count : ℕ
  pub valid : Bool

-- `reg_endpoint_t`
pub record Endpoint : Type 0 where
  pub endpoint_id : ℕ
  pub profile_id : ℕ
  pub device_id : ℕ
  pub clusters : List Cluster
  pub cluster_count : ℕ
  pub valid : Bool

-- `reg_node_t`
pub record Node : Type 0 where
  pub ieee_addr : ℕ
  pub nwk_addr : ℕ
  pub state : NodeState
  pub manufacturer : List ℕ
  pub model : List ℕ
  pub friendly_name : List ℕ
  pub sw_build : ℕ
  pub lqi : ℕ
  pub rssi : ℕ
  pub power_source : PowerSource
  pub endpoints : List Endpoint
  pub endpoint_count : ℕ
  pub join_time : ℕ
  pub last_seen : ℕ
  pub interview_stage : ℕ
  pub valid : Bool

pub record Registry : Type 0 where
  pub initialized : Bool
  pub nodes : List Node
  pub node_count : ℕ

-- Zeroed memory, which `memset` makes.
unfoldable pub zero_chars : List ℕ
zero_chars = replicate 32 0

abbrev pub zero_attribute : Attribute
zero_attribute = record {
  attr_id = 0;
  type = AttrType.unknown;
  value = zero_chars;
  last_updated = 0;
  valid = false;
}

module _ (l : Limits) where
  abbrev pub zero_cluster : Cluster
  zero_cluster = record {
    cluster_id = 0;
    direction = server;
    attributes = replicate l.max_attributes zero_attribute;
    attr_count = 0;
    valid = false;
  }

  abbrev pub zero_endpoint : Endpoint
  zero_endpoint = record {
    endpoint_id = 0;
    profile_id = 0;
    device_id = 0;
    clusters = replicate l.max_clusters zero_cluster;
    cluster_count = 0;
    valid = false;
  }

  abbrev pub zero_node : Node
  zero_node = record {
    ieee_addr = 0;
    nwk_addr = 0;
    state = new;
    manufacturer = zero_chars;
    model = zero_chars;
    friendly_name = zero_chars;
    sw_build = 0;
    lqi = 0;
    rssi = 0;
    power_source = PowerSource.unknown;
    endpoints = replicate l.max_endpoints zero_endpoint;
    endpoint_count = 0;
    join_time = 0;
    last_seen = 0;
    interview_stage = 0;
    valid = false;
  }

  abbrev pub zero_registry : Registry
  zero_registry = record {
    initialized = false;
    nodes = replicate l.max_nodes zero_node;
    node_count = 0;
  }

-- What a slot of each array is searched by.
abbrev pub node_valid : Node → Bool
node_valid n = n.valid

abbrev pub is_node : ℕ → Node → Bool
is_node = has node_valid (λ n. n.ieee_addr)

abbrev pub endpoint_valid : Endpoint → Bool
endpoint_valid e = e.valid

abbrev pub is_endpoint : ℕ → Endpoint → Bool
is_endpoint = has endpoint_valid (λ e. e.endpoint_id)

abbrev pub cluster_valid : Cluster → Bool
cluster_valid c = c.valid

abbrev pub is_cluster : ℕ → Cluster → Bool
is_cluster = has cluster_valid (λ c. c.cluster_id)

abbrev pub attribute_valid : Attribute → Bool
attribute_valid a = a.valid

abbrev pub is_attribute : ℕ → Attribute → Bool
is_attribute = has attribute_valid (λ a. a.attr_id)
