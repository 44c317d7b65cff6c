-- ===== src/Services/Registry/Tests.antt =====
-- The device registry on concrete input: runs of services/src/registry.c, and the theorems there.
use esp32_c6_gateway_os.Os.Types.{Env, not_found, ok}
use esp32_c6_gateway_os.Os.Event.State.{zero_bus, event_zb_device_left}
use esp32_c6_gateway_os.Services.Registry.Types.{
  Limits, Registry, esp_limits, zero_registry, server,
}
use esp32_c6_gateway_os.Services.Registry.Nodes.{
  init, add_node, remove_node, find_node, add_or_update, insert_node,
}
use esp32_c6_gateway_os.Services.Registry.Valid.{Fits, IsValid, init-IsValid, zero_registry-IsValid}
use esp32_c6_gateway_os.Services.Registry.Directory.{directory, Added}
use esp32_c6_gateway_os.Services.Registry.Outcome.{
  Announced, add_node-directory, remove_node-directory,
}
use esp32_c6_gateway_os.Services.Registry.Run.{
  inits, adds, adds_endpoint, adds_cluster, reg_calls, reg_calls-IsValid,
}
use esp32_c6_gateway_os.Base.{
  List, length-append, length-replicate, replicate, ◌++◌, if◌then◌else◌, bytes_eq, true, arith, ◌∷◌,
  ◌≡◌, some, none, [], ◌⊎◌, ℕ, refl, ◌≢◌, find_index, ◌+◌, le_bytes,
}
use esp32_c6_gateway_os.Os.Persist.Memory.{
  memory, memory-IsFaithful, memory-Accepts, empty_store-IsValid, empty_store,
}
use esp32_c6_gateway_os.Os.Persist.View.{view}
use esp32_c6_gateway_os.Os.Persist.View
use esp32_c6_gateway_os.Services.Registry.Storage.{reg_persist, reg_restore, count_key}
use esp32_c6_gateway_os.Services.Registry.Unsaved.{reg_persist_unsaved, HoldsValues}
use esp32_c6_gateway_os.Services.Registry.Types.{Node}
use esp32_c6_gateway_os.Services.Registry.Keep.{add_node-IsValid}
use esp32_c6_gateway_os.Os.Event.Publish.{emit}

abbrev env : Env
env = record { now = 7; padding = λ i. 0 }

-- Two nodes at most.
abbrev small : Limits
small = record { max_nodes = 2; max_endpoints = 2; max_clusters = 2; max_attributes = 2 }

abbrev started : Registry
started = let z : Registry = zero_registry small in record z { initialized = true }

started-IsValid : IsValid small started
unfolding init
started-IsValid = init-IsValid small (zero_registry small) (zero_registry-IsValid small)

esp_limits-Fits : Fits esp_limits
esp_limits-Fits = omega arith

reg_calls-IsValid_example :
    IsValid esp_limits
      (reg_calls esp_limits
        (zero_registry esp_limits, zero_bus)
        (inits
          ∷ adds env 17 3
          ∷ adds_endpoint (some 0) 1 260 256
          ∷ adds_cluster (some (0, 0)) 6 server
          ∷ [])).0
reg_calls-IsValid_example = reg_calls-IsValid esp_limits esp_limits-Fits zero_bus _

add_node-directory_example :
    let (p, r', b') = add_node small env started zero_bus 17 3 in
    ((p ≡ none)
      × (find_node started 17 ≡ none)
      × (started.node_count ≡ 2)
      × (r' ≡ started)
      × (b' ≡ zero_bus))
    ⊎ ((i : ℕ) × (p ≡ some i)
        × Added small env started started-IsValid refl zero_bus 17 3 i r'
        × Announced small env started started-IsValid refl zero_bus 17 3 b')
add_node-directory_example = add_node-directory small env started started-IsValid refl zero_bus 17 3

abbrev with_device : Registry
with_device = (add_node small env started zero_bus 17 3).1

with_device-IsValid : IsValid small with_device
with_device-IsValid = add_node-IsValid small started started-IsValid (omega arith) env zero_bus 17 3

with_device_on : with_device.initialized ≡ true
unfolding add_node add_or_update insert_node find_node find_index
with_device_on = refl

with_device_entry : directory small with_device.nodes 17 ≡ some 3
unfolding add_node add_or_update insert_node find_node find_index directory
with_device_entry = refl

remove_node-directory_example :
    let (err, r', b') = remove_node small env with_device zero_bus 17 in
    ((find_node with_device 17 ≡ none) × (err ≡ not_found) × (r' ≡ with_device) × (b' ≡ zero_bus))
    ⊎ ((find_node with_device 17 ≢ none)
        × (err ≡ ok)
        × (find_node r' 17 ≡ none)
        × ((a : ℕ) → 17 ≢ a → directory small r'.nodes a ≡ directory small with_device.nodes a)
        × (r'.node_count + 1 ≡ with_device.node_count)
        × (b' ≡ (emit env zero_bus event_zb_device_left (le_bytes 8 17)).1))
remove_node-directory_example =
    remove_node-directory small env with_device with_device-IsValid with_device_on zero_bus 17
      (omega arith)

-- Nodes on the ESP32, as far as an image goes that holds the values and the address.
abbrev image : Node → List ℕ
image n = replicate 8192 0 ++ le_bytes 8 n.ieee_addr

image-HoldsValues : HoldsValues esp_limits image
image-HoldsValues n = omega (
  arith,
  length-append (replicate 8192 0) (le_bytes 8 n.ieee_addr),
  length-replicate {A = ℕ} 8192 0,
)

abbrev joined : Registry
joined =
    let z : Registry = zero_registry esp_limits in
    (add_node esp_limits env (record z { initialized = true }) zero_bus 17 3).1

joined_on : joined.initialized ≡ true
unfolding add_node add_or_update insert_node find_node find_index
joined_on = refl

reg_persist_unsaved_example :
    let (err, s') = reg_persist memory env image joined empty_store in
    (err ≡ ok)
    × ((reg_restore memory joined s').0 ≡ ok)
    × ((key : List ℕ)
        → view memory s' key
          ≡ (if bytes_eq count_key key then some (le_bytes 4 0) else view memory empty_store key))
    × View.IsValid s'.svc
    × (s'.svc.initialized ≡ true)
reg_persist_unsaved_example =
    reg_persist_unsaved memory env esp_limits image image-HoldsValues (omega arith)
      memory-IsFaithful memory-Accepts joined empty_store joined_on empty_store-IsValid refl
