-- ===== src/Services/Capability/Compute.antt =====
-- services/src/capability.c: `cap_init`, the cache and `cap_compute_for_node`. A pointer to a cache
-- is its index; the node is the struct at the pointer, `none` where it is NULL.
use esp32_c6_gateway_os.Base.{
  ℕ, List, [], ◌∷◌, Bool, none, Option, if◌then◌else◌, find_index, get_or, set, some, ◌==◌, ltb,
  has, true, vacant, not, false, add8, ◌||◌,
}
use esp32_c6_gateway_os.Services.Capability.Types.{
  NodeCaps, ClusterCap, CapId, Service, CapState, info_type, cluster_map, zero_node_caps,
  zero_value, max_node_caps, zero_service,
}
use esp32_c6_gateway_os.Services.Registry.Types.{Node, Cluster, Endpoint}
use esp32_c6_gateway_os.Os.Types.{Err, already_exists, ok}

-- `cap_init`
unfoldable pub init : Service → Err × Service
init s =
    if s.initialized then (already_exists, s) else (ok, record zero_service { initialized = true })

abbrev pub caps_valid : NodeCaps → Bool
caps_valid c = c.valid

-- `find_cache`
unfoldable pub find_cache : Service → ℕ → Option ℕ
find_cache s node_addr = find_index (has caps_valid (λ c. c.node_addr) node_addr) s.cache

abbrev pub cache_at : Service → ℕ → NodeCaps
cache_at s i = get_or s.cache i zero_node_caps

abbrev pub put_cache : Service → ℕ → NodeCaps → Service
put_cache s i c = record s { cache = set s.cache i c }

-- `alloc_cache`
unfoldable pub alloc_at : Service → ℕ → Option ℕ → Option ℕ × Service
alloc_at s node_addr none = (none, s)
alloc_at s node_addr (some i) =
    let c : NodeCaps = cache_at s i in
    (some i, put_cache s i (record c { node_addr = node_addr; cap_count = 0; valid = true }))

unfoldable pub find_or_alloc : Service → ℕ → Option ℕ → Option ℕ × Service
find_or_alloc s node_addr (some i) = (some i, s)
find_or_alloc s node_addr none =
    alloc_at s node_addr (find_index (vacant caps_valid (λ c. c.node_addr)) s.cache)

-- The entry of the cluster map at which the loop stops.
unfoldable pub cap_of : ℕ → List ClusterCap → Option CapId
cap_of cluster_id [] = none
cap_of cluster_id (m ∷ ms) =
    let rest = cap_of cluster_id ms in if m.cluster_id == cluster_id then some m.cap_id else rest

abbrev pub fresh_cap : CapId → CapState
fresh_cap id = record {
  id = id;
  type = info_type id;
  value = zero_value;
  timestamp = 0;
  valid = false;
}

-- A capability is added where there is room.
unfoldable pub add_cap : NodeCaps → CapId → NodeCaps
add_cap c id =
    if ltb c.cap_count max_node_caps
    then record c { caps = set c.caps c.cap_count (fresh_cap id); cap_count = add8 c.cap_count 1 }
    else c

unfoldable pub add_mapped : NodeCaps → Option CapId → NodeCaps
add_mapped c none = c
add_mapped c (some id) = add_cap c id

-- The loop over the clusters of an endpoint.
unfoldable pub scan_clusters : NodeCaps → List Cluster → NodeCaps
scan_clusters c [] = c
scan_clusters c (x ∷ xs) =
    scan_clusters (if x.valid then add_mapped c (cap_of x.cluster_id cluster_map) else c) xs

-- The loop over the endpoints of a node.
unfoldable pub scan_endpoints : NodeCaps → List Endpoint → NodeCaps
scan_endpoints c [] = c
scan_endpoints c (x ∷ xs) = scan_endpoints (if x.valid then scan_clusters c x.clusters else c) xs

unfoldable pub compute_at : Node → Option ℕ × Service → ℕ × Service
compute_at n (none, s) = (0, s)
compute_at n (some i, s) =
    let c : NodeCaps = cache_at s i in
    let c' : NodeCaps = scan_endpoints (record c { cap_count = 0 }) n.endpoints in
    (c'.cap_count, put_cache s i c')

-- `cap_compute_for_node`
unfoldable pub compute_for_node : Service → Option Node → ℕ × Service
compute_for_node s none = (0, s)
compute_for_node s (some n) =
    if not s.initialized || not n.valid
    then (0, s)
    else compute_at n (find_or_alloc s n.ieee_addr (find_cache s n.ieee_addr))
