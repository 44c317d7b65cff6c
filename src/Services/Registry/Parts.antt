-- ===== src/Services/Registry/Parts.antt =====
-- services/src/registry.c: what a node holds. An endpoint's pointer is its node's index and its own,
-- a cluster's the three indices down to it; `none` is NULL. The functions on a struct come first,
-- then those that reach it through the pointer.
use esp32_c6_gateway_os.Os.Types.{Err, ok, invalid_arg, full, Env}
use esp32_c6_gateway_os.Services.Registry.Types.{
  Limits, Node, Endpoint, Cluster, Attribute, AttrType, ClusterDir, Registry, zero_endpoint,
  zero_cluster, is_endpoint, endpoint_valid, is_cluster, cluster_valid, is_attribute,
  attribute_valid,
}
use esp32_c6_gateway_os.Services.Registry.Nodes.{node_at, put_node}
use esp32_c6_gateway_os.Base.{
  ℕ, Option, set, if◌then◌else◌, true, some, List, add8, get_or, not, none, find_index,
}

-- A search for a key, or else for a free slot.
pub data Slot : Type 0 where
  there : ℕ → Slot
  vacancy : ℕ → Slot
  nowhere : Slot

abbrev pub slot_of : Option ℕ → Option ℕ → Slot
slot_of (some i) j = there i
slot_of none (some j) = vacancy j
slot_of none none = nowhere

-- `reg_find_endpoint`, of a node that is not NULL
unfoldable pub find_endpoint : Node → ℕ → Option ℕ
find_endpoint n endpoint_id =
    if not n.valid then none else find_index (is_endpoint endpoint_id) n.endpoints

-- `reg_find_cluster`
unfoldable pub find_cluster : Endpoint → ℕ → Option ℕ
find_cluster e cluster_id =
    if not e.valid then none else find_index (is_cluster cluster_id) e.clusters

-- `reg_find_attribute`
unfoldable pub find_attribute : Cluster → ℕ → Option ℕ
find_attribute c attr_id =
    if not c.valid then none else find_index (is_attribute attr_id) c.attributes

module _ (l : Limits) where
  abbrev pub fresh_endpoint : ℕ → ℕ → ℕ → Endpoint
  fresh_endpoint endpoint_id profile_id device_id =
      let z : Endpoint = zero_endpoint l in
      record z {
        endpoint_id = endpoint_id;
        profile_id = profile_id;
        device_id = device_id;
        valid = true;
      }

  unfoldable pub place_endpoint : Node → Endpoint → Slot → Option ℕ × Node
  place_endpoint n e (there i) = (some i, n)
  place_endpoint n e (vacancy i) = (
    some i,
    record n { endpoints = set n.endpoints i e; endpoint_count = add8 n.endpoint_count 1 },
  )
  place_endpoint n e nowhere = (none, n)

  -- `reg_add_endpoint`, of a node that is not NULL
  unfoldable pub add_endpoint : Node → ℕ → ℕ → ℕ → Option ℕ × Node
  add_endpoint n endpoint_id profile_id device_id =
      if not n.valid
      then (none, n)
      else place_endpoint n (fresh_endpoint endpoint_id profile_id device_id) (
          slot_of (find_endpoint n endpoint_id)
            (find_index (λ e. not (endpoint_valid e)) n.endpoints))

  abbrev pub fresh_cluster : ℕ → ClusterDir → Cluster
  fresh_cluster cluster_id direction =
      let z : Cluster = zero_cluster l in
      record z { cluster_id = cluster_id; direction = direction; valid = true }

  unfoldable pub place_cluster : Endpoint → Cluster → Slot → Option ℕ × Endpoint
  place_cluster e c (there i) = (some i, e)
  place_cluster e c (vacancy i) =
      (some i, record e { clusters = set e.clusters i c; cluster_count = add8 e.cluster_count 1 })
  place_cluster e c nowhere = (none, e)

  -- `reg_add_cluster`; a cluster that is there is found by its id alone, whatever its direction.
  unfoldable pub add_cluster : Endpoint → ℕ → ClusterDir → Option ℕ × Endpoint
  add_cluster e cluster_id direction =
      if not e.valid
      then (none, e)
      else place_cluster e (fresh_cluster cluster_id direction)
          (slot_of (find_cluster e cluster_id) (find_index (λ c. not (cluster_valid c)) e.clusters))

-- An attribute as `reg_update_attribute` leaves it.
abbrev pub updated : Env → ℕ → AttrType → List ℕ → Attribute
updated env attr_id type value = record {
  attr_id = attr_id;
  type = type;
  value = value;
  last_updated = env.now;
  valid = true;
}

unfoldable pub place_attribute : Cluster → Attribute → Slot → Err × Cluster
place_attribute c a (there i) = (ok, record c { attributes = set c.attributes i a })
place_attribute c a (vacancy i) =
    (ok, record c { attributes = set c.attributes i a; attr_count = add8 c.attr_count 1 })
place_attribute c a nowhere = (full, c)

-- `reg_update_attribute`, of a cluster that is not NULL; no value is the NULL pointer.
unfoldable pub update_attribute : Env → Cluster → ℕ → AttrType → Option (List ℕ) → Err × Cluster
update_attribute env c attr_id type none = (invalid_arg, c)
update_attribute env c attr_id type (some value) =
    if not c.valid
    then (invalid_arg, c)
    else place_attribute c (updated env attr_id type value) (
        slot_of (find_attribute c attr_id) (find_index (λ a. not (attribute_valid a)) c.attributes))

abbrev pub under : {P : Type 0} → P → Option ℕ → Option (P × ℕ)
under p none = none
under p (some j) = some (p, j)

-- Through the pointers.
module _ (l : Limits) where
  abbrev pub endpoint_at : Registry → ℕ × ℕ → Endpoint
  endpoint_at r (i, j) = let n : Node = node_at l r i in get_or n.endpoints j (zero_endpoint l)

  abbrev pub put_endpoint : Registry → ℕ × ℕ → Endpoint → Registry
  put_endpoint r (i, j) e =
      let n : Node = node_at l r i in put_node l r i (record n { endpoints = set n.endpoints j e })

  abbrev pub cluster_at : Registry → (ℕ × ℕ) × ℕ → Cluster
  cluster_at r (p, k) = let e : Endpoint = endpoint_at r p in get_or e.clusters k (zero_cluster l)

  abbrev pub put_cluster : Registry → (ℕ × ℕ) × ℕ → Cluster → Registry
  put_cluster r (p, k) c =
      let e : Endpoint = endpoint_at r p in
      put_endpoint r p (record e { clusters = set e.clusters k c })

  -- `reg_add_endpoint`
  unfoldable pub reg_add_endpoint : Registry → Option ℕ → ℕ → ℕ → ℕ → Option (ℕ × ℕ) × Registry
  reg_add_endpoint r none endpoint_id profile_id device_id = (none, r)
  reg_add_endpoint r (some i) endpoint_id profile_id device_id =
      let (j, n) = add_endpoint l (node_at l r i) endpoint_id profile_id device_id in
      (under i j, put_node l r i n)

  -- `reg_find_endpoint`
  unfoldable pub reg_find_endpoint : Registry → Option ℕ → ℕ → Option (ℕ × ℕ)
  reg_find_endpoint r none endpoint_id = none
  reg_find_endpoint r (some i) endpoint_id = under i (find_endpoint (node_at l r i) endpoint_id)

  -- `reg_add_cluster`
  unfoldable pub reg_add_cluster :
      Registry → Option (ℕ × ℕ) → ℕ → ClusterDir → Option ((ℕ × ℕ) × ℕ) × Registry
  reg_add_cluster r none cluster_id direction = (none, r)
  reg_add_cluster r (some p) cluster_id direction =
      let (k, e) = add_cluster l (endpoint_at r p) cluster_id direction in
      (under p k, put_endpoint r p e)

  -- `reg_update_attribute`
  unfoldable pub reg_update_attribute :
      Env → Registry → Option ((ℕ × ℕ) × ℕ) → ℕ → AttrType → Option (List ℕ) → Err × Registry
  reg_update_attribute env r none attr_id type value = (invalid_arg, r)
  reg_update_attribute env r (some p) attr_id type value =
      let (err, c) = update_attribute env (cluster_at r p) attr_id type value in
      (err, put_cluster r p c)
