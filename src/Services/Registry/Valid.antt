-- ===== src/Services/Registry/Valid.antt =====
-- The invariant of the device registry of services/src/registry.c: at each level the counter is the
-- number of the slots in use, and no two of these have one key.
use esp32_c6_gateway_os.Services.Registry.Types.{
  Limits, Node, Endpoint, Cluster, Registry, zero_node, zero_endpoint, zero_cluster, zero_attribute,
  zero_registry, node_valid, endpoint_valid, cluster_valid, attribute_valid,
}
use esp32_c6_gateway_os.Services.Registry.Nodes.{init, put_node}
use esp32_c6_gateway_os.Base.{
  ◌≤◌, replicate-IsTable, ℕ, IsTable, each-replicate, refl, get_or, ◌≡◌, keep-IsTable, each-set,
  Bool-cases, inl, inr, List,
}

-- The counters of the levels below the nodes are `uint8_t`.
pub record Fits (l : Limits) : Type 0 where
  pub nodes : l.max_nodes ≤ 255
  pub endpoints : l.max_endpoints ≤ 255
  pub clusters : l.max_clusters ≤ 255
  pub attributes : l.max_attributes ≤ 255

module _ (l : Limits) where
  abbrev pub ClusterValid : Cluster → Type 0
  ClusterValid c =
      IsTable attribute_valid (λ a. a.attr_id) l.max_attributes c.attr_count c.attributes

  pub record ClustersValid (count : ℕ) (cs : List Cluster) : Type 0 where
    pub table : IsTable cluster_valid (λ c. c.cluster_id) l.max_clusters count cs
    pub each : (k : ℕ) → ClusterValid (get_or cs k (zero_cluster l))

  abbrev pub EndpointValid : Endpoint → Type 0
  EndpointValid e = ClustersValid e.cluster_count e.clusters

  pub record EndpointsValid (count : ℕ) (es : List Endpoint) : Type 0 where
    pub table : IsTable endpoint_valid (λ e. e.endpoint_id) l.max_endpoints count es
    pub each : (k : ℕ) → EndpointValid (get_or es k (zero_endpoint l))

  abbrev pub NodeValid : Node → Type 0
  NodeValid n = EndpointsValid n.endpoint_count n.endpoints

  pub record IsValid (r : Registry) : Type 0 where
    pub table : IsTable node_valid (λ n. n.ieee_addr) l.max_nodes r.node_count r.nodes
    pub each : (k : ℕ) → NodeValid (get_or r.nodes k (zero_node l))

  pub zero_cluster-ClusterValid : ClusterValid (zero_cluster l)
  zero_cluster-ClusterValid =
      replicate-IsTable attribute_valid (λ a. a.attr_id) l.max_attributes zero_attribute refl

  pub zero_endpoint-EndpointValid : EndpointValid (zero_endpoint l)
  zero_endpoint-EndpointValid = record {
    table =
        replicate-IsTable cluster_valid (λ c. c.cluster_id) l.max_clusters (zero_cluster l) refl;
    each = each-replicate ClusterValid l.max_clusters (zero_cluster l) zero_cluster-ClusterValid;
  }

  pub zero_node-NodeValid : NodeValid (zero_node l)
  zero_node-NodeValid = record {
    table =
        replicate-IsTable endpoint_valid (λ e. e.endpoint_id) l.max_endpoints (zero_endpoint l)
          refl;
    each =
        each-replicate EndpointValid l.max_endpoints (zero_endpoint l) zero_endpoint-EndpointValid;
  }

  pub zero_registry-IsValid : IsValid (zero_registry l)
  zero_registry-IsValid = record {
    table = replicate-IsTable node_valid (λ n. n.ieee_addr) l.max_nodes (zero_node l) refl;
    each = each-replicate NodeValid l.max_nodes (zero_node l) zero_node-NodeValid;
  }

  pub init-IsValid : (r : Registry) → IsValid r → IsValid (init l r).1
  unfolding init
  init-IsValid r v = elim (Bool-cases r.initialized) [
    | inl t ↦ simp (t, init) v
    | inr f ↦
        simp (f, init)
          (record { table = zero_registry-IsValid.table; each = zero_registry-IsValid.each })
  ]

  -- A node is rewritten, its address and its slot's state kept.
  pub put_node-IsValid :
      (r : Registry) (i : ℕ) (n : Node)
      → IsValid r
      → n.valid ≡ (get_or r.nodes i (zero_node l)).valid
      → n.ieee_addr ≡ (get_or r.nodes i (zero_node l)).ieee_addr
      → NodeValid n
      → IsValid (put_node l r i n)
  put_node-IsValid r i n v same same_key nv = record {
    table =
        keep-IsTable node_valid (λ n. n.ieee_addr) r.nodes v.table (zero_node l) i n same same_key;
    each = each-set NodeValid r.nodes i n (zero_node l) v.each nv;
  }
