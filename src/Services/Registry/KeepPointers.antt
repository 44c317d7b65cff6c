-- ===== src/Services/Registry/KeepPointers.antt =====
-- The functions of services/src/registry.c on endpoints, clusters and attributes keep the registry valid.
use esp32_c6_gateway_os.Os.Types.{Env}
use esp32_c6_gateway_os.Services.Registry.Types.{
  Limits, Node, Endpoint, Cluster, AttrType, ClusterDir, Registry, zero_endpoint, zero_cluster,
  endpoint_valid, cluster_valid,
}
use esp32_c6_gateway_os.Services.Registry.Nodes.{node_at}
use esp32_c6_gateway_os.Services.Registry.Parts.{
  endpoint_at, put_endpoint, cluster_at, reg_add_endpoint, reg_add_cluster, reg_update_attribute,
}
use esp32_c6_gateway_os.Services.Registry.Valid.{
  Fits, ClusterValid, EndpointValid, IsValid, put_node-IsValid,
}
use esp32_c6_gateway_os.Base.{Option, ℕ, ◌≡◌, List, some, none, keep-IsTable, refl, each-set, set}
use esp32_c6_gateway_os.Services.Registry.KeepParts.{
  add_endpoint-SameNode, add_cluster-SameEndpoint, update_attribute-SameCluster,
  add_endpoint-NodeValid, add_cluster-EndpointValid, update_attribute-ClusterValid,
}

-- Through the pointers, on the registry.
module _ (l : Limits) (fits : Fits l) (r : Registry) (v : IsValid l r) where
  put_endpoint-IsValid :
      (i j : ℕ) (e : Endpoint)
      → EndpointValid l e
      → e.valid ≡ (endpoint_at l r (i, j)).valid
      → e.endpoint_id ≡ (endpoint_at l r (i, j)).endpoint_id
      → IsValid l (put_endpoint l r (i, j) e)
  put_endpoint-IsValid i j e ev same same_key =
      put_node-IsValid l r i (record n { endpoints = set n.endpoints j e }) v refl refl
        (record {
          table =
              keep-IsTable endpoint_valid (λ x. x.endpoint_id) n.endpoints (v.each i).table
                (zero_endpoint l) j e same same_key;
          each = each-set (EndpointValid l) n.endpoints j e (zero_endpoint l) (v.each i).each ev;
        })
    where
      n : Node
      n = node_at l r i

  pub reg_add_endpoint-IsValid :
      (p : Option ℕ) (endpoint_id profile_id device_id : ℕ)
      → IsValid l (reg_add_endpoint l r p endpoint_id profile_id device_id).1
  unfolding reg_add_endpoint
  reg_add_endpoint-IsValid none endpoint_id profile_id device_id = v
  reg_add_endpoint-IsValid (some i) endpoint_id profile_id device_id =
      let (same, key) = add_endpoint-SameNode l (node_at l r i) endpoint_id profile_id device_id in
      put_node-IsValid l r i _ v same key
        (add_endpoint-NodeValid l fits (node_at l r i) endpoint_id profile_id device_id (v.each i))

  pub reg_add_cluster-IsValid :
      (p : Option (ℕ × ℕ)) (cluster_id : ℕ) (direction : ClusterDir)
      → IsValid l (reg_add_cluster l r p cluster_id direction).1
  unfolding reg_add_cluster
  reg_add_cluster-IsValid none cluster_id direction = v
  reg_add_cluster-IsValid (some (i, j)) cluster_id direction =
      let (same, key) = add_cluster-SameEndpoint l (endpoint_at l r (i, j)) cluster_id direction in
      put_endpoint-IsValid i j _
        (add_cluster-EndpointValid l fits (endpoint_at l r (i, j)) cluster_id direction
          ((v.each i).each j))
        same key

  pub reg_update_attribute-IsValid :
      (env : Env) (p : Option ((ℕ × ℕ) × ℕ)) (attr_id : ℕ) (type : AttrType)
      (value : Option (List ℕ))
      → IsValid l (reg_update_attribute l env r p attr_id type value).1
  unfolding reg_update_attribute
  reg_update_attribute-IsValid env none attr_id type value = v
  reg_update_attribute-IsValid env (some ((i, j), k)) attr_id type value =
      let (same, key) = update_attribute-SameCluster env c attr_id type value in
      put_endpoint-IsValid i j _
        (record {
          table =
              keep-IsTable cluster_valid (λ x. x.cluster_id) e.clusters ev.table (zero_cluster l) k
                _ same key;
          each =
              each-set (ClusterValid l) e.clusters k _ (zero_cluster l) ev.each
                (update_attribute-ClusterValid l fits env c attr_id type value (ev.each k));
        })
        refl refl
    where
      e : Endpoint
      e = endpoint_at l r (i, j)

      c : Cluster
      c = cluster_at l r ((i, j), k)

      ev : EndpointValid l e
      ev = (v.each i).each j
