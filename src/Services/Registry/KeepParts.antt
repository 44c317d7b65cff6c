-- ===== src/Services/Registry/KeepParts.antt =====
-- The operations of services/src/registry.c on endpoints, clusters and attributes keep the invariant
-- of the node, and so of the registry.
use esp32_c6_gateway_os.Os.Types.{Env, Err}
use esp32_c6_gateway_os.Services.Registry.Types.{
  Limits, Node, Endpoint, Cluster, Attribute, AttrType, ClusterDir, zero_endpoint, zero_cluster,
  zero_attribute, endpoint_valid, is_endpoint, cluster_valid, is_cluster, attribute_valid,
  is_attribute,
}
use esp32_c6_gateway_os.Services.Registry.Parts.{
  Slot, there, vacancy, nowhere, slot_of, find_endpoint, find_cluster, find_attribute,
  fresh_endpoint, place_endpoint, add_endpoint, fresh_cluster, place_cluster, add_cluster, updated,
  place_attribute, update_attribute,
}
use esp32_c6_gateway_os.Services.Registry.Valid.{
  Fits, ClusterValid, EndpointValid, NodeValid, zero_endpoint-EndpointValid,
  zero_cluster-ClusterValid,
}
use esp32_c6_gateway_os.Base.{
  Option, ℕ, ◌≡◌, List, true, some, find_index, not, none, fill-IsTable, keep-IsTable, refl, add8,
  arith, fill-lt, each-set, false, if_rule, get_or, if_false, Second, find_index_sound, sym, ◌∙◌,
}

find_endpoint_on :
    (n : Node) (k : ℕ)
    → not n.valid ≡ false
    → find_endpoint n k ≡ find_index (is_endpoint k) n.endpoints
unfolding find_endpoint
find_endpoint_on n k f = if_false (not n.valid) _ _ f

find_cluster_on :
    (e : Endpoint) (k : ℕ)
    → not e.valid ≡ false
    → find_cluster e k ≡ find_index (is_cluster k) e.clusters
unfolding find_cluster
find_cluster_on e k f = if_false (not e.valid) _ _ f

find_attribute_on :
    (c : Cluster) (k : ℕ)
    → not c.valid ≡ false
    → find_attribute c k ≡ find_index (is_attribute k) c.attributes
unfolding find_attribute
find_attribute_on c k f = if_false (not c.valid) _ _ f

module _ (l : Limits) (fits : Fits l) where
  place_endpoint-NodeValid :
      (n : Node) (e : Endpoint) (o free : Option ℕ)
      → NodeValid l n
      → EndpointValid l e
      → e.valid ≡ true
      → find_index (is_endpoint e.endpoint_id) n.endpoints ≡ o
      → find_index (λ x. not (endpoint_valid x)) n.endpoints ≡ free
      → NodeValid l (place_endpoint l n e (slot_of o free)).1
  unfolding place_endpoint
  place_endpoint-NodeValid n e (some i) free v ev live found q = v
  place_endpoint-NodeValid n e none none v ev live found q = v
  place_endpoint-NodeValid n e none (some i) v ev live new q = record {
    table =
        fill-IsTable endpoint_valid (λ x. x.endpoint_id) n.endpoints v.table (zero_endpoint l) i e q
          new live (add8 n.endpoint_count 1)
          (omega (
            arith,
            fits.endpoints,
            fill-lt endpoint_valid (λ x. x.endpoint_id) n.endpoints v.table (zero_endpoint l) i e q
                new live,
          ));
    each = each-set (EndpointValid l) n.endpoints i e (zero_endpoint l) v.each ev;
  }

  pub add_endpoint-NodeValid :
      (n : Node) (endpoint_id profile_id device_id : ℕ)
      → NodeValid l n
      → NodeValid l (add_endpoint l n endpoint_id profile_id device_id).1
  unfolding add_endpoint
  add_endpoint-NodeValid n endpoint_id profile_id device_id v =
      if_rule (Second (NodeValid l)) (not n.valid) _ _ (λ _. v)
        (λ f.
          place_endpoint-NodeValid n (fresh_endpoint l endpoint_id profile_id device_id)
            (find_endpoint n endpoint_id) _ v (zero_endpoint-EndpointValid l) refl
            (sym (find_endpoint_on n endpoint_id f)) refl)

  place_cluster-EndpointValid :
      (e : Endpoint) (c : Cluster) (o free : Option ℕ)
      → EndpointValid l e
      → ClusterValid l c
      → c.valid ≡ true
      → find_index (is_cluster c.cluster_id) e.clusters ≡ o
      → find_index (λ x. not (cluster_valid x)) e.clusters ≡ free
      → EndpointValid l (place_cluster l e c (slot_of o free)).1
  unfolding place_cluster
  place_cluster-EndpointValid e c (some i) free v cv live found q = v
  place_cluster-EndpointValid e c none none v cv live found q = v
  place_cluster-EndpointValid e c none (some i) v cv live new q = record {
    table =
        fill-IsTable cluster_valid (λ x. x.cluster_id) e.clusters v.table (zero_cluster l) i c q new
          live (add8 e.cluster_count 1)
          (omega (
            arith,
            fits.clusters,
            fill-lt cluster_valid (λ x. x.cluster_id) e.clusters v.table (zero_cluster l) i c q new
                live,
          ));
    each = each-set (ClusterValid l) e.clusters i c (zero_cluster l) v.each cv;
  }

  pub add_cluster-EndpointValid :
      (e : Endpoint) (cluster_id : ℕ) (direction : ClusterDir)
      → EndpointValid l e
      → EndpointValid l (add_cluster l e cluster_id direction).1
  unfolding add_cluster
  add_cluster-EndpointValid e cluster_id direction v =
      if_rule (Second (EndpointValid l)) (not e.valid) _ _ (λ _. v)
        (λ f.
          place_cluster-EndpointValid e (fresh_cluster l cluster_id direction)
            (find_cluster e cluster_id) _ v (zero_cluster-ClusterValid l) refl
            (sym (find_cluster_on e cluster_id f)) refl)

  place_attribute-ClusterValid :
      (c : Cluster) (a : Attribute) (o free : Option ℕ)
      → ClusterValid l c
      → a.valid ≡ true
      → find_index (is_attribute a.attr_id) c.attributes ≡ o
      → find_index (λ x. not (attribute_valid x)) c.attributes ≡ free
      → ClusterValid l (place_attribute c a (slot_of o free)).1
  unfolding place_attribute
  place_attribute-ClusterValid c a (some i) free v live found q =
      keep-IsTable attribute_valid (λ x. x.attr_id) c.attributes v zero_attribute i a
        (live ∙ sym was.0) (sym was.1)
    where
      was :
          ((get_or c.attributes i zero_attribute).valid ≡ true)
          × ((get_or c.attributes i zero_attribute).attr_id ≡ a.attr_id)
      was =
          ground
            (arith, find_index_sound (is_attribute a.attr_id) c.attributes zero_attribute i found)
  place_attribute-ClusterValid c a none none v live found q = v
  place_attribute-ClusterValid c a none (some i) v live new q =
      fill-IsTable attribute_valid (λ x. x.attr_id) c.attributes v zero_attribute i a q new live
        (add8 c.attr_count 1)
        (omega (
          arith,
          fits.attributes,
          fill-lt attribute_valid (λ x. x.attr_id) c.attributes v zero_attribute i a q new live,
        ))

  pub update_attribute-ClusterValid :
      (env : Env) (c : Cluster) (attr_id : ℕ) (type : AttrType) (value : Option (List ℕ))
      → ClusterValid l c
      → ClusterValid l (update_attribute env c attr_id type value).1
  unfolding update_attribute
  update_attribute-ClusterValid env c attr_id type none v = v
  update_attribute-ClusterValid env c attr_id type (some value) v =
      if_rule (Second (ClusterValid l)) (not c.valid) _ _ (λ _. v)
        (λ f.
          place_attribute-ClusterValid c (updated env attr_id type value) (find_attribute c attr_id)
            _ v refl (sym (find_attribute_on c attr_id f)) refl)

-- An addition leaves the slot's key and state.
module _ (l : Limits) where
  abbrev SameNode : Node → Option ℕ × Node → Type 0
  SameNode n r = (r.1.valid ≡ n.valid) × (r.1.ieee_addr ≡ n.ieee_addr)

  place_endpoint-SameNode :
      (n : Node) (e : Endpoint) (s : Slot) → SameNode n (place_endpoint l n e s)
  unfolding place_endpoint
  place_endpoint-SameNode n e (there i) = (refl, refl)
  place_endpoint-SameNode n e (vacancy i) = (refl, refl)
  place_endpoint-SameNode n e nowhere = (refl, refl)

  pub add_endpoint-SameNode :
      (n : Node) (endpoint_id profile_id device_id : ℕ)
      → SameNode n (add_endpoint l n endpoint_id profile_id device_id)
  unfolding add_endpoint
  add_endpoint-SameNode n endpoint_id profile_id device_id =
      if_rule (SameNode n) (not n.valid) _ _ (λ _. (refl, refl))
        (λ _. place_endpoint-SameNode n (fresh_endpoint l endpoint_id profile_id device_id) _)

  abbrev SameEndpoint : Endpoint → Option ℕ × Endpoint → Type 0
  SameEndpoint e r = (r.1.valid ≡ e.valid) × (r.1.endpoint_id ≡ e.endpoint_id)

  place_cluster-SameEndpoint :
      (e : Endpoint) (c : Cluster) (s : Slot) → SameEndpoint e (place_cluster l e c s)
  unfolding place_cluster
  place_cluster-SameEndpoint e c (there i) = (refl, refl)
  place_cluster-SameEndpoint e c (vacancy i) = (refl, refl)
  place_cluster-SameEndpoint e c nowhere = (refl, refl)

  pub add_cluster-SameEndpoint :
      (e : Endpoint) (cluster_id : ℕ) (direction : ClusterDir)
      → SameEndpoint e (add_cluster l e cluster_id direction)
  unfolding add_cluster
  add_cluster-SameEndpoint e cluster_id direction =
      if_rule (SameEndpoint e) (not e.valid) _ _ (λ _. (refl, refl))
        (λ _. place_cluster-SameEndpoint e (fresh_cluster l cluster_id direction) _)

abbrev SameCluster : Cluster → Err × Cluster → Type 0
SameCluster c r = (r.1.valid ≡ c.valid) × (r.1.cluster_id ≡ c.cluster_id)

place_attribute-SameCluster :
    (c : Cluster) (a : Attribute) (s : Slot) → SameCluster c (place_attribute c a s)
unfolding place_attribute
place_attribute-SameCluster c a (there i) = (refl, refl)
place_attribute-SameCluster c a (vacancy i) = (refl, refl)
place_attribute-SameCluster c a nowhere = (refl, refl)

pub update_attribute-SameCluster :
    (env : Env) (c : Cluster) (attr_id : ℕ) (type : AttrType) (value : Option (List ℕ))
    → SameCluster c (update_attribute env c attr_id type value)
unfolding update_attribute
update_attribute-SameCluster env c attr_id type none = (refl, refl)
update_attribute-SameCluster env c attr_id type (some value) =
    if_rule (SameCluster c) (not c.valid) _ _ (λ _. (refl, refl))
      (λ _. place_attribute-SameCluster c (updated env attr_id type value) _)
