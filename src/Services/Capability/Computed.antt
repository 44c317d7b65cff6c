-- ===== src/Services/Capability/Computed.antt =====
-- What `cap_compute_for_node` of services/src/capability.c computes.
use esp32_c6_gateway_os.Base.{
  List, [], ◌∷◌, Option, some, length, ◌≡◌, if_rule, take, ◌++◌, ltb, none, ◌≤◌, length-set, ◌∙◌,
  arith, ◌<◌, sym, refl, add8, take_all, Bool-cases, set, length-append, inl, suc, length-take-le,
  inr, ap, append-nil, take-set_end, append_assoc, length-take_le, take-append_le, if_true,
  if_false,
}
use esp32_c6_gateway_os.Services.Registry.Types.{Cluster, Endpoint}
use esp32_c6_gateway_os.Services.Capability.Types.{
  CapId, NodeCaps, CapState, max_node_caps, cluster_map,
}
use esp32_c6_gateway_os.Services.Capability.Compute.{
  add_cap, cap_of, fresh_cap, add_mapped, scan_clusters, scan_endpoints,
}
use esp32_c6_gateway_os.Services.Capability.Given.{
  caps_of, cap_of-cluster_cap, cluster_caps, endpoint_caps, fresh_caps, take-fresh_caps,
  length-fresh_caps,
}

-- The capabilities that count.
abbrev pub live : NodeCaps → List CapState
live c = take c.cap_count c.caps

pub record IsCaps (c : NodeCaps) : Type 0 where
  pub size : length c.caps ≡ max_node_caps
  pub counted : c.cap_count ≤ max_node_caps

-- The caps after the clusters or endpoints of a list: these and the new ones, eight at most.
abbrev Added : NodeCaps → List CapId → NodeCaps → Type 0
Added c ids c' = (live c' ≡ take 8 (live c ++ fresh_caps ids)) × IsCaps c'

add_all : NodeCaps → List CapId → NodeCaps
add_all c [] = c
add_all c (id ∷ ids) = add_all (add_cap c id) ids

add_cap-IsCaps : (c : NodeCaps) (id : CapId) → IsCaps c → IsCaps (add_cap c id)
unfolding add_cap
add_cap-IsCaps c id v =
    if_rule IsCaps (ltb c.cap_count max_node_caps) _ _
      (λ room. record {
        size = length-set c.caps c.cap_count (fresh_cap id) ∙ v.size;
        counted = ground (arith, room);
      })
      (λ _. v)

live-add_cap :
    (c : NodeCaps) (id : CapId) (ids : List CapId)
    → IsCaps c
    → take 8 (live (add_cap c id) ++ fresh_caps ids) ≡ take 8 (live c ++ fresh_caps (id ∷ ids))
unfolding add_cap
live-add_cap c id ids v =
    if_rule Same (ltb c.cap_count max_node_caps) _ _ (λ room. grown (ground (arith, room)))
      (λ full. stays (ground (arith, full, v.counted)))
  where
    Same : NodeCaps → Type 0
    Same c' = take 8 (live c' ++ fresh_caps ids) ≡ take 8 (live c ++ fresh_caps (id ∷ ids))

    grown :
        c.cap_count < max_node_caps
        → take 8
            (take (add8 c.cap_count 1) (set c.caps c.cap_count (fresh_cap id)) ++ fresh_caps ids)
          ≡ take 8 (live c ++ fresh_caps (id ∷ ids))
    grown room =
        ap (λ n. take 8 (take n (set c.caps c.cap_count (fresh_cap id)) ++ fresh_caps ids)) one_more
        ∙ ap (λ xs. take 8 (xs ++ fresh_caps ids))
            (take-set_end c.cap_count c.caps (fresh_cap id) (omega (arith, v.size)))
        ∙ ap (take 8) (append_assoc (live c) (fresh_cap id ∷ []) (fresh_caps ids))
      where
        one_more : add8 c.cap_count 1 ≡ suc c.cap_count
        one_more = omega arith

    stays :
        c.cap_count ≡ max_node_caps
        → take 8 (live c ++ fresh_caps ids) ≡ take 8 (live c ++ fresh_caps (id ∷ ids))
    stays full =
        take-append_le 8 (live c) (fresh_caps ids) filled
        ∙ sym (take-append_le 8 (live c) (fresh_caps (id ∷ ids)) filled)
      where
        filled : 8 ≤ length (live c)
        filled =
            omega
              (arith, length-take_le c.cap_count c.caps (omega (arith, v.size, v.counted)), full)

add_all-Added : (ids : List CapId) (c : NodeCaps) → IsCaps c → Added c ids (add_all c ids)
unfolding add_all
add_all-Added [] c v = (
  sym (
      take_all 8 (live c ++ [])
        (omega (arith, length-append (live c) [], length-take-le c.cap_count c.caps, v.counted))
      ∙ append-nil (live c)),
  v,
)
add_all-Added (id ∷ ids) c v =
    let (rest, v') = add_all-Added ids (add_cap c id) (add_cap-IsCaps c id v) in
    (rest ∙ live-add_cap c id ids v, v')

add_all-append :
    (xs ys : List CapId) (c : NodeCaps) → add_all c (xs ++ ys) ≡ add_all (add_all c xs) ys
unfolding add_all
add_all-append [] ys c = refl
add_all-append (x ∷ xs) ys c = add_all-append xs ys (add_cap c x)

add_mapped-add_all :
    (c : NodeCaps) (o : Option CapId) (ids : List CapId)
    → add_all (add_mapped c o) ids ≡ add_all c (caps_of o ids)
unfolding add_mapped add_all
add_mapped-add_all c none ids = refl
add_mapped-add_all c (some id) ids = refl

scan_clusters-add_all :
    (xs : List Cluster) (c : NodeCaps) → scan_clusters c xs ≡ add_all c (cluster_caps xs)
unfolding scan_clusters add_all
scan_clusters-add_all [] c = refl
scan_clusters-add_all (x ∷ xs) c = elim (Bool-cases x.valid) [
  | inl t ↦
      ap (λ d. scan_clusters d xs) (if_true x.valid _ _ t)
      ∙ scan_clusters-add_all xs (add_mapped c (cap_of x.cluster_id cluster_map))
      ∙ add_mapped-add_all c (cap_of x.cluster_id cluster_map) (cluster_caps xs)
      ∙ ap (λ o. add_all c (caps_of o (cluster_caps xs))) (cap_of-cluster_cap x.cluster_id)
      ∙ ap (add_all c) (sym (if_true x.valid _ _ t))
  | inr f ↦
      ap (λ d. scan_clusters d xs) (if_false x.valid _ _ f)
      ∙ scan_clusters-add_all xs c
      ∙ ap (add_all c) (sym (if_false x.valid _ _ f))
]

scan_endpoints-add_all :
    (xs : List Endpoint) (c : NodeCaps) → scan_endpoints c xs ≡ add_all c (endpoint_caps xs)
unfolding scan_endpoints add_all
scan_endpoints-add_all [] c = refl
scan_endpoints-add_all (x ∷ xs) c = elim (Bool-cases x.valid) [
  | inl t ↦
      ap (λ d. scan_endpoints d xs) (if_true x.valid _ _ t ∙ scan_clusters-add_all x.clusters c)
      ∙ scan_endpoints-add_all xs (add_all c (cluster_caps x.clusters))
      ∙ sym (add_all-append (cluster_caps x.clusters) (endpoint_caps xs) c)
      ∙ ap (add_all c) (sym (if_true x.valid _ _ t))
  | inr f ↦
      ap (λ d. scan_endpoints d xs) (if_false x.valid _ _ f)
      ∙ scan_endpoints-add_all xs c
      ∙ ap (add_all c) (sym (if_false x.valid _ _ f))
]

-- The number of the capabilities that count is the length of what they are.
cap_count-length :
    (c : NodeCaps) (ids : List CapId)
    → IsCaps c
    → live c ≡ take 8 (fresh_caps ids)
    → c.cap_count ≡ length (take 8 ids)
cap_count-length c ids v is_live =
    sym (length-take_le c.cap_count c.caps (omega (arith, v.size, v.counted)))
    ∙ ap (λ xs. length xs) (is_live ∙ take-fresh_caps 8 ids)
    ∙ length-fresh_caps (take 8 ids)

-- An emptied cache after the scan of the endpoints.
pub scanned :
    (c : NodeCaps) (xs : List Endpoint)
    → length c.caps ≡ max_node_caps
    → c.cap_count ≡ 0
    → (live (scan_endpoints c xs) ≡ take 8 (fresh_caps (endpoint_caps xs)))
      × ((scan_endpoints c xs).cap_count ≡ length (take 8 (endpoint_caps xs)))
scanned c xs size emptied =
    let v : IsCaps c = record { size = size; counted = omega arith } in
    let (caps, v') = add_all-Added (endpoint_caps xs) c v in
    let caps' = caps ∙ ap (λ n. take 8 (take n c.caps ++ fresh_caps (endpoint_caps xs))) emptied in
    rw (scan_endpoints-add_all xs c)
      (caps', cap_count-length (add_all c (endpoint_caps xs)) (endpoint_caps xs) v' caps')

-- A scan keeps whose cache it is.
abbrev SameOwner : NodeCaps → NodeCaps → Type 0
SameOwner c c' = (c'.node_addr ≡ c.node_addr) × (c'.valid ≡ c.valid)

add_cap-SameOwner : (c : NodeCaps) (id : CapId) → SameOwner c (add_cap c id)
unfolding add_cap
add_cap-SameOwner c id =
    if_rule (SameOwner c) (ltb c.cap_count max_node_caps) _ _ (λ _. (refl, refl))
      (λ _. (refl, refl))

add_all-SameOwner : (ids : List CapId) (c : NodeCaps) → SameOwner c (add_all c ids)
unfolding add_all
add_all-SameOwner [] c = (refl, refl)
add_all-SameOwner (id ∷ ids) c =
    let (addr, valid) = add_all-SameOwner ids (add_cap c id) in
    let (addr', valid') = add_cap-SameOwner c id in (addr ∙ addr', valid ∙ valid')

pub scan_endpoints-SameOwner :
    (c : NodeCaps) (xs : List Endpoint)
    → ((scan_endpoints c xs).node_addr ≡ c.node_addr) × ((scan_endpoints c xs).valid ≡ c.valid)
scan_endpoints-SameOwner c xs =
    rw (scan_endpoints-add_all xs c) (add_all-SameOwner (endpoint_caps xs) c)
