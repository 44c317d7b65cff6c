-- ===== src/Services/Capability/Given.antt =====
-- The capabilities that the clusters of a node give, apart from how `cap_compute_for_node` of
-- services/src/capability.c collects them.
use esp32_c6_gateway_os.Base.{
  ℕ, zero, ◌==◌, false, List, [], ◌∷◌, Option, some, if◌then◌else◌, length, ◌≡◌, take, ◌++◌, none,
  refl, suc, ap,
}
use esp32_c6_gateway_os.Services.Registry.Types.{Cluster, Endpoint}
use esp32_c6_gateway_os.Services.Capability.Types.{
  info_type, zero_value, light_on, light_level, light_color_temp, sensor_temperature,
  sensor_humidity, CapId, CapState, cluster_map,
}
use esp32_c6_gateway_os.Services.Capability.Compute.{cap_of, fresh_cap}

-- The capability of a cluster, and those of clusters and of endpoints, in their order.
abbrev pub caps_of : Option CapId → List CapId → List CapId
caps_of none ids = ids
caps_of (some id) ids = id ∷ ids

abbrev pub cluster_cap : ℕ → Option CapId
cluster_cap cluster_id =
    if 6 == cluster_id
    then some light_on
    else if 8 == cluster_id
    then some light_level
    else if 768 == cluster_id
    then some light_color_temp
    else if 1026 == cluster_id
    then some sensor_temperature
    else if 1029 == cluster_id
    then some sensor_humidity
    else none

pub cap_of-cluster_cap : (cluster_id : ℕ) → cap_of cluster_id cluster_map ≡ cluster_cap cluster_id
unfolding cap_of
cap_of-cluster_cap cluster_id = refl

abbrev pub cluster_caps : List Cluster → List CapId
cluster_caps [] = []
cluster_caps (x ∷ xs) =
    if x.valid then caps_of (cluster_cap x.cluster_id) (cluster_caps xs) else cluster_caps xs

abbrev pub endpoint_caps : List Endpoint → List CapId
endpoint_caps [] = []
endpoint_caps (x ∷ xs) =
    if x.valid then cluster_caps x.clusters ++ endpoint_caps xs else endpoint_caps xs

-- Capabilities without a value.
abbrev pub fresh_caps : List CapId → List CapState
fresh_caps [] = []
fresh_caps (id ∷ ids) =
    record { id = id; type = info_type id; value = zero_value; timestamp = 0; valid = false }
    ∷ fresh_caps ids

pub take-fresh_caps : (n : ℕ) (ids : List CapId) → take n (fresh_caps ids) ≡ fresh_caps (take n ids)
take-fresh_caps zero ids = refl
take-fresh_caps (suc n) [] = refl
take-fresh_caps (suc n) (id ∷ ids) = ap (λ cs. fresh_cap id ∷ cs) (take-fresh_caps n ids)

pub length-fresh_caps : (ids : List CapId) → length (fresh_caps ids) ≡ length ids
length-fresh_caps [] = refl
length-fresh_caps (id ∷ ids) = ap suc (length-fresh_caps ids)
