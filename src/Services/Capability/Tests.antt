-- ===== src/Services/Capability/Tests.antt =====
-- The capabilities of a concrete node, a light with a level, by services/src/capability.c.
use esp32_c6_gateway_os.Os.Types.{Err, ok, Env}
use esp32_c6_gateway_os.Services.Registry.Types.{
  Node, Endpoint, Cluster, esp_limits, zero_node, zero_endpoint, zero_cluster,
}
use esp32_c6_gateway_os.Base.{
  List, ℕ, [], ◌∷◌, true, some, ◌≡◌, none, find_index, vacant, refl, ◌⊎◌, each-replicate, length,
  length-replicate, replicate, arith, suc, zero,
}
use esp32_c6_gateway_os.Services.Capability.Types.{
  CapId, zero_cache, Service, zero_service, light_on, light_level, max_node_caps, max_cap_cache,
  zero_node_caps, zero_cap, CapState, Floats,
}
use esp32_c6_gateway_os.Services.Capability.Compute.{
  compute_for_node, cap_of, find_cache, caps_valid,
}
use esp32_c6_gateway_os.Services.Capability.Given.{endpoint_caps}
use esp32_c6_gateway_os.Services.Capability.Outcome.{
  IsOwn, Computes, IsCache, compute_for_node-caps,
}
use esp32_c6_gateway_os.Services.Capability.Reported.{IsSized, Reported, report-Updates}
use esp32_c6_gateway_os.Services.Capability.Expected.{Unmapped, Reports}
use esp32_c6_gateway_os.Os.Event.State.{Bus, zero_bus}
use esp32_c6_gateway_os.Services.Capability.Report.{
  CapCommand, execute_command, handle_attribute_report,
}
use esp32_c6_gateway_os.Services.Capability.Command.{execute_command-corr}

abbrev cluster : ℕ → Cluster
cluster id = let z : Cluster = zero_cluster esp_limits in record z { cluster_id = id; valid = true }

abbrev lamp : Endpoint
lamp =
    let z : Endpoint = zero_endpoint esp_limits in
    record z { endpoint_id = 1; clusters = cluster 0 ∷ cluster 6 ∷ cluster 8 ∷ []; valid = true }

abbrev light : Node
light =
    let z : Node = zero_node esp_limits in
    record z { ieee_addr = 17; endpoints = lamp ∷ []; valid = true }

abbrev running : Service
running = let z : Service = zero_service in record z { initialized = true }

running-IsCache : IsCache running
unfolding zero_cache
running-IsCache =
    each-replicate (λ c. length c.caps ≡ max_node_caps) max_cap_cache zero_node_caps
      (length-replicate max_node_caps zero_cap)

compute_for_node-caps_example :
    let r = compute_for_node running (some light) in
    ((find_cache running 17 ≡ none)
      × (find_index (vacant caps_valid (λ c. c.node_addr)) running.cache ≡ none)
      × (r ≡ (0, running)))
    ⊎ ((i : ℕ) × IsOwn running light running-IsCache refl refl i
        × Computes running light running-IsCache refl refl i r)
compute_for_node-caps_example = compute_for_node-caps running light running-IsCache refl refl

light_caps : endpoint_caps light.endpoints ≡ light_on ∷ light_level ∷ []
unfolding cap_of
light_caps = refl

-- A service that knows one light, switched off so far.
abbrev off : CapState
off = record zero_cap { id = light_on }

abbrev lit : Service
lit = record running {
  cache =
      record { node_addr = 17; caps = off ∷ replicate 7 zero_cap; cap_count = 1; valid = true }
      ∷ [];
}

lit-IsSized : IsSized lit
lit-IsSized zero = omega arith
lit-IsSized (suc i) = omega arith

abbrev floats : Floats
floats = record {
  of_int = λ n. n;
  to_int = λ n. n;
  add = λ a b. a;
  sub = λ a b. a;
  mul = λ a b. a;
  div = λ a b. a;
  abs = λ a. a;
  exceeds = λ a b. true;
  two_places = λ a. [];
}

abbrev env : Env
env = record { now = 5; padding = λ i. 0 }

abbrev switched : Err × Service × Bus
switched = handle_attribute_report floats env lit zero_bus 17 6 0 (some (1 ∷ []))

report-Updates_example :
    (Unmapped 6 0 × (switched ≡ (ok, lit, zero_bus)))
    ⊎ ((id : CapId) × (new : List ℕ) × Reports floats (1 ∷ []) 6 0 id new
        × Reported floats env lit zero_bus 17 6 0 (1 ∷ []) refl lit-IsSized id new)
report-Updates_example = report-Updates floats env lit zero_bus 17 6 0 (1 ∷ []) refl lit-IsSized

abbrev command : CapCommand
command = record {
  node_addr = 17;
  endpoint_id = 1;
  cap_id = light_on;
  cmd_type = 1;
  value = replicate 32 0;
  corr_id = 9;
}

execute_command-corr_example :
    execute_command env lit zero_bus (some (record command { corr_id = 3 }))
    ≡ execute_command env lit zero_bus (some command)
execute_command-corr_example = execute_command-corr env lit zero_bus command 3 refl
