-- ===== src/Services/Interview/Advance.antt =====
-- services/src/interview.c: `advance_interview` and the simulated answers of a device. A function
-- on a context works on a `Turn`: the context, `service.active_count`, the registry and the bus.
use Prim.Native.String.{String}
use esp32_c6_gateway_os.Base.{
  ℕ, List, [], if◌then◌else◌, Option, false, ◌∷◌, some, sub32, none, le_bytes, ◌++◌, drop, codes,
}
use esp32_c6_gateway_os.Os.Event.Publish.{copy_into, emit}
use esp32_c6_gateway_os.Services.Interview.State.{
  unnamed, Interview, Stage, active_ep, simple_desc, basic_attr, bindings, complete,
}
use esp32_c6_gateway_os.Os.Types.{Env}
use esp32_c6_gateway_os.Services.Registry.Types.{Limits, Registry, Node, mains, server, NodeState}
use esp32_c6_gateway_os.Services.Registry.Nodes.{find_node, put_node, node_at, set_state}
use esp32_c6_gateway_os.Os.Event.State.{Bus, event_cap_state_changed}
use esp32_c6_gateway_os.Services.Registry.Parts.{
  reg_add_endpoint, reg_find_endpoint, reg_add_cluster,
}

pub record Turn : Type 0 where
  pub ctx : Interview
  pub active_count : ℕ
  pub reg : Registry
  pub bus : Bus

abbrev pub with_stage : Turn → Stage → Turn
with_stage t s = let c : Interview = t.ctx in record t { ctx = record c { stage = s } }

-- A stage is entered, its clock started.
abbrev pub enter : Env → Turn → Stage → Turn
enter e t s =
    let c : Interview = t.ctx in record t { ctx = record c { stage = s; step_start_time = e.now } }

-- `free_interview`
unfoldable pub free_interview : Turn → Turn
free_interview t =
    let c : Interview = t.ctx in
    if c.active
    then record t { ctx = record c { active = false }; active_count = sub32 t.active_count 1 }
    else t

-- `strncpy` of a text into the array of 32 bytes, whose last byte stays.
abbrev pub strncpy : List ℕ → String → List ℕ
strncpy old text = copy_into 31 (codes text) ++ drop 31 old

module _ (l : Limits) where
  -- `simulate_active_endpoints`
  unfoldable pub simulate_active_endpoints : Registry → Option ℕ → Registry
  simulate_active_endpoints r p =
      let r' : Registry = (reg_add_endpoint l r p 1 260 256).1 in
      (reg_add_endpoint l r' p 2 260 770).1

  unfoldable pub add_clusters : Registry → Option (ℕ × ℕ) → List ℕ → Registry
  add_clusters r p [] = r
  add_clusters r p (cluster_id ∷ ids) =
      add_clusters (reg_add_cluster l r p cluster_id server).1 p ids

  -- `simulate_simple_descriptor`
  unfoldable pub simulate_simple_descriptor : Registry → Option ℕ → Registry
  simulate_simple_descriptor r p =
      let r' : Registry = add_clusters r (reg_find_endpoint l r p 1) (0 ∷ 6 ∷ 8 ∷ []) in
      add_clusters r' (reg_find_endpoint l r' p 2) (0 ∷ 1026 ∷ [])

  abbrev pub described : Node → Node
  described n = record n {
    manufacturer = strncpy n.manufacturer "Test Manufacturer";
    model = strncpy n.model "Test Model";
    sw_build = 1;
    power_source = mains;
  }

  -- `simulate_basic_attributes`
  unfoldable pub simulate_basic_attributes : Registry → Option ℕ → Registry
  simulate_basic_attributes r none = r
  simulate_basic_attributes r (some i) = put_node l r i (described (node_at l r i))

  abbrev pub with_reg : Turn → Registry → Turn
  with_reg t r = record t { reg = r }

  -- The cases of the switch, with the node found.
  unfoldable pub advance_stage : Env → Turn → Option ℕ → Stage → Turn
  advance_stage e t p Stage.init = enter e t active_ep
  advance_stage e t p active_ep =
      enter e (with_reg t (simulate_active_endpoints t.reg (find_node t.reg t.ctx.ieee_addr)))
        simple_desc
  advance_stage e t p simple_desc =
      enter e (with_reg t (simulate_simple_descriptor t.reg (find_node t.reg t.ctx.ieee_addr)))
        basic_attr
  advance_stage e t p basic_attr =
      enter e (with_reg t (simulate_basic_attributes t.reg (find_node t.reg t.ctx.ieee_addr)))
        bindings
  advance_stage e t p bindings = with_stage t complete
  advance_stage e t p complete = free_interview (record t {
    reg = (set_state l t.reg p NodeState.ready).1;
    bus = (emit e t.bus event_cap_state_changed (le_bytes 8 t.ctx.ieee_addr)).1;
  })
  advance_stage e t p Stage.failed =
      free_interview (with_reg t (set_state l t.reg p NodeState.stale).1)
  advance_stage e t p unnamed = t

  unfoldable pub advance_found : Env → Turn → Option ℕ → Turn
  advance_found e t none = free_interview (with_stage t Stage.failed)
  advance_found e t (some i) = advance_stage e t (some i) t.ctx.stage

  -- `advance_interview`
  unfoldable pub advance_interview : Env → Turn → Turn
  advance_interview e t = advance_found e t (find_node t.reg t.ctx.ieee_addr)
