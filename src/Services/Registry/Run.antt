-- ===== src/Services/Registry/Run.antt =====
-- Any sequence of calls of services/src/registry.c, from the zeroed memory at boot.
use esp32_c6_gateway_os.Os.Types.{Env}
use esp32_c6_gateway_os.Os.Event.State.{Bus}
use esp32_c6_gateway_os.Services.Registry.Types.{
  Limits, NodeState, AttrType, ClusterDir, Registry, zero_registry,
}
use esp32_c6_gateway_os.Services.Registry.Nodes.{init, add_node, remove_node, set_state, touch_node}
use esp32_c6_gateway_os.Services.Registry.Parts.{
  reg_add_endpoint, reg_add_cluster, reg_update_attribute,
}
use esp32_c6_gateway_os.Services.Registry.Valid.{Fits, IsValid, init-IsValid, zero_registry-IsValid}
use esp32_c6_gateway_os.Services.Registry.Keep.{
  touch_node-IsValid, set_state-IsValid, add_node-IsValid, remove_node-IsValid,
}
use esp32_c6_gateway_os.Services.Registry.KeepPointers.{
  reg_add_endpoint-IsValid, reg_add_cluster-IsValid, reg_update_attribute-IsValid,
}
use esp32_c6_gateway_os.Base.{ℕ, List, Option, ◌∷◌, []}

pub data RegCall : Type 0 where
  inits : RegCall
  adds : Env → ℕ → ℕ → RegCall
  removes : Env → ℕ → RegCall
  sets_state : Option ℕ → NodeState → RegCall
  touches : Env → Option ℕ → RegCall
  adds_endpoint : Option ℕ → ℕ → ℕ → ℕ → RegCall
  adds_cluster : Option (ℕ × ℕ) → ℕ → ClusterDir → RegCall
  updates : Env → Option ((ℕ × ℕ) × ℕ) → ℕ → AttrType → Option (List ℕ) → RegCall

module _ (l : Limits) where
  unfoldable pub reg_call : Registry × Bus → RegCall → Registry × Bus
  reg_call (r, b) inits = ((init l r).1, b)
  reg_call (r, b) (adds e ieee_addr nwk_addr) =
      let (p, r', b') = add_node l e r b ieee_addr nwk_addr in (r', b')
  reg_call (r, b) (removes e ieee_addr) =
      let (err, r', b') = remove_node l e r b ieee_addr in (r', b')
  reg_call (r, b) (sets_state p s) = ((set_state l r p s).1, b)
  reg_call (r, b) (touches e p) = (touch_node l e r p, b)
  reg_call (r, b) (adds_endpoint p endpoint_id profile_id device_id) =
      ((reg_add_endpoint l r p endpoint_id profile_id device_id).1, b)
  reg_call (r, b) (adds_cluster p cluster_id direction) =
      ((reg_add_cluster l r p cluster_id direction).1, b)
  reg_call (r, b) (updates e p attr_id type value) =
      ((reg_update_attribute l e r p attr_id type value).1, b)

  unfoldable pub reg_calls : Registry × Bus → List RegCall → Registry × Bus
  reg_calls s [] = s
  reg_calls s (c ∷ cs) = reg_calls (reg_call s c) cs

module _ (l : Limits) (fits : Fits l) where
  reg_call-IsValid :
      (r : Registry) (b : Bus) (c : RegCall) → IsValid l r → IsValid l (reg_call l (r, b) c).0
  unfolding reg_call
  reg_call-IsValid r b inits v = init-IsValid l r v
  reg_call-IsValid r b (adds e ieee_addr nwk_addr) v =
      add_node-IsValid l r v fits.nodes e b ieee_addr nwk_addr
  reg_call-IsValid r b (removes e ieee_addr) v = remove_node-IsValid l r v fits.nodes e b ieee_addr
  reg_call-IsValid r b (sets_state p s) v = set_state-IsValid l r v p s
  reg_call-IsValid r b (touches e p) v = touch_node-IsValid l r v e p
  reg_call-IsValid r b (adds_endpoint p endpoint_id profile_id device_id) v =
      reg_add_endpoint-IsValid l fits r v p endpoint_id profile_id device_id
  reg_call-IsValid r b (adds_cluster p cluster_id direction) v =
      reg_add_cluster-IsValid l fits r v p cluster_id direction
  reg_call-IsValid r b (updates e p attr_id type value) v =
      reg_update_attribute-IsValid l fits r v e p attr_id type value

  keeps : (s : Registry × Bus) (cs : List RegCall) → IsValid l s.0 → IsValid l (reg_calls l s cs).0
  unfolding reg_calls
  keeps s [] v = v
  keeps s (c ∷ cs) v = keeps (reg_call l s c) cs (reg_call-IsValid s.0 s.1 c v)

  -- After any calls from boot, and with limits below 256, the registry is valid at every level: each
  -- counter is the number of the slots in use, which is within the limit, and no two nodes have one
  -- address, no two endpoints of a node, clusters of an endpoint or attributes of a cluster one id.
  pub reg_calls-IsValid :
      (b : Bus) (cs : List RegCall) → IsValid l (reg_calls l (zero_registry l, b) cs).0
  reg_calls-IsValid b cs = keeps (zero_registry l, b) cs (zero_registry-IsValid l)
