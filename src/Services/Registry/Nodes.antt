-- ===== src/Services/Registry/Nodes.antt =====
-- services/src/registry.c: the operations on nodes. A `reg_node_t *` is the index of its slot in
-- `registry.nodes`, and `none` where it is NULL. Log messages are left out.
use esp32_c6_gateway_os.Os.Types.{Err, ok, invalid_arg, not_found, already_exists, Env, pad_bytes}
use esp32_c6_gateway_os.Os.Event.State.{Bus, event_zb_device_joined, event_zb_device_left}
use esp32_c6_gateway_os.Os.Event.Publish.{emit}
use esp32_c6_gateway_os.Services.Registry.Types.{
  Limits, Node, NodeState, Registry, zero_node, zero_registry, is_node, node_valid, state_eq,
}
use esp32_c6_gateway_os.Base.{
  ℕ, Option, if◌then◌else◌, get_or, set, true, List, some, not, le_bytes, add32, find_index, false,
  none, ◌++◌, sub32, has, ◌∷◌, Bool, ◌+◌, ◌||◌, ◌&&◌, ◌==◌, [],
}

-- `reg_init`
unfoldable pub init : Limits → Registry → Err × Registry
init l r =
    if r.initialized
    then (already_exists, r)
    else (ok, record (zero_registry l) { initialized = true })

-- `reg_find_node`
unfoldable pub find_node : Registry → ℕ → Option ℕ
find_node r ieee_addr = if not r.initialized then none else find_index (is_node ieee_addr) r.nodes

-- `reg_find_node_by_nwk`
unfoldable pub find_node_by_nwk : Registry → ℕ → Option ℕ
find_node_by_nwk r nwk_addr =
    if not r.initialized
    then none
    else find_index (has node_valid (λ n. n.nwk_addr) nwk_addr) r.nodes

-- The node at a pointer, and a write through it.
module _ (l : Limits) where
  abbrev pub node_at : Registry → ℕ → Node
  node_at r i = get_or r.nodes i (zero_node l)

  abbrev pub put_node : Registry → ℕ → Node → Registry
  put_node r i n = record r { nodes = set r.nodes i n }

  abbrev pub touched : Env → Node → Node
  touched e n = record n { last_seen = e.now }

  -- `reg_touch_node`
  unfoldable pub touch_node : Env → Registry → Option ℕ → Registry
  touch_node e r none = r
  touch_node e r (some i) =
      if (node_at r i).valid then put_node r i (touched e (node_at r i)) else r

  abbrev pub fresh_node : Env → ℕ → ℕ → Node
  fresh_node e ieee_addr nwk_addr =
      let z : Node = zero_node l in
      record z {
        ieee_addr = ieee_addr;
        nwk_addr = nwk_addr;
        state = NodeState.new;
        join_time = e.now;
        last_seen = e.now;
        valid = true;
      }

  -- The struct of an address and a network address, with the padding at its end.
  abbrev pub joined_payload : Env → ℕ → ℕ → List ℕ
  joined_payload e ieee_addr nwk_addr =
      le_bytes 8 ieee_addr ++ le_bytes 2 nwk_addr ++ pad_bytes e 10 6

  -- The node is known: its network address and its time are brought up to date.
  unfoldable pub update_node : Env → Registry → ℕ → ℕ → Registry
  update_node e r i nwk_addr =
      let n : Node = node_at r i in
      touch_node e (put_node r i (record n { nwk_addr = nwk_addr })) (some i)

  -- The node is new: it takes the first free slot.
  unfoldable pub insert_node : Env → Registry → Bus → ℕ → ℕ → Option ℕ → Option ℕ × Registry × Bus
  insert_node e r b ieee_addr nwk_addr none = (none, r, b)
  insert_node e r b ieee_addr nwk_addr (some i) = (
    some i,
    record r {
      nodes = set r.nodes i (fresh_node e ieee_addr nwk_addr);
      node_count = add32 r.node_count 1;
    },
    (emit e b event_zb_device_joined (joined_payload e ieee_addr nwk_addr)).1,
  )

  unfoldable pub add_or_update : Env → Registry → Bus → ℕ → ℕ → Option ℕ → Option ℕ × Registry × Bus
  add_or_update e r b ieee_addr nwk_addr (some i) = (some i, update_node e r i nwk_addr, b)
  add_or_update e r b ieee_addr nwk_addr none =
      insert_node e r b ieee_addr nwk_addr (find_index (λ n. not (node_valid n)) r.nodes)

  -- `reg_add_node`
  unfoldable pub add_node : Env → Registry → Bus → ℕ → ℕ → Option ℕ × Registry × Bus
  add_node e r b ieee_addr nwk_addr =
      if not r.initialized
      then (none, r, b)
      else add_or_update e r b ieee_addr nwk_addr (find_node r ieee_addr)

  unfoldable pub remove_at : Env → Registry → Bus → ℕ → Option ℕ → Err × Registry × Bus
  remove_at e r b ieee_addr none = (not_found, r, b)
  remove_at e r b ieee_addr (some i) =
      let n : Node = node_at r i in
      (
        ok,
        record r {
          nodes = set r.nodes i (record n { valid = false });
          node_count = sub32 r.node_count 1;
        },
        (emit e b event_zb_device_left (le_bytes 8 ieee_addr)).1,
      )

  -- `reg_remove_node`
  unfoldable pub remove_node : Env → Registry → Bus → ℕ → Err × Registry × Bus
  remove_node e r b ieee_addr = remove_at e r b ieee_addr (find_node r ieee_addr)

  -- `reg_set_state`; the test on an equal state changes only what is logged.
  unfoldable pub set_state : Registry → Option ℕ → NodeState → Err × Registry
  set_state r none s = (invalid_arg, r)
  set_state r (some i) s =
      let n : Node = node_at r i in
      if not n.valid
      then (invalid_arg, r)
      else if state_eq n.state s
      then (ok, r)
      else (ok, put_node r i (record n { state = s }))

-- `reg_node_count`
abbrev pub node_count : Registry → ℕ
node_count r = r.node_count

-- `reg_node_info_t`
pub record NodeInfo : Type 0 where
  pub ieee_addr : ℕ
  pub nwk_addr : ℕ
  pub state : NodeState
  pub manufacturer : List ℕ
  pub model : List ℕ
  pub friendly_name : List ℕ
  pub lqi : ℕ
  pub endpoint_count : ℕ

abbrev pub node_info : Node → NodeInfo
node_info n = record {
  ieee_addr = n.ieee_addr;
  nwk_addr = n.nwk_addr;
  state = n.state;
  manufacturer = n.manufacturer;
  model = n.model;
  friendly_name = n.friendly_name;
  lqi = n.lqi;
  endpoint_count = n.endpoint_count;
}

-- The loop of `reg_get_node_info`, with the `count` of the valid nodes passed.
unfoldable pub info_from : ℕ → ℕ → List Node → Option NodeInfo
info_from index count [] = none
info_from index count (n ∷ ns) =
    let next = info_from index (if n.valid then count + 1 else count) ns in
    if n.valid && count == index then some (node_info n) else next

-- `reg_get_node_info`; the flag says whether the caller passes an address for the result.
unfoldable pub get_node_info : Registry → ℕ → Bool → Err × Option NodeInfo
get_node_info r index out =
    if not r.initialized || not out
    then (invalid_arg, none)
    else elim (info_from index 0 r.nodes) [ none ↦ (not_found, none) | some i ↦ (ok, some i) ]
