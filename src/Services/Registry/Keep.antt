-- ===== src/Services/Registry/Keep.antt =====
-- Every operation of services/src/registry.c on nodes keeps the registry's invariant.
use esp32_c6_gateway_os.Os.Types.{Env}
use esp32_c6_gateway_os.Os.Event.State.{Bus}
use esp32_c6_gateway_os.Services.Registry.Types.{
  Limits, Node, NodeState, Registry, zero_node, node_valid, is_node, state_eq,
}
use esp32_c6_gateway_os.Services.Registry.Nodes.{
  node_at, put_node, touched, touch_node, fresh_node, update_node, insert_node, add_or_update,
  add_node, remove_at, remove_node, set_state, find_node,
}
use esp32_c6_gateway_os.Services.Registry.Valid.{
  NodeValid, IsValid, put_node-IsValid, zero_node-NodeValid,
}
use esp32_c6_gateway_os.Base.{
  ℕ, Option, find_index, ◌≡◌, none, not, some, Bool-cases, inl, inr, refl, if_rule, arith, Second,
  ◌≤◌, each-set, false, true, fill-IsTable, clear-IsTable, add32, sub32, fill-lt, count_in,
  clear-pos, Middle,
}

abbrev pub address : Node → ℕ
address n = n.ieee_addr

pub find_node_on :
    (r : Registry) (ieee_addr : ℕ)
    → r.initialized ≡ true
    → find_node r ieee_addr ≡ find_index (is_node ieee_addr) r.nodes
unfolding find_node
find_node_on r ieee_addr t = simp (t, find_node)

pub find_node_off :
    (r : Registry) (ieee_addr : ℕ) → r.initialized ≡ false → find_node r ieee_addr ≡ none
unfolding find_node
find_node_off r ieee_addr f = simp (f, find_node)

module _ (l : Limits) (r : Registry) (v : IsValid l r) where
  pub touch_node-IsValid : (e : Env) (p : Option ℕ) → IsValid l (touch_node l e r p)
  unfolding touch_node
  touch_node-IsValid e none = v
  touch_node-IsValid e (some i) =
      if_rule (IsValid l) (node_at l r i).valid _ _
        (λ _. put_node-IsValid l r i (touched l e (node_at l r i)) v refl refl (v.each i)) (λ _. v)

  pub set_state-IsValid : (p : Option ℕ) (s : NodeState) → IsValid l (set_state l r p s).1
  unfolding set_state
  set_state-IsValid none s = v
  set_state-IsValid (some i) s =
      if_rule (Second (IsValid l)) (not n.valid) _ _ (λ _. v)
        (λ _.
          if_rule (Second (IsValid l)) (state_eq n.state s) _ _ (λ _. v)
            (λ _. put_node-IsValid l r i (record n { state = s }) v refl refl (v.each i)))
    where
      n : Node
      n = node_at l r i

  pub insert_node-IsValid :
      (e : Env) (b : Bus) (ieee_addr nwk_addr : ℕ)
      → find_index (is_node ieee_addr) r.nodes ≡ none
      → l.max_nodes ≤ 255
      → (o : Option ℕ) → find_index (λ n. not (node_valid n)) r.nodes ≡ o
      → IsValid l (insert_node l e r b ieee_addr nwk_addr o).1
  unfolding insert_node
  insert_node-IsValid e b ieee_addr nwk_addr new fits none free = v
  insert_node-IsValid e b ieee_addr nwk_addr new fits (some i) free = record {
    table =
        fill-IsTable node_valid address r.nodes v.table (zero_node l) i n free new refl
          (add32 r.node_count 1)
          (omega
            (arith, fill-lt node_valid address r.nodes v.table (zero_node l) i n free new refl));
    each = each-set (NodeValid l) r.nodes i n (zero_node l) v.each (zero_node-NodeValid l);
  }
    where
      n : Node
      n = fresh_node l e ieee_addr nwk_addr

  pub remove_at-IsValid :
      (e : Env) (b : Bus) (ieee_addr : ℕ) (o : Option ℕ)
      → find_index (is_node ieee_addr) r.nodes ≡ o
      → l.max_nodes ≤ 255
      → IsValid l (remove_at l e r b ieee_addr o).1
  unfolding remove_at
  remove_at-IsValid e b ieee_addr none found fits = v
  remove_at-IsValid e b ieee_addr (some i) found fits = record {
    table =
        clear-IsTable node_valid address r.nodes v.table (zero_node l) i ieee_addr gone found refl
          (sub32 r.node_count 1)
          (omega (
            arith,
            count_in node_valid address r.nodes v.table (zero_node l),
            clear-pos node_valid address r.nodes v.table (zero_node l) i ieee_addr gone found refl,
          ));
    each = each-set (NodeValid l) r.nodes i gone (zero_node l) v.each (v.each i);
  }
    where
      n : Node
      n = node_at l r i

      gone : Node
      gone = record n { valid = false }

module _ (l : Limits) (r : Registry) (v : IsValid l r) where
  -- An update keeps the table: only the network address and the time change.
  pub update_node-IsValid : (e : Env) (i nwk_addr : ℕ) → IsValid l (update_node l e r i nwk_addr)
  unfolding update_node
  update_node-IsValid e i nwk_addr = touch_node-IsValid l (put_node l r i known) renewed e (some i)
    where
      n : Node
      n = node_at l r i

      known : Node
      known = record n { nwk_addr = nwk_addr }

      renewed : IsValid l (put_node l r i known)
      renewed = put_node-IsValid l r i known v refl refl (v.each i)

  module _ (fits : l.max_nodes ≤ 255) (e : Env) (b : Bus) (ieee_addr : ℕ) where
    pub remove_node-IsValid : IsValid l (remove_node l e r b ieee_addr).1
    unfolding remove_node remove_at
    remove_node-IsValid = elim (Bool-cases r.initialized) [
      | inl t ↦ rw (find_node_on r ieee_addr t) (remove_at-IsValid l r v e b ieee_addr _ refl fits)
      | inr f ↦ rw (find_node_off r ieee_addr f) (remove_none f)
    ]
      where
        remove_none : r.initialized ≡ false → IsValid l (remove_at l e r b ieee_addr none).1
        remove_none f = v

    add_found :
        (nwk_addr : ℕ) (o : Option ℕ)
        → find_index (is_node ieee_addr) r.nodes ≡ o
        → IsValid l (add_or_update l e r b ieee_addr nwk_addr o).1
    unfolding add_or_update
    add_found nwk_addr (some i) found = update_node-IsValid e i nwk_addr
    add_found nwk_addr none new = insert_node-IsValid l r v e b ieee_addr nwk_addr new fits _ refl

    pub add_node-IsValid : (nwk_addr : ℕ) → IsValid l (add_node l e r b ieee_addr nwk_addr).1
    unfolding add_node
    add_node-IsValid nwk_addr =
        if_rule (Middle (IsValid l)) (not r.initialized) _ _ (λ _. v)
          (λ f. rw (find_node_on r ieee_addr (ground arith)) (add_found nwk_addr _ refl))
