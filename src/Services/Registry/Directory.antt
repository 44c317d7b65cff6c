-- ===== src/Services/Registry/Directory.antt =====
-- The device registry of services/src/registry.c as a finite map from IEEE addresses to network
-- addresses: `reg_add_node` writes one entry, `reg_remove_node` takes one away.
use esp32_c6_gateway_os.Os.Types.{Env}
use esp32_c6_gateway_os.Os.Event.State.{Bus}
use esp32_c6_gateway_os.Services.Registry.Types.{
  Limits, Node, Registry, zero_node, node_valid, is_node,
}
use esp32_c6_gateway_os.Services.Registry.Nodes.{
  node_at, put_node, touch_node, fresh_node, update_node, insert_node, find_node, touched,
}
use esp32_c6_gateway_os.Services.Registry.Valid.{IsValid}
use esp32_c6_gateway_os.Services.Registry.Keep.{address, find_node_on}
use esp32_c6_gateway_os.Base.{
  List, ℕ, Option, get_or, ◌<◌, some, find_index, ◌≡◌, length, false, true, set, ◌≢◌,
  find_index_sound, get_or-set_self, find_index-lt, none, sym, if_true, ◌∙◌, arith, ap,
  get_or-set_ne, set-set, find_index-set_same, refl, not, find-fill_self,
}

module _ (l : Limits) where
  abbrev pub entry_at : List Node → Option ℕ → Option ℕ
  entry_at ns none = none
  entry_at ns (some i) = some (get_or ns i (zero_node l)).nwk_addr

  -- The network address under which a device is known.
  unfoldable pub directory : List Node → ℕ → Option ℕ
  directory ns ieee_addr = entry_at ns (find_index (is_node ieee_addr) ns)

  -- A write into a slot that is another device's before and after leaves a device's entry.
  pub directory-set_other :
      (ns : List Node) (i : ℕ) (n : Node) (a : ℕ)
      → is_node a (get_or ns i (zero_node l)) ≡ false
      → is_node a n ≡ false
      → directory (set ns i n) a ≡ directory ns a
  unfolding directory
  directory-set_other ns i n a old after =
      rw (find_index-set_same (is_node a) ns i n (zero_node l) (old ∙ sym after))
        (same_entry (find_index (is_node a) ns) refl)
    where
      same_entry :
          (o : Option ℕ) → find_index (is_node a) ns ≡ o → entry_at (set ns i n) o ≡ entry_at ns o
      same_entry none e = refl
      same_entry (some j) e =
          ap (λ (m : Node). some m.nwk_addr) (get_or-set_ne ns i j n (zero_node l) other)
        where
          other : i ≢ j
          other p =
              let hit : is_node a (get_or ns j (zero_node l)) ≡ true =
                find_index_sound (is_node a) ns (zero_node l) j e in
              cc (sym old ∙ ap (λ (k : ℕ). is_node a (get_or ns k (zero_node l))) p ∙ hit)

  touch_node-put :
      (e : Env) (r : Registry) (i : ℕ) (n : Node)
      → node_at l r i ≡ n
      → n.valid ≡ true
      → touch_node l e r (some i) ≡ put_node l r i (touched l e n)
  unfolding touch_node
  touch_node-put e r i n p t =
      if_true (node_at l r i).valid _ _ (ap (λ (m : Node). m.valid) p ∙ t)
      ∙ ap (λ m. put_node l r i (touched l e m)) p

  -- A known node: one write into its slot.
  update_node-put :
      (e : Env) (r : Registry) (i nwk_addr : ℕ)
      → i < length r.nodes
      → (node_at l r i).valid ≡ true
      → update_node l e r i nwk_addr
        ≡ put_node l r i
            (let n : Node = node_at l r i in record n { nwk_addr = nwk_addr; last_seen = e.now })
  unfolding update_node
  update_node-put e r i nwk_addr lt valid =
      touch_node-put e (put_node l r i known) i known
        (get_or-set_self r.nodes i known (zero_node l) lt) valid
      ∙ ap (λ ns. record r { nodes = ns }) (set-set r.nodes i known (touched l e known))
    where
      n : Node
      n = node_at l r i

      known : Node
      known = record n { nwk_addr = nwk_addr }

  module _ (e : Env) (r : Registry) (v : IsValid l r) (on : r.initialized ≡ true) (b : Bus)
      (ieee_addr : ℕ) where
    -- What `reg_add_node` leaves where it returns the node in slot `i`.
    pub record Added (nwk_addr i : ℕ) (r' : Registry) : Type 0 where
      pub still_on : r'.initialized ≡ true
      pub found : find_node r' ieee_addr ≡ some i
      pub entry : (node_at l r' i).nwk_addr ≡ nwk_addr
      pub seen : (node_at l r' i).last_seen ≡ e.now
      pub others : (a : ℕ) → ieee_addr ≢ a → directory r'.nodes a ≡ directory r.nodes a

    -- The device's node is written into slot `i`, which was its own or free.
    placed :
        (i : ℕ) (n : Node) (r' : Registry)
        → r'.initialized ≡ true
        → r'.nodes ≡ set r.nodes i n
        → i < length r.nodes
        → n.ieee_addr ≡ ieee_addr
        → n.last_seen ≡ e.now
        → find_index (is_node ieee_addr) (set r.nodes i n) ≡ some i
        → ((a : ℕ) → ieee_addr ≢ a → is_node a (get_or r.nodes i (zero_node l)) ≡ false)
        → Added n.nwk_addr i r'
    placed i n r' on' ns lt own now found old = record {
      still_on = on';
      found = find_node_on r' ieee_addr on' ∙ ap (find_index (is_node ieee_addr)) ns ∙ found;
      entry = ap (λ (m : Node). m.nwk_addr) here;
      seen = ap (λ (m : Node). m.last_seen) here ∙ now;
      others = λ a ne.
          ap (λ ms. directory ms a) ns
          ∙ directory-set_other r.nodes i n a (old a ne) (ground (arith, own));
    }
      where
        here : node_at l r' i ≡ n
        here =
            ap (λ ms. get_or ms i (zero_node l)) ns ∙ get_or-set_self r.nodes i n (zero_node l) lt

    pub updated :
        (nwk_addr i : ℕ)
        → find_index (is_node ieee_addr) r.nodes ≡ some i
        → Added nwk_addr i (update_node l e r i nwk_addr)
    updated nwk_addr i found = rw (update_node-put e r i nwk_addr lt hit.0) (
        placed i known _ on refl lt hit.1 refl
          (find_index-set_same (is_node ieee_addr) r.nodes i known (zero_node l) refl ∙ found)
          (λ a ne. ground (arith, hit)))
      where
        lt : i < length r.nodes
        lt = find_index-lt (is_node ieee_addr) r.nodes i found

        n : Node
        n = node_at l r i

        hit : (n.valid ≡ true) × (n.ieee_addr ≡ ieee_addr)
        hit = ground (arith, find_index_sound (is_node ieee_addr) r.nodes (zero_node l) i found)

        known : Node
        known = record n { nwk_addr = nwk_addr; last_seen = e.now }

    pub inserted :
        (nwk_addr i : ℕ)
        → find_index (is_node ieee_addr) r.nodes ≡ none
        → find_index (λ n. not (node_valid n)) r.nodes ≡ some i
        → Added nwk_addr i (insert_node l e r b ieee_addr nwk_addr (some i)).1
    unfolding insert_node
    inserted nwk_addr i new free =
        placed i n _ on refl (find_index-lt _ r.nodes i free) refl refl
          (find-fill_self node_valid address r.nodes v.table (zero_node l) i n free new refl)
          (λ a ne.
            ground (arith, find_index_sound (λ n. not (node_valid n)) r.nodes (zero_node l) i free))
      where
        n : Node
        n = fresh_node l e ieee_addr nwk_addr
