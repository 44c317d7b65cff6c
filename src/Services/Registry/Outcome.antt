-- ===== src/Services/Registry/Outcome.antt =====
-- What `reg_add_node` and `reg_remove_node` of services/src/registry.c return, change and publish.
use esp32_c6_gateway_os.Base.{
  ℕ, ◌≡◌, ◌≢◌, ◌⊎◌, inl, inr, none, some, true, Option, find_index, if_rule, ◌+◌, ◌≤◌, not, sym,
  le_bytes, arith, ◌∙◌, refl, find_index-not-none, ap, find_index_sound, some≢none, find-clear_self,
  count_in, clear-pos, false,
}
use esp32_c6_gateway_os.Os.Types.{Err, ok, not_found, Env}
use esp32_c6_gateway_os.Os.Event.State.{Bus, event_zb_device_joined, event_zb_device_left}
use esp32_c6_gateway_os.Os.Event.Publish.{emit}
use esp32_c6_gateway_os.Services.Registry.Types.{
  Limits, Node, Registry, zero_node, node_valid, is_node,
}
use esp32_c6_gateway_os.Services.Registry.Nodes.{
  node_at, joined_payload, insert_node, add_or_update, add_node, remove_at, remove_node, find_node,
}
use esp32_c6_gateway_os.Services.Registry.Valid.{IsValid}
use esp32_c6_gateway_os.Services.Registry.Keep.{address, find_node_on}
use esp32_c6_gateway_os.Services.Registry.Directory.{
  directory, directory-set_other, Added, updated, inserted,
}

module _ (l : Limits) (e : Env) (r : Registry) (v : IsValid l r) (on : r.initialized ≡ true)
    (b : Bus) (ieee_addr : ℕ) where
  -- The bus after an addition: silent for a known device, a joined event for a new one.
  abbrev pub Announced : ℕ → Bus → Type 0
  Announced nwk_addr b' =
      ((find_node r ieee_addr ≢ none) × (b' ≡ b))
      ⊎ ((find_node r ieee_addr ≡ none)
          × (b' ≡ (emit e b event_zb_device_joined (joined_payload l e ieee_addr nwk_addr)).1))

  abbrev Addition : ℕ → Option ℕ × Registry × Bus → Type 0
  Addition nwk_addr (p, r', b') =
      ((p ≡ none)
        × (find_node r ieee_addr ≡ none)
        × (r.node_count ≡ l.max_nodes)
        × (r' ≡ r)
        × (b' ≡ b))
      ⊎ ((i : ℕ) × (p ≡ some i)
          × Added l e r v on b ieee_addr nwk_addr i r'
          × Announced nwk_addr b')

  all_taken : find_index (λ n. not (node_valid n)) r.nodes ≡ none → r.node_count ≡ l.max_nodes
  all_taken free = omega (
    arith,
    v.table.counted,
    v.table.size,
    find_index-not-none node_valid (λ n. not (node_valid n)) r.nodes (λ n. refl) free,
  )

  unknown : find_node r ieee_addr ≡ none → find_index (is_node ieee_addr) r.nodes ≡ none
  unknown new = sym (find_node_on r ieee_addr on) ∙ new

  insert_node-Addition :
      (nwk_addr : ℕ) (o : Option ℕ)
      → find_node r ieee_addr ≡ none
      → find_index (λ n. not (node_valid n)) r.nodes ≡ o
      → Addition nwk_addr (insert_node l e r b ieee_addr nwk_addr o)
  unfolding insert_node
  insert_node-Addition nwk_addr none new free = inl (refl, new, all_taken free, refl, refl)
  insert_node-Addition nwk_addr (some i) new free =
      inr (i, refl, inserted l e r v on b ieee_addr nwk_addr i (unknown new) free, inr (new, refl))

  add_or_update-Addition :
      (nwk_addr : ℕ) (o : Option ℕ)
      → find_node r ieee_addr ≡ o
      → Addition nwk_addr (add_or_update l e r b ieee_addr nwk_addr o)
  unfolding add_or_update
  add_or_update-Addition nwk_addr none new = insert_node-Addition nwk_addr _ new refl
  add_or_update-Addition nwk_addr (some i) found = inr (
    i,
    refl,
    updated l e r v on b ieee_addr nwk_addr i (sym (find_node_on r ieee_addr on) ∙ found),
    inl (some≢none found, refl),
  )

  -- On a valid initialised registry, `reg_add_node` refuses (NULL, nothing changed) only an unknown
  -- device of a full registry. Otherwise it returns the node under which the device is then found,
  -- with the new network address and the current time, leaves the entry of every other
  -- device, and publishes a joined event exactly when the device was unknown.
  pub add_node-directory :
      (nwk_addr : ℕ)
      → let (p, r', b') = add_node l e r b ieee_addr nwk_addr in
        ((p ≡ none)
          × (find_node r ieee_addr ≡ none)
          × (r.node_count ≡ l.max_nodes)
          × (r' ≡ r)
          × (b' ≡ b))
        ⊎ ((i : ℕ) × (p ≡ some i)
            × Added l e r v on b ieee_addr nwk_addr i r'
            × Announced nwk_addr b')
  unfolding add_node
  add_node-directory nwk_addr =
      if_rule (Addition nwk_addr) (not r.initialized) _ _ (λ f. cc (sym f ∙ ap not on))
        (λ _. add_or_update-Addition nwk_addr (find_node r ieee_addr) refl)

  abbrev Removal : Err × Registry × Bus → Type 0
  Removal (err, r', b') =
      ((find_node r ieee_addr ≡ none) × (err ≡ not_found) × (r' ≡ r) × (b' ≡ b))
      ⊎ ((find_node r ieee_addr ≢ none)
          × (err ≡ ok)
          × (find_node r' ieee_addr ≡ none)
          × ((a : ℕ) → ieee_addr ≢ a → directory l r'.nodes a ≡ directory l r.nodes a)
          × (r'.node_count + 1 ≡ r.node_count)
          × (b' ≡ (emit e b event_zb_device_left (le_bytes 8 ieee_addr)).1))

  remove_at-Removal :
      (o : Option ℕ)
      → find_node r ieee_addr ≡ o
      → l.max_nodes ≤ 255
      → Removal (remove_at l e r b ieee_addr o)
  unfolding remove_at
  remove_at-Removal none new fits = inl (new, refl, refl, refl)
  remove_at-Removal (some i) found fits = inr (
    some≢none found,
    refl,
    find_node_on _ ieee_addr on
        ∙ find-clear_self node_valid address r.nodes v.table (zero_node l) i ieee_addr gone hit
            refl,
    (λ a ne. directory-set_other l r.nodes i gone a (ground (arith, was)) refl),
    omega (
      arith,
      count_in node_valid address r.nodes v.table (zero_node l),
      clear-pos node_valid address r.nodes v.table (zero_node l) i ieee_addr gone hit refl,
    ),
    refl,
  )
    where
      n : Node
      n = node_at l r i

      gone : Node
      gone = record n { valid = false }

      hit : find_index (is_node ieee_addr) r.nodes ≡ some i
      hit = sym (find_node_on r ieee_addr on) ∙ found

      was : (n.valid ≡ true) × (n.ieee_addr ≡ ieee_addr)
      was = ground (arith, find_index_sound (is_node ieee_addr) r.nodes (zero_node l) i hit)

  -- On a valid initialised registry, `reg_remove_node` of an unknown device returns
  -- OS_ERR_NOT_FOUND and changes nothing; of a known device it takes away this entry and no
  -- other, counts one node less and publishes a left event.
  pub remove_node-directory :
      l.max_nodes ≤ 255
      → let (err, r', b') = remove_node l e r b ieee_addr in
        ((find_node r ieee_addr ≡ none) × (err ≡ not_found) × (r' ≡ r) × (b' ≡ b))
        ⊎ ((find_node r ieee_addr ≢ none)
            × (err ≡ ok)
            × (find_node r' ieee_addr ≡ none)
            × ((a : ℕ) → ieee_addr ≢ a → directory l r'.nodes a ≡ directory l r.nodes a)
            × (r'.node_count + 1 ≡ r.node_count)
            × (b' ≡ (emit e b event_zb_device_left (le_bytes 8 ieee_addr)).1))
  unfolding remove_node
  remove_node-directory fits = remove_at-Removal (find_node r ieee_addr) refl fits
