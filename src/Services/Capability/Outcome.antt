-- ===== src/Services/Capability/Outcome.antt =====
-- The result of `cap_compute_for_node` of services/src/capability.c in the cache.
use esp32_c6_gateway_os.Services.Capability.Types.{Service, max_node_caps, NodeCaps, zero_node_caps}
use esp32_c6_gateway_os.Base.{
  ℕ, length, none, ◌≡◌, true, ◌<◌, find_index, Option, some, ◌≢◌, vacant, find_index-lt, has, arith,
  inr, ◌⊎◌, inl, find_index_sound, refl, get_or, not, set, ◌||◌, take, get_or-set_self, if_rule, ap,
  ◌∙◌, length-set, get_or-set_ne,
}
use esp32_c6_gateway_os.Services.Registry.Types.{Node}
use esp32_c6_gateway_os.Services.Capability.Compute.{
  cache_at, compute_at, find_cache, alloc_at, find_or_alloc, compute_for_node, caps_valid,
  scan_endpoints, put_cache,
}
use esp32_c6_gateway_os.Services.Capability.Given.{fresh_caps, endpoint_caps}
use esp32_c6_gateway_os.Services.Capability.Computed.{scanned, live, scan_endpoints-SameOwner}

-- Every array of capabilities of the cache has its eight slots.
abbrev pub IsCache : Service → Type 0
IsCache s = (k : ℕ) → length (cache_at s k).caps ≡ max_node_caps

module _ (s : Service) (n : Node) (v : IsCache s) (on : s.initialized ≡ true)
    (known : n.valid ≡ true) where
  -- At an index, the capabilities of the node and no other's; elsewhere the cache as it was.
  abbrev pub Computes : ℕ → ℕ × Service → Type 0
  Computes i (count, s') =
      ((cache_at s' i).valid ≡ true)
      × ((cache_at s' i).node_addr ≡ n.ieee_addr)
      × (live (cache_at s' i) ≡ take 8 (fresh_caps (endpoint_caps n.endpoints)))
      × ((cache_at s' i).cap_count ≡ count)
      × (count ≡ length (take 8 (endpoint_caps n.endpoints)))
      × ((j : ℕ) → i ≢ j → cache_at s' j ≡ cache_at s j)

  compute_at-Computes :
      (i : ℕ) (s' : Service)
      → i < length s'.cache
      → length (cache_at s' i).caps ≡ max_node_caps
      → (cache_at s' i).valid ≡ true
      → (cache_at s' i).node_addr ≡ n.ieee_addr
      → ((j : ℕ) → i ≢ j → cache_at s' j ≡ cache_at s j)
      → Computes i (compute_at n (some i, s'))
  unfolding compute_at
  compute_at-Computes i s' lt size valid addr others =
      let c : NodeCaps = cache_at s' i in
      let emptied : NodeCaps = record c { cap_count = 0 } in
      let c' : NodeCaps = scan_endpoints emptied n.endpoints in
      let (caps, counted) = scanned emptied n.endpoints size refl in
      let (same_addr, same_valid) = scan_endpoints-SameOwner emptied n.endpoints in
      let stored : get_or (set s'.cache i c') i zero_node_caps ≡ c' =
        get_or-set_self s'.cache i c' zero_node_caps lt in
      (
        ap (λ (d : NodeCaps). d.valid) stored ∙ same_valid ∙ valid,
        ap (λ (d : NodeCaps). d.node_addr) stored ∙ same_addr ∙ addr,
        ap live stored ∙ caps,
        ap (λ (d : NodeCaps). d.cap_count) stored,
        counted,
        (λ j ne. get_or-set_ne s'.cache i j c' zero_node_caps ne ∙ others j ne),
      )

  -- The cache that the node has, or a free one for a node that has none.
  abbrev pub IsOwn : ℕ → Type 0
  IsOwn i =
      (find_cache s n.ieee_addr ≡ some i)
      ⊎ ((find_cache s n.ieee_addr ≡ none)
          × (find_index (vacant caps_valid (λ c. c.node_addr)) s.cache ≡ some i))

  abbrev pub Outcome : ℕ × Service → Type 0
  Outcome r =
      ((find_cache s n.ieee_addr ≡ none)
        × (find_index (vacant caps_valid (λ c. c.node_addr)) s.cache ≡ none)
        × (r ≡ (0, s)))
      ⊎ ((i : ℕ) × IsOwn i × Computes i r)

  alloc_at-Outcome :
      (o : Option ℕ)
      → find_cache s n.ieee_addr ≡ none
      → find_index (vacant caps_valid (λ c. c.node_addr)) s.cache ≡ o
      → Outcome (compute_at n (alloc_at s n.ieee_addr o))
  unfolding alloc_at compute_at
  alloc_at-Outcome none new full = inl (new, full, refl)
  alloc_at-Outcome (some i) new free = inr (
    i,
    inr (new, free),
    compute_at-Computes i (put_cache s i c) (omega (arith, lt, length-set s.cache i c))
        (ap (λ (d : NodeCaps). length d.caps) stored ∙ v i) (ap (λ (d : NodeCaps). d.valid) stored)
        (ap (λ (d : NodeCaps). d.node_addr) stored)
        (λ j ne. get_or-set_ne s.cache i j c zero_node_caps ne),
  )
    where
      old : NodeCaps
      old = cache_at s i

      c : NodeCaps
      c = record old { node_addr = n.ieee_addr; cap_count = 0; valid = true }

      lt : i < length s.cache
      lt = find_index-lt (vacant caps_valid (λ c. c.node_addr)) s.cache i free

      stored : get_or (set s.cache i c) i zero_node_caps ≡ c
      stored = get_or-set_self s.cache i c zero_node_caps lt

  found_lt : (i : ℕ) → find_cache s n.ieee_addr ≡ some i → i < length s.cache
  unfolding find_cache
  found_lt i found = find_index-lt (has caps_valid (λ c. c.node_addr) n.ieee_addr) s.cache i found

  found_own :
      (i : ℕ)
      → find_cache s n.ieee_addr ≡ some i
      → has caps_valid (λ c. c.node_addr) n.ieee_addr (cache_at s i) ≡ true
  unfolding find_cache
  found_own i found =
      find_index_sound (has caps_valid (λ c. c.node_addr) n.ieee_addr) s.cache zero_node_caps i
        found

  found_valid : (i : ℕ) → find_cache s n.ieee_addr ≡ some i → (cache_at s i).valid ≡ true
  found_valid i found = ground (arith, found_own i found)

  found_addr : (i : ℕ) → find_cache s n.ieee_addr ≡ some i → (cache_at s i).node_addr ≡ n.ieee_addr
  found_addr i found = ground (arith, found_own i found)

  find_or_alloc-Outcome :
      (o : Option ℕ)
      → find_cache s n.ieee_addr ≡ o
      → Outcome (compute_at n (find_or_alloc s n.ieee_addr o))
  unfolding find_or_alloc
  find_or_alloc-Outcome none new = alloc_at-Outcome _ new refl
  find_or_alloc-Outcome (some i) found = inr (
    i,
    inl found,
    compute_at-Computes i s (found_lt i found) (v i) (found_valid i found) (found_addr i found)
        (λ j ne. refl),
  )

  -- On an initialised service whose caches have their eight slots, for a valid node,
  -- `cap_compute_for_node` takes the cache of the node, or a free one where it has none, and leaves in
  -- it, in the order of the endpoints and their clusters, the capabilities that the cluster map gives
  -- for the valid clusters of the valid endpoints, the first eight at most, without values. The
  -- number of these is what the cache then counts and what is returned; every other cache is as
  -- before. Only where the node has no cache and none is free it returns 0 and changes nothing.
  pub compute_for_node-caps :
      let r = compute_for_node s (some n) in
      ((find_cache s n.ieee_addr ≡ none)
        × (find_index (vacant caps_valid (λ c. c.node_addr)) s.cache ≡ none)
        × (r ≡ (0, s)))
      ⊎ ((i : ℕ) × IsOwn i × Computes i r)
  unfolding compute_for_node
  compute_for_node-caps =
      if_rule Outcome (not s.initialized || not n.valid) _ _ (λ off. absurd (running off))
        (λ _. find_or_alloc-Outcome (find_cache s n.ieee_addr) refl)
    where
      running : (not s.initialized || not n.valid) ≢ true
      running off = ground (arith, on, known, off)
