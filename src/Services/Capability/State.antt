-- ===== src/Services/Capability/State.antt =====
-- What a report (`cap_handle_attribute_report` of services/src/capability.c) does to the states that
-- `cap_get_state` gives.
use esp32_c6_gateway_os.Base.{
  ℕ, some, none, ◌≡◌, ap, ◌<◌, ◌==◌, ◌≤◌, find_index-lt, length, take, set, find_index,
  get_or-set_self, ◌≢◌, arith, take-set, get_or-set_ne, length-take-le, ◌∙◌, find_index-set_same,
  get_or-take, sym, eq_sound, has, Option, find_index_sound, ap₂, refl, ◌&&◌, ◌⊎◌, Bool-cases, inl,
  inr, second_true, subst, eq_false,
}
use esp32_c6_gateway_os.Services.Capability.Types.{
  CapId, cap_number, CapState, NodeCaps, Service, zero_cap, zero_node_caps,
}
use esp32_c6_gateway_os.Services.Capability.Compute.{find_cache, cache_at, put_cache, caps_valid}
use esp32_c6_gateway_os.Services.Capability.Report.{
  is_cap, find_cap_in_cache, cap_at, state_of, state_in,
}
use esp32_c6_gateway_os.Os.Types.{ok}

cap_number-inj : (a b : CapId) → cap_number a ≡ cap_number b → is_cap a ≡ is_cap b
cap_number-inj a b e = ap (λ n c. cap_number c.id == n) e

abbrev pub rewritten : NodeCaps → ℕ → CapState → NodeCaps
rewritten c k x = record c { caps = set c.caps k x }

abbrev pub written : Service → ℕ → ℕ → CapState → Service
written s i k x = put_cache s i (rewritten (cache_at s i) k x)

-- One capability of a cache is rewritten, its id kept.
module _ (c : NodeCaps) (k : ℕ) (x : CapState) (same : x.id ≡ (cap_at c k).id)
    (lt : k < c.cap_count) (sized : c.cap_count ≤ length c.caps) where
  find-rewritten : (id : CapId) → find_cap_in_cache (rewritten c k x) id ≡ find_cap_in_cache c id
  unfolding find_cap_in_cache
  find-rewritten id =
      ap (find_index (is_cap id)) (take-set c.cap_count c.caps k x)
      ∙ find_index-set_same (is_cap id) (take c.cap_count c.caps) k x zero_cap (
          ap (λ i. cap_number i == cap_number id)
            (ap (λ y. y.id) (get_or-take c.cap_count c.caps k zero_cap lt) ∙ sym same))

  cap-rewritten_self : cap_at (rewritten c k x) k ≡ x
  cap-rewritten_self = get_or-set_self c.caps k x zero_cap (omega arith)

  cap-rewritten_ne : (j : ℕ) → k ≢ j → cap_at (rewritten c k x) j ≡ cap_at c j
  cap-rewritten_ne j ne = get_or-set_ne c.caps k j x zero_cap ne

-- The index found has the id.
pub found_id :
    (c : NodeCaps) (id : CapId) (k : ℕ)
    → find_cap_in_cache c id ≡ some k
    → (k < c.cap_count) × (cap_number (cap_at c k).id ≡ cap_number id)
unfolding find_cap_in_cache
found_id c id k e =
    let lt = find_index-lt (is_cap id) (take c.cap_count c.caps) k e in
    let in_count : k < c.cap_count = omega (arith, length-take-le c.cap_count c.caps) in
    (
      in_count,
      eq_sound (cap_number (cap_at c k).id) (cap_number id) (
          ap (is_cap id) (sym (get_or-take c.cap_count c.caps k zero_cap in_count))
          ∙ find_index_sound (is_cap id) (take c.cap_count c.caps) zero_cap k e),
    )

module _ (s : Service) (i : ℕ) (c : NodeCaps)
    (same : (c.valid ≡ (cache_at s i).valid) × (c.node_addr ≡ (cache_at s i).node_addr)) where
  find-put : (node_addr : ℕ) → find_cache (put_cache s i c) node_addr ≡ find_cache s node_addr
  unfolding find_cache
  find-put node_addr =
      find_index-set_same (has caps_valid (λ x. x.node_addr) node_addr) s.cache i c zero_node_caps
        (ap₂ (λ v a. v && a == node_addr) (sym same.0) (sym same.1))

the_state : Option CapState → CapState
the_state none = zero_cap
the_state (some c) = c

cache_lt : (s : Service) (node_addr i : ℕ) → find_cache s node_addr ≡ some i → i < length s.cache
unfolding find_cache
cache_lt s node_addr i e = find_index-lt (has caps_valid (λ x. x.node_addr) node_addr) s.cache i e

cache_addr :
    (s : Service) (node_addr i : ℕ)
    → find_cache s node_addr ≡ some i
    → (cache_at s i).node_addr ≡ node_addr
unfolding find_cache
cache_addr s node_addr i e = eq_sound (cache_at s i).node_addr node_addr (
    second_true (cache_at s i).valid _
      (find_index_sound (has caps_valid (λ x. x.node_addr) node_addr) s.cache zero_node_caps i e))

-- A capability that is found: its cache, its place there, its state.
module _ (s : Service) (node_addr : ℕ) (id : CapId) (old : CapState) where
  abbrev pub Found : Type 0
  Found =
      (i : ℕ) × (k : ℕ) × (find_cache s node_addr ≡ some i)
      × (find_cap_in_cache (cache_at s i) id ≡ some k)
      × (cap_at (cache_at s i) k ≡ old)

  cap_found :
      (i : ℕ) (o : Option ℕ)
      → find_cache s node_addr ≡ some i
      → find_cap_in_cache (cache_at s i) id ≡ o
      → state_of (cache_at s i) o ≡ (ok, some old)
      → Found
  unfolding state_of the_state
  cap_found i none e f h = cc
  cap_found i (some k) e f h = (i, k, e, f, ap (λ r. the_state r.1) h)

  pub cache_found :
      (o : Option ℕ) → find_cache s node_addr ≡ o → state_in s o id ≡ (ok, some old) → Found
  unfolding state_in
  cache_found none e h = cc
  cache_found (some i) e h = cap_found i (find_cap_in_cache (cache_at s i) id) e refl h

-- The state of a capability that was found is replaced; every other is as before.
module _ (s : Service) (node_addr : ℕ) (id : CapId) (i k : ℕ) (x : CapState)
    (found : find_cache s node_addr ≡ some i) (cap : find_cap_in_cache (cache_at s i) id ≡ some k)
    (same : x.id ≡ (cap_at (cache_at s i) k).id)
    (sized : (cache_at s i).cap_count ≤ length (cache_at s i).caps) where
  lt : k < (cache_at s i).cap_count
  lt = (found_id (cache_at s i) id k cap).0

  pub find-written : (a : ℕ) → find_cache (written s i k x) a ≡ find_cache s a
  find-written a = find-put s i (rewritten (cache_at s i) k x) (refl, refl) a

  cache-written : cache_at (written s i k x) i ≡ rewritten (cache_at s i) k x
  cache-written = get_or-set_self s.cache i _ zero_node_caps (cache_lt s node_addr i found)

  pub written_self :
      state_in (written s i k x) (find_cache (written s i k x) node_addr) id ≡ (ok, some x)
  unfolding state_in state_of
  written_self =
      ap (λ o. state_in (written s i k x) o id) (find-written node_addr ∙ found)
      ∙ ap (λ c. state_of c (find_cap_in_cache c id)) cache-written
      ∙ ap (state_of (rewritten (cache_at s i) k x))
          (find-rewritten (cache_at s i) k x same lt sized id ∙ cap)
      ∙ ap (λ c. (ok, some c)) (cap-rewritten_self (cache_at s i) k x same lt sized)

  rewritten_other :
      (id' : CapId) (o : Option ℕ)
      → find_cap_in_cache (cache_at s i) id' ≡ o
      → cap_number id' ≢ cap_number id
      → state_of (rewritten (cache_at s i) k x) o ≡ state_of (cache_at s i) o
  unfolding state_of
  rewritten_other id' none e ne = refl
  rewritten_other id' (some j) e ne =
      ap (λ c. (ok, some c))
        (cap-rewritten_ne (cache_at s i) k x same lt sized j (λ q. ne (
          sym (found_id (cache_at s i) id' j e).1
          ∙ ap (λ n. cap_number (cap_at (cache_at s i) n).id) (sym q)
          ∙ (found_id (cache_at s i) id k cap).1)))

  written_here :
      (id' : CapId)
      → cap_number id' ≢ cap_number id
      → state_of
          (cache_at (written s i k x) i)
          (find_cap_in_cache (cache_at (written s i k x) i) id')
        ≡ state_of (cache_at s i) (find_cap_in_cache (cache_at s i) id')
  written_here id' ne =
      ap (λ c. state_of c (find_cap_in_cache c id')) cache-written
      ∙ ap (state_of (rewritten (cache_at s i) k x))
          (find-rewritten (cache_at s i) k x same lt sized id')
      ∙ rewritten_other id' (find_cap_in_cache (cache_at s i) id') refl ne

  other_cap :
      (a : ℕ) (id' : CapId) (j : ℕ)
      → find_cache s a ≡ some j
      → i ≡ j
      → (a ≢ node_addr) ⊎ (cap_number id' ≢ cap_number id)
      → cap_number id' ≢ cap_number id
  other_cap a id' j e q (inr ne) = ne
  other_cap a id' j e q (inl ne) = absurd (
      ne (
        sym (cache_addr s a j e)
        ∙ ap (λ n. (cache_at s n).node_addr) (sym q)
        ∙ cache_addr s node_addr i found))

  pub written_at :
      (a : ℕ) (id' : CapId) (o : Option ℕ)
      → find_cache s a ≡ o
      → (a ≢ node_addr) ⊎ (cap_number id' ≢ cap_number id)
      → state_in (written s i k x) o id' ≡ state_in s o id'
  unfolding state_in
  written_at a id' none e other = refl
  written_at a id' (some j) e other = elim (Bool-cases (i == j)) [
    | inl t ↦
        subst
          (λ n.
            state_of (cache_at (written s i k x) n)
              (find_cap_in_cache (cache_at (written s i k x) n) id')
            ≡ state_of (cache_at s n) (find_cap_in_cache (cache_at s n) id'))
          (eq_sound i j t) (written_here id' (other_cap a id' j e (eq_sound i j t) other))
    | inr f ↦
        ap (λ c. state_of c (find_cap_in_cache c id'))
          (get_or-set_ne s.cache i j _ zero_node_caps (λ q. eq_false i j f q))
  ]
