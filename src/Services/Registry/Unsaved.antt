-- ===== src/Services/Registry/Unsaved.antt =====
-- What `reg_persist` of services/src/registry.c leaves in the store of os/src/os_persist.c.
use esp32_c6_gateway_os.Base.{
  lt→ltb, sym, true-false, bytes_eq, le_bytes, if_false, lt→ltb, ℕ, List, [], ◌∷◌, if◌then◌else◌,
  not, true, some, length, ◌<◌, ◌≤◌, ◌≡◌, refl, ◌*◌, arith, if_rule, ap, if_true, ◌∙◌, ltb,
}
use esp32_c6_gateway_os.Os.Types.{Err, ok, Env, invalid_arg}
use esp32_c6_gateway_os.Os.Persist.Types.{Disk, Store, value_max, IsFaithful, Accepts}
use esp32_c6_gateway_os.Os.Persist.Flush.{with_error}
use esp32_c6_gateway_os.Os.Persist.View.{view, IsValid}
use esp32_c6_gateway_os.Os.Persist.PutView.{put-view}
use esp32_c6_gateway_os.Os.Persist.Ops.{put, put_bytes}
use esp32_c6_gateway_os.Services.Registry.Types.{Node, Registry, Limits}
use esp32_c6_gateway_os.Services.Registry.Storage.{
  node_key, count_key, counted, save_node, save_nodes, save_count, reg_persist, reg_restore,
}

-- The bytes of the values in the attributes of one node.
abbrev pub values_size : Limits → ℕ
values_size l = l.max_endpoints * (l.max_clusters * (l.max_attributes * 32))

-- The image of a struct holds what the struct holds: each node its endpoints, these their clusters,
-- these their attributes, and each of them the 32 bytes of its value.
abbrev pub HoldsValues : Limits → (Node → List ℕ) → Type 0
HoldsValues l image = (n : Node) → values_size l ≤ length (image n)

four_bytes : length (le_bytes 4 0) ≡ 4
unfolding le_bytes
four_bytes = refl

put_refused :
    (disk : Disk) (e : Env) (s : Store disk) (key bytes : List ℕ)
    → value_max < length bytes
    → put disk e s (some key) (some bytes) ≡ (invalid_arg, with_error disk s invalid_arg)
unfolding put put_bytes
put_refused disk e s key bytes long =
    if_rule (λ r. r ≡ (invalid_arg, with_error disk s invalid_arg)) (not s.svc.initialized) _ _
      (λ _. refl)
      (λ _. if_true (ltb value_max (length bytes)) _ _ (lt→ltb value_max (length bytes) long))

reg_restore_ok :
    (disk : Disk) (r : Registry) (s : Store disk)
    → r.initialized ≡ true
    → (reg_restore disk r s).0 ≡ ok
unfolding reg_restore
reg_restore_ok disk r s ready =
    if_rule (λ (p : Err × Store disk). p.0 ≡ ok) (not r.initialized) _ _
      (λ off. absurd (true-false (sym off ∙ ap not ready))) (λ _. refl)

module _ (disk : Disk) (e : Env) (l : Limits) (image : Node → List ℕ) (holds : HoldsValues l image)
    (large : value_max < values_size l) where
  too_long : (n : Node) → value_max < length (image n)
  too_long n = omega (arith, holds n, large)

  -- The store is as it was, but for `last_error`.
  abbrev IsUnsaved : ℕ → Store disk → ℕ × Store disk → Type 0
  IsUnsaved persisted s r = (err : Err) × (r ≡ (persisted, with_error disk s err))

  save_node_refused :
      (persisted : ℕ) (s : Store disk) (n : Node)
      → IsUnsaved persisted s (save_node disk e image (persisted, s) n)
  unfolding save_node counted
  save_node_refused persisted s n =
      if_rule (IsUnsaved persisted s) n.valid _ _
        (λ _. (
          invalid_arg,
          ap (counted disk e image persisted)
              (put_refused disk e s (node_key n.ieee_addr) (image n) (too_long n)),
        ))
        (λ _. (s.svc.last_error, refl))

  save_nodes_refused :
      (ns : List Node) (persisted : ℕ) (s : Store disk)
      → IsUnsaved persisted s (save_nodes disk e image (persisted, s) ns)
  unfolding save_nodes
  save_nodes_refused [] persisted s = (s.svc.last_error, refl)
  save_nodes_refused (n ∷ ns) persisted s =
      let (err, one) = save_node_refused persisted s n in
      let (err', rest) = save_nodes_refused ns persisted (with_error disk s err) in
      (err', ap (λ r. save_nodes disk e image r ns) one ∙ rest)

  module _ (good : IsFaithful disk) (accepts : Accepts disk) where
    save_count-view :
        (s : Store disk) (err : Err)
        → IsValid s.svc
        → s.svc.initialized ≡ true
        → let s' = save_count disk e image (0, with_error disk s err) in
          ((key : List ℕ)
            → view disk s' key
              ≡ (if bytes_eq count_key key then some (le_bytes 4 0) else view disk s key))
          × IsValid s'.svc
          × (s'.svc.initialized ≡ true)
    unfolding save_count
    save_count-view s err v on =
        let (done, seen, valid, on') =
          put-view disk good accepts e (with_error disk s err)
            (record { size = v.size; short = v.short; distinct = v.distinct; counted = v.counted })
            on count_key (le_bytes 4 0) (omega arith) (omega (arith, four_bytes)) in
        (seen, valid, on')

    persist_on :
        (r : Registry) (s : Store disk)
        → r.initialized ≡ true
        → reg_persist disk e image r s
          ≡ (ok, save_count disk e image (save_nodes disk e image (0, s) r.nodes))
    unfolding reg_persist
    persist_on r s ready = if_false (not r.initialized) _ _ (ap not ready)

    -- On an initialised registry and a valid initialised store with files that keep what is written
    -- and take every write, where the values of one node take more than 512 bytes, as they do on
    -- the host and on the ESP32: `reg_persist` and then `reg_restore` both return OS_OK, whatever
    -- the nodes; the store then has the count 0 under "reg/count" and for every other key what it
    -- had, so that no node is saved; and it is valid.
    pub reg_persist_unsaved :
        (r : Registry) (s : Store disk)
        → r.initialized ≡ true
        → IsValid s.svc
        → s.svc.initialized ≡ true
        → let (err, s') = reg_persist disk e image r s in
          (err ≡ ok)
          × ((reg_restore disk r s').0 ≡ ok)
          × ((key : List ℕ)
              → view disk s' key
                ≡ (if bytes_eq count_key key then some (le_bytes 4 0) else view disk s key))
          × IsValid s'.svc
          × (s'.svc.initialized ≡ true)
    reg_persist_unsaved r s ready v on =
        let (err, saved) = save_nodes_refused r.nodes 0 s in
        let (seen, valid, on') = save_count-view s err v on in
        rw (persist_on r s ready, saved) (refl, reg_restore_ok disk r _ ready, seen, valid, on')
