-- ===== src/Services/Registry/Storage.antt =====
-- services/src/registry.c: `reg_persist` and `reg_restore`, over the store of os/src/os_persist.c.
-- `image` gives the bytes of a node in memory, which the compiler lays out.
use esp32_c6_gateway_os.Base.{
  get_or, ℕ, List, [], ◌∷◌, if◌then◌else◌, not, some, codes, add32, ◌++◌, snprintf, hex, le_bytes,
}
use esp32_c6_gateway_os.Os.Types.{Err, ok, Env, not_initialized}
use esp32_c6_gateway_os.Os.Persist.Types.{Disk, Store}
use esp32_c6_gateway_os.Os.Persist.Ops.{put, get}
use esp32_c6_gateway_os.Services.Registry.Types.{Node, Registry}

-- The key of a node, in an array of 32 bytes.
unfoldable pub node_key : ℕ → List ℕ
node_key ieee_addr = snprintf 32 (codes "node/" ++ hex 16 ieee_addr)

abbrev pub count_key : List ℕ
count_key = codes "reg/count"

module _ (disk : Disk) (e : Env) (image : Node → List ℕ) where
  -- `persisted` and the store after `os_persist_put` of a node
  unfoldable pub counted : ℕ → Err × Store disk → ℕ × Store disk
  counted persisted (ok, s) = (add32 persisted 1, s)
  counted persisted (err, s) = (persisted, s)

  unfoldable pub save_node : ℕ × Store disk → Node → ℕ × Store disk
  save_node (persisted, s) n =
      if n.valid
      then counted persisted (put disk e s (some (node_key n.ieee_addr)) (some (image n)))
      else (persisted, s)

  -- The loop of `reg_persist`
  unfoldable pub save_nodes : ℕ × Store disk → List Node → ℕ × Store disk
  save_nodes r [] = r
  save_nodes r (n ∷ ns) = save_nodes (save_node r n) ns

  unfoldable pub save_count : ℕ × Store disk → Store disk
  save_count (persisted, s) = (put disk e s (some count_key) (some (le_bytes 4 persisted))).1

  -- `reg_persist`
  unfoldable pub reg_persist : Registry → Store disk → Err × Store disk
  reg_persist r s =
      if not r.initialized
      then (not_initialized, s)
      else (ok, save_count (save_nodes (0, s) r.nodes))

-- `reg_restore`: the count that is read is only logged.
unfoldable pub reg_restore : (disk : Disk) → Registry → Store disk → Err × Store disk
reg_restore disk r s =
    if not r.initialized then (not_initialized, s) else (ok, (get disk s (some count_key) 4).1)

-- `reg_state_name`, with `state_names`
unfoldable pub state_name : ℕ → List ℕ
state_name state =
    get_or
      (codes "NEW"
        ∷ codes "ANNOUNCED"
        ∷ codes "INTERVIEWING"
        ∷ codes "READY"
        ∷ codes "OFFLINE"
        ∷ codes "FAILED"
        ∷ codes "STALE"
        ∷ codes "LEFT"
        ∷ [])
      state (codes "UNKNOWN")
