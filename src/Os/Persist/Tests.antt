-- ===== src/Os/Persist/Tests.antt =====
-- The host's store on concrete files: the theorems about os/src/os_persist.c there.
use esp32_c6_gateway_os.Base.{
  ℕ, List, [], find_index, if_true, none, some, ◌≡◌, suc, refl, true, bytes_eq, length,
  bytes_eq_self, ◌∷◌, if◌then◌else◌, if_false, count_if, set, bytes_eq_ne, ◌≤◌, arith, ◌⊎◌, ◌+◌,
  zero, ◌≢◌, codes,
}
use esp32_c6_gateway_os.Os.Persist.Types.{Disk, Store, Entry}
use esp32_c6_gateway_os.Os.Persist.Loss.{Refuses, put_lost}
use esp32_c6_gateway_os.Os.Types.{Env, ok, not_found}
use esp32_c6_gateway_os.Os.Persist.Ops.{put, get, is_unused, holds, got, new_entry, del}
use esp32_c6_gateway_os.Os.Persist.Flush.{flush}
use esp32_c6_gateway_os.Os.Event.State.{zero_bus}
use esp32_c6_gateway_os.Os.Persist.View.{view, IsValid, flush-view}
use esp32_c6_gateway_os.Os.Persist.PutView.{put-view}
use esp32_c6_gateway_os.Os.Persist.PutSlot.{entry}
use esp32_c6_gateway_os.Os.Persist.Lookup.{is_used}
use esp32_c6_gateway_os.Os.Persist.GetView.{get-view}
use esp32_c6_gateway_os.Os.Persist.DelView.{Unlinks, del-view}
use esp32_c6_gateway_os.Os.Persist.Memory.{
  memory, memory-IsFaithful, memory-Accepts, started, empty_store, empty_store-IsValid,
}

-- Files on a medium that takes no write.
abbrev broken : Disk
broken = record memory { write = λ fs path bytes. (none, fs) }

broken-Refuses : Refuses broken
broken-Refuses fs path bytes = refl

abbrev env : Env
env = record { now = 7; padding = λ i. 0 }

put-view_example :
    let (err, s') = put memory env empty_store (some (codes "node")) (some (1 ∷ 2 ∷ [])) in
    (err ≡ ok)
    × ((other : List ℕ)
        → view memory s' other ≡ (
            if bytes_eq (codes "node") other
            then some (1 ∷ 2 ∷ [])
            else view memory empty_store other))
    × IsValid s'.svc
    × (s'.svc.initialized ≡ true)
put-view_example =
    put-view memory memory-IsFaithful memory-Accepts env empty_store empty_store-IsValid refl
      (codes "node") (1 ∷ 2 ∷ []) (omega arith) (omega arith)

flush-view_example :
    let (err, s') = flush memory env empty_store in
    (err ≡ ok)
    × ((key : List ℕ) → view memory s' key ≡ view memory empty_store key)
    × (count_if is_used s'.svc.write_buffer ≡ 0)
    × (s'.svc.writes_buffered ≡ 0)
    × IsValid s'.svc
    × (s'.svc.initialized ≡ true)
flush-view_example =
    flush-view memory memory-IsFaithful memory-Accepts env empty_store empty_store-IsValid refl

get-view_example :
    let (g, s') = get memory empty_store (some (codes "node")) 4 in
    ((other : List ℕ) → view memory s' other ≡ view memory empty_store other)
    × (((view memory empty_store (codes "node") ≡ none) × (g ≡ got not_found [] 0))
        ⊎ ((bytes : List ℕ) × (view memory empty_store (codes "node") ≡ some bytes)
            × (length bytes ≤ 4 → g ≡ got ok bytes (length bytes))))
get-view_example = get-view memory empty_store refl (codes "node") 4

-- A full buffer, its entries under the keys of one letter from "a" on.
abbrev letters : ℕ → ℕ → List Entry
letters c zero = []
letters c (suc n) = entry (c ∷ []) (c ∷ []) ∷ letters (c + 1) n

abbrev full_store : Store broken
full_store = record {
  svc = record started { write_buffer = letters 97 16; writes_buffered = 16 };
  files = λ path. none;
  bus = zero_bus;
}

find_none_unused : find_index is_unused full_store.svc.write_buffer ≡ none
unfolding find_index
find_none_unused = refl

find_none_z : find_index (holds (codes "z")) full_store.svc.write_buffer ≡ none
unfolding find_index holds
find_none_z = refl

put_lost_example :
    let (err, s') = put broken env full_store (some (codes "z")) (some (1 ∷ [])) in
    (err ≡ ok)
    × (s'.svc.write_buffer ≡ set full_store.svc.write_buffer 0 (new_entry (codes "z") (1 ∷ [])))
    × (s'.files ≡ full_store.files)
    × (s'.svc.writes_buffered ≡ 1)
put_lost_example =
    put_lost broken broken-Refuses env full_store refl (codes "z") (1 ∷ []) (omega arith)
      find_none_unused find_none_z

memory-Unlinks : Unlinks memory
memory-Unlinks = record {
  removes = λ fs path. refl;
  read-unlink = λ fs path. if_true (bytes_eq path path) _ _ (bytes_eq_self path);
  read-unlink_ne =
      λ fs path other ne. if_false (bytes_eq path other) _ _ (bytes_eq_ne path other ne);
}

abbrev one_stored : Store memory
one_stored = (put memory env empty_store (some (codes "node")) (some (1 ∷ 2 ∷ []))).1

del-view_example :
    let (err, s') = del memory one_stored (some (codes "node")) in
    (err ≡ ok)
    × (view memory s' (codes "node") ≡ none)
    × ((other : List ℕ)
        → codes "node" ≢ other
        → view memory s' other ≡ view memory one_stored other)
    × IsValid s'.svc
del-view_example =
    let (done, seen, valid, on) = put-view_example in
    del-view memory memory-Unlinks one_stored valid on (codes "node") (omega arith)
