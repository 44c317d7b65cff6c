-- ===== src/Drivers/Zigbee/Leak.antt =====
-- The pending slots of drivers/zigbee/zb_real.c over a run of the adapter: the commands of
-- drivers/zigbee/zb_cmd.c, the signals and the status callbacks of the stack.
use esp32_c6_gateway_os.Os.Types.{Env, Err, ok}
use esp32_c6_gateway_os.Base.{
  ℕ, List, [], false, true, Bool, ◌∷◌, find_index, Option, length, get_or, ◌≡◌, ◌+◌, some, count_if,
  none, set, refl, length-set, ◌∙◌, each-set, arith, ◌<◌, add_zero, suc, find_index-lt,
  find_index_sound, ap, if_rule, each-replicate, ◌≤◌, one_if, not, leb, count_if-replicate,
  count_if-le-length, count_if-set, get_or-set_self, ◌==◌,
}
use esp32_c6_gateway_os.Os.Types.{Err, Env}
use esp32_c6_gateway_os.Drivers.Zigbee.State.{
  Adapter, Pending, zero_pending, max_pending, state_transition, zero_pendings, boot, ZbState,
  error, allowed, initializing, is_ready, max_devices, uninitialized, ready,
}
use esp32_c6_gateway_os.Os.Event.State.{Bus}
use esp32_c6_gateway_os.Drivers.Zigbee.Signals.{
  zba_init, Signal, app_signal_handler, send_status_cb, init_from, started, first_start, status_at,
  reboot, formation, device_annce, skip_startup, other,
}
use esp32_c6_gateway_os.Drivers.Zigbee.Commands.{
  send_onoff, Request, send_level, requested, with_slot, send,
}
use esp32_c6_gateway_os.Drivers.Zigbee.Pending.{
  pending_cmd_free, slot_free, awaits, put_pending, slot_used, pending_for,
  pending_cmd_lookup_by_tsn, alloc_at, pending_cmd_alloc,
}
use esp32_c6_gateway_os.Drivers.Zigbee.Cache.{insert_at, nwk_cache_insert, lookup_nwk, cache_index}

-- What happens to the adapter, with the answers of the stack.
pub data Step : Type 0 where
  inits : Bool → Step
  sends_onoff : Env → ℕ → ℕ → Bool → ℕ → Bool → Step
  sends_level : Env → ℕ → ℕ → ℕ → ℕ → ℕ → Bool → Step
  signals : Env → Signal → Step
  statuses : Env → ℕ → Bool → Step

abbrev pub one_ok : Err → ℕ
one_ok ok = 1
one_ok _ = 0

-- The number of the commands that returned OS_OK, with the adapter and the bus.
abbrev pub Log : Type 0
Log = ℕ × Adapter × Bus

abbrev pub counted : ℕ → Bus → Err × Option Request × Adapter → Log
counted n b (err, r, a) = (n + one_ok err, a, b)

unfoldable pub step : Step → Log → Log
step (inits created) (n, a, b) = (n, (zba_init a created).1, b)
step (sends_onoff e node_id endpoint on corr_id sent) (n, a, b) =
    counted n b (send_onoff e a node_id endpoint on corr_id sent)
step (sends_level e node_id endpoint level ms corr_id sent) (n, a, b) =
    counted n b (send_level e a node_id endpoint level ms corr_id sent)
step (signals e s) (n, a, b) = let (a', b') = app_signal_handler e a b s in (n, a', b')
step (statuses e tsn success) (n, a, b) =
    let (a', b') = send_status_cb e a b tsn success in (n, a', b')

unfoldable pub steps : List Step → Log → Log
steps [] g = g
steps (s ∷ ss) g = steps ss (step s g)

-- The slots in use are as many as the commands accepted, and none has its transaction number.
pub record Leaks (n : ℕ) (pending : List Pending) : Type 0 where
  pub size : length pending ≡ max_pending
  pub untagged : (k : ℕ) → (get_or pending k zero_pending).tsn_valid ≡ false
  pub used : count_if slot_used pending ≡ n

abbrev LogLeaks : Log → Type 0
LogLeaks (n, a, b) = Leaks n a.pending

awaits-none :
    (tsn : ℕ) (xs : List Pending)
    → ((k : ℕ) → (get_or xs k zero_pending).tsn_valid ≡ false)
    → find_index (awaits tsn) xs ≡ none
unfolding find_index
awaits-none tsn [] f = refl
awaits-none tsn (x ∷ xs) f = ground (arith, f 0, awaits-none tsn xs (λ k. f (suc k)))

module _ (n : ℕ) (a : Adapter) (b : Bus) (v : Leaks n a.pending) where
  lt : (i : ℕ) → find_index slot_free a.pending ≡ some i → i < length a.pending
  lt i found = find_index-lt slot_free a.pending i found

  was_free :
      (i : ℕ)
      → find_index slot_free a.pending ≡ some i
      → slot_used (get_or a.pending i zero_pending) ≡ false
  was_free i found = ground (arith, find_index_sound slot_free a.pending zero_pending i found)

  alloc-Leaks :
      (e : Env) (corr_id i : ℕ)
      → find_index slot_free a.pending ≡ some i
      → Leaks (n + 1) (set a.pending i (pending_for e corr_id))
  alloc-Leaks e corr_id i found = record {
    size = length-set a.pending i (pending_for e corr_id) ∙ v.size;
    untagged =
        each-set (λ p. p.tsn_valid ≡ false) a.pending i (pending_for e corr_id) zero_pending
          v.untagged refl;
    used = omega (
      arith,
      v.used,
      ap one_if (was_free i found),
      count_if-set slot_used a.pending i (pending_for e corr_id) zero_pending (lt i found),
    );
  }

  refused-Leaks :
      (e : Env) (corr_id i : ℕ)
      → find_index slot_free a.pending ≡ some i
      → Leaks n (pending_cmd_free (put_pending a i (pending_for e corr_id)) (some i)).pending
  unfolding pending_cmd_free
  refused-Leaks e corr_id i found = record {
    size = length-set _ i _ ∙ (alloc-Leaks e corr_id i found).size;
    untagged =
        each-set (λ p. p.tsn_valid ≡ false) _ i _ zero_pending
          (alloc-Leaks e corr_id i found).untagged ((alloc-Leaks e corr_id i found).untagged i);
    used = omega (
      arith,
      (alloc-Leaks e corr_id i found).used,
      length-set a.pending i x,
      lt i found,
      ap one_if (ap slot_used (get_or-set_self a.pending i x zero_pending (lt i found))),
      count_if-set slot_used (set a.pending i x) i (record old { in_use = false }) zero_pending,
    );
  }
    where
      x : Pending
      x = pending_for e corr_id

      old : Pending
      old = get_or (set a.pending i x) i zero_pending

  same : Leaks (n + 0) a.pending
  same = rw (add_zero n) v

  abbrev Sent : Err × Option Request × Adapter → Type 0
  Sent (err, r, a') = Leaks (n + one_ok err) a'.pending

  requested-Sent :
      (e : Env) (corr_id i : ℕ) (r : Request) (sent : Bool)
      → find_index slot_free a.pending ≡ some i
      → Sent (requested (put_pending a i (pending_for e corr_id)) (some i) r sent)
  unfolding requested
  requested-Sent e corr_id i r true found = alloc-Leaks e corr_id i found
  requested-Sent e corr_id i r false found = rw (add_zero n) (refused-Leaks e corr_id i found)

  alloc_at-Sent :
      (e : Env) (corr_id : ℕ) (r : Request) (sent : Bool) (o : Option ℕ)
      → find_index slot_free a.pending ≡ o
      → Sent (with_slot (alloc_at e a corr_id o) r sent)
  unfolding with_slot alloc_at
  alloc_at-Sent e corr_id r sent none full = same
  alloc_at-Sent e corr_id r sent (some i) found = requested-Sent e corr_id i r sent found

  send-Sent :
      (e : Env) (node_id corr_id : ℕ) (request : ℕ → Request) (sent : Bool)
      → Sent (send e a node_id corr_id request sent)
  unfolding send pending_cmd_alloc
  send-Sent e node_id corr_id request sent =
      if_rule Sent (not (is_ready a)) _ _ (λ _. same)
        (λ _.
          if_rule Sent (lookup_nwk a node_id == 65535) _ _ (λ _. same)
            (λ _. alloc_at-Sent e corr_id (request (lookup_nwk a node_id)) sent _ refl))

  transition-Leaks : (s : ZbState) → Leaks n (state_transition a s).1.pending
  unfolding state_transition
  transition-Leaks s =
      if_rule (λ (r : Bool × Adapter). Leaks n r.1.pending) (allowed a.state s) _ _ (λ _. v)
        (λ _. v)

  insert_at-Leaks :
      (e : Env) (eui64 nwk_addr : ℕ) (o : Option ℕ)
      → Leaks n (insert_at e a eui64 nwk_addr o).1.pending
  unfolding insert_at
  insert_at-Leaks e eui64 nwk_addr (some i) = v
  insert_at-Leaks e eui64 nwk_addr none =
      if_rule (λ (r : Option ℕ × Adapter). Leaks n r.1.pending) (leb max_devices a.nwk_count) _ _
        (λ _. v) (λ _. v)

  init_from-Leaks : (s : ZbState) (created : Bool) → Leaks n (init_from a s created).1.pending
  unfolding init_from
  init_from-Leaks uninitialized true = transition-Leaks initializing
  init_from-Leaks uninitialized false = v
  init_from-Leaks initializing created = v
  init_from-Leaks ready created = v
  init_from-Leaks error created = v

  started-Leaks : (status_ok : Bool) → Leaks n (started a b status_ok).0.pending
  started-Leaks true = v
  started-Leaks false = transition-Leaks error

  signal-Leaks : (e : Env) (s : Signal) → Leaks n (app_signal_handler e a b s).0.pending
  unfolding app_signal_handler nwk_cache_insert
  signal-Leaks e skip_startup = v
  signal-Leaks e (first_start status_ok) = started-Leaks status_ok
  signal-Leaks e (reboot status_ok) = started-Leaks status_ok
  signal-Leaks e (formation true) = transition-Leaks ready
  signal-Leaks e (formation false) = transition-Leaks error
  signal-Leaks e (device_annce eui64 nwk_addr) =
      insert_at-Leaks e eui64 nwk_addr (cache_index a eui64)
  signal-Leaks e other = v

  status-Leaks :
      (e : Env) (tsn : ℕ) (success : Bool) → Leaks n (send_status_cb e a b tsn success).0.pending
  unfolding send_status_cb pending_cmd_lookup_by_tsn status_at
  status-Leaks e tsn success = rw (awaits-none tsn a.pending v.untagged) v

step-Leaks : (s : Step) (g : Log) → LogLeaks g → LogLeaks (step s g)
unfolding step send_onoff send_level zba_init
step-Leaks (inits created) (n, a, b) v = init_from-Leaks n a b v a.state created
step-Leaks (sends_onoff e node_id endpoint on corr_id sent) (n, a, b) v =
    send-Sent n a b v e node_id corr_id _ sent
step-Leaks (sends_level e node_id endpoint level ms corr_id sent) (n, a, b) v =
    send-Sent n a b v e node_id corr_id _ sent
step-Leaks (signals e s) (n, a, b) v = signal-Leaks n a b v e s
step-Leaks (statuses e tsn success) (n, a, b) v = status-Leaks n a b v e tsn success

steps-Leaks : (ss : List Step) (g : Log) → LogLeaks g → LogLeaks (steps ss g)
unfolding steps
steps-Leaks [] g v = v
steps-Leaks (s ∷ ss) g v = steps-Leaks ss (step s g) (step-Leaks s g v)

boot-Leaks : (b : Bus) → LogLeaks (0, boot, b)
unfolding zero_pendings
boot-Leaks b = record {
  size = refl;
  untagged = each-replicate (λ p. p.tsn_valid ≡ false) max_pending zero_pending refl;
  used = count_if-replicate slot_used max_pending zero_pending refl;
}

-- From boot on, whatever commands are given and whatever the stack answers, signals and reports,
-- the adapter accepts at most 16 commands: the pending slot of each command accepted stays in use,
-- because no slot ever gets the number of its transaction.
pub commands_accepted :
    (ss : List Step) (b : Bus)
    → let (n, a, b') = steps ss (0, boot, b) in (n ≤ 16) × (count_if slot_used a.pending ≡ n)
commands_accepted ss b =
    let v : LogLeaks (steps ss (0, boot, b)) = steps-Leaks ss (0, boot, b) (boot-Leaks b) in
    (
      omega (arith, v.used, v.size, count_if-le-length slot_used (steps ss (0, boot, b)).1.pending),
      v.used,
    )
