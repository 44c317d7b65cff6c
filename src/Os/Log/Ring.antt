-- ===== src/Os/Log/Ring.antt =====
-- The ring of os/src/os_log.c as the queue of the messages that it holds, oldest first.
use esp32_c6_gateway_os.Base.{
  not, if_rule, ℕ, zero, suc, ◌+◌, ◌%◌, ◌^◌, ◌<◌, ◌≤◌, ◌≡◌, refl, ap, ap₂, ◌∙◌, true, List, [], ◌∷◌,
  ◌++◌, arith, length, get_or, set, get_or-set_self, get_or-set_ne, length-set, if_rule, add32, not,
  ◌||◌, ◌==◌,
}
use esp32_c6_gateway_os.Os.Log.Ops.{
  LogEntry, Logger, zero_log_entry, log_queue_size, put_log_entry, log_line, advance_log_head,
  flush_rounds, log_flush,
}

-- The `n` messages from slot `h` on, going round at the end of the array.
abbrev pub messages_from : List LogEntry → ℕ → ℕ → List LogEntry
messages_from q h zero = []
messages_from q h (suc n) = get_or q h zero_log_entry ∷ messages_from q ((h + 1) % log_queue_size) n

-- What waits to be printed.
abbrev pub waiting : Logger → List LogEntry
waiting g = messages_from g.queue g.head g.count

pub record IsValidLog (g : Logger) : Type 0 where
  pub queue_length : length g.queue ≡ log_queue_size
  pub head_in : g.head < log_queue_size
  pub count_in : g.count ≤ log_queue_size
  pub tail_at : g.tail ≡ (g.head + g.count) % log_queue_size
  pub dropped_in : g.dropped < 2 ^ 32

pub length-messages_from : (q : List LogEntry) (h n : ℕ) → length (messages_from q h n) ≡ n
length-messages_from q h zero = refl
length-messages_from q h (suc n) = ap suc (length-messages_from q ((h + 1) % log_queue_size) n)

messages_from-set :
    (q : List LogEntry) (x : LogEntry) (n h i : ℕ)
    → length q ≡ log_queue_size
    → h < log_queue_size
    → n < log_queue_size
    → i ≡ (h + n) % log_queue_size
    → messages_from (set q i x) h (suc n) ≡ messages_from q h n ++ x ∷ []
messages_from-set q x zero h i l hh hn at =
    rw (here, get_or-set_self q h x zero_log_entry (omega arith))
  where
    here : i ≡ h
    here = omega arith
messages_from-set q x (suc n) h i l hh hn at =
    ap₂ ◌∷◌ (get_or-set_ne q i h x zero_log_entry (omega arith)) (
      messages_from-set q x n ((h + 1) % log_queue_size) i l (omega arith) (omega arith)
        (omega arith))

pub put_log_entry-IsValidLog :
    (g : Logger) (x : LogEntry)
    → IsValidLog g
    → g.count < log_queue_size
    → IsValidLog (put_log_entry g x)
unfolding put_log_entry
put_log_entry-IsValidLog g x v h = ground (arith, length-set g.queue g.tail x)

pub waiting-put_log_entry :
    (g : Logger) (x : LogEntry)
    → IsValidLog g
    → g.count < log_queue_size
    → waiting (put_log_entry g x) ≡ waiting g ++ x ∷ []
unfolding put_log_entry
waiting-put_log_entry g x v h = ground (arith, messages_from-set g.queue x g.count g.head g.tail)

pub dropped-IsValidLog :
    (g : Logger) → IsValidLog g → IsValidLog (record g { dropped = add32 g.dropped 1 })
dropped-IsValidLog g v = ground arith

advance_log_head-IsValidLog :
    {n : ℕ} (g : Logger) → IsValidLog g → g.count ≡ suc n → IsValidLog (advance_log_head g)
unfolding advance_log_head
advance_log_head-IsValidLog g v e = ground arith

-- The lines that are printed of messages.
unfoldable pub lines : List LogEntry → List (List ℕ)
lines [] = []
lines (x ∷ xs) = log_line x ∷ lines xs

flush_rounds_lem :
    (n : ℕ) (g : Logger)
    → g.count ≡ n
    → IsValidLog g
    → let r = flush_rounds n g in
      (r.0 ≡ lines (messages_from g.queue g.head n))
      × (r.1.count ≡ 0)
      × IsValidLog r.1
      × (r.1.dropped ≡ g.dropped)
unfolding flush_rounds advance_log_head lines
flush_rounds_lem zero g e v = (refl, e, v, refl)
flush_rounds_lem (suc n) g e v =
    let (printed, empty, valid, same) =
      flush_rounds_lem n (advance_log_head g) (omega (arith, e))
        (advance_log_head-IsValidLog g v e) in
    (
      ap (λ ls. log_line (get_or g.queue g.head zero_log_entry) ∷ ls)
          (printed ∙ ap (λ h. lines (messages_from g.queue h n)) (omega (arith, v.head_in))),
      empty,
      valid,
      same,
    )

-- What `os_log_flush` does: the lines of what waited, in order, and an empty ring.
abbrev pub Printed : Logger → ℕ × List (List ℕ) × Logger → Type 0
Printed g r =
    (r.1 ≡ lines (waiting g)) × (r.0 ≡ length r.1) × (r.2.count ≡ 0) × (r.2.dropped ≡ g.dropped)

pub log_flush-Printed : (g : Logger) → IsValidLog g → g.initialized ≡ true → Printed g (log_flush g)
unfolding log_flush lines
log_flush-Printed g v on =
    if_rule (Printed g) (not g.initialized || g.count == 0) _ _
      (λ t. let none_waits = idle t in (rw none_waits refl, refl, none_waits, refl))
      (λ _.
        let (printed, empty, valid, same) = flush_rounds_lem g.count g refl v in
        (printed, refl, empty, same))
  where
    idle : (not g.initialized || g.count == 0) ≡ true → g.count ≡ 0
    idle t = ground (arith, on)
