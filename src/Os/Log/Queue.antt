-- ===== src/Os/Log/Queue.antt =====
-- What messages that are written to the log of os/src/os_log.c become.
use esp32_c6_gateway_os.Base.{
  if_true, if_false, subst, true-false, leb, not, if_rule, ℕ, ◌+◌, ◌-◌, ◌%◌, ◌^◌, ◌<◌, ◌≤◌, ◌≡◌,
  refl, ap, sym, ◌∙◌, true, false, Option, List, [], ◌∷◌, ◌++◌, arith, length, leb, ltb,
  if◌then◌else◌, take, append_assoc, take-append_le, take_all, length-append, if_rule, add32, not,
  append-nil,
}
use esp32_c6_gateway_os.Os.Types.{Env}
use esp32_c6_gateway_os.Os.Log.Ops.{
  LogEntry, Logger, log_queue_size, put_log_entry, log_write, log_entry, log_flush,
}
use esp32_c6_gateway_os.Os.Log.Ring.{
  waiting, IsValidLog, length-messages_from, put_log_entry-IsValidLog, waiting-put_log_entry,
  dropped-IsValidLog, lines, log_flush-Printed,
}

-- One call of `os_log_write`
pub record LogCall : Type 0 where
  pub at : Env
  pub level : ℕ
  pub name : Option (List ℕ)
  pub message : List ℕ

unfoldable pub log_writes : Logger → List LogCall → Logger
log_writes g [] = g
log_writes g (w ∷ ws) = log_writes (log_write w.at g w.level w.name w.message) ws

abbrev entry_of : LogCall → LogEntry
entry_of w = log_entry w.at w.level w.name w.message

-- The messages that pass a level.
unfoldable pub passing : ℕ → List LogCall → List LogEntry
passing level [] = []
passing level (w ∷ ws) =
    let rest = passing level ws in if ltb level w.level then rest else entry_of w ∷ rest

-- After writes, the ring holds the first 64 of the messages that waited and those that pass the
-- level, and the others are counted.
record Wrote (g : Logger) (xs : List LogEntry) (g' : Logger) : Type 0 where
  pub valid : IsValidLog g'
  pub on : g'.initialized ≡ true
  pub held : waiting g' ≡ take log_queue_size (waiting g ++ xs)
  pub lost : g'.dropped ≡ (g.dropped + (g.count + length xs - log_queue_size)) % 2 ^ 32

Wrote-none : (g : Logger) → IsValidLog g → g.initialized ≡ true → Wrote g [] g
Wrote-none g v on = record {
  valid = v;
  on = on;
  held = sym (
      ap (take log_queue_size) (append-nil (waiting g))
      ∙ take_all log_queue_size (waiting g)
          (omega (arith, length-messages_from g.queue g.head g.count, v.count_in)));
  lost = omega (arith, v.count_in, v.dropped_in);
}

Wrote-full :
    (g g' : Logger) (x : LogEntry) (xs : List LogEntry)
    → IsValidLog g
    → log_queue_size ≤ g.count
    → Wrote (record g { dropped = add32 g.dropped 1 }) xs g'
    → Wrote g (x ∷ xs) g'
Wrote-full g g' x xs v full w = record {
  valid = w.valid;
  on = w.on;
  held =
      w.held
      ∙ take-append_le log_queue_size (waiting g) xs
          (omega (arith, length-messages_from g.queue g.head g.count, full))
      ∙ sym (
          take-append_le log_queue_size (waiting g) (x ∷ xs)
            (omega (arith, length-messages_from g.queue g.head g.count, full)));
  lost = omega (arith, w.lost, full, v.count_in, v.dropped_in);
}

Wrote-put :
    (g g' : Logger) (x : LogEntry) (xs : List LogEntry)
    → IsValidLog g
    → g.count < log_queue_size
    → Wrote (put_log_entry g x) xs g'
    → Wrote g (x ∷ xs) g'
unfolding put_log_entry
Wrote-put g g' x xs v room w = record {
  valid = w.valid;
  on = w.on;
  held =
      w.held
      ∙ ap (λ ys. take log_queue_size (ys ++ xs)) (waiting-put_log_entry g x v room)
      ∙ ap (take log_queue_size) (append_assoc (waiting g) (x ∷ []) xs);
  lost = omega (arith, w.lost, room);
}

passing_over :
    (level : ℕ) (w : LogCall) (ws : List LogCall)
    → ltb level w.level ≡ true
    → passing level (w ∷ ws) ≡ passing level ws
unfolding passing
passing_over level w ws t = if_true (ltb level w.level) _ _ t

passing_kept :
    (level : ℕ) (w : LogCall) (ws : List LogCall)
    → ltb level w.level ≡ false
    → passing level (w ∷ ws) ≡ entry_of w ∷ passing level ws
unfolding passing
passing_kept level w ws f = if_false (ltb level w.level) _ _ f

leb→le : (a b : ℕ) → leb a b ≡ true → a ≤ b
leb→le a b t = ground arith

leb_false→lt : (a b : ℕ) → leb a b ≡ false → b < a
leb_false→lt a b f = ground arith

-- A message that passes the level.
abbrev queued : Logger → LogEntry → Logger
queued g x =
    if leb log_queue_size g.count
    then record g { dropped = add32 g.dropped 1 }
    else put_log_entry g x

queued-Wrote :
    (ws : List LogCall) (g : Logger) (x : LogEntry)
    → IsValidLog g
    → g.initialized ≡ true
    → ((g' : Logger)
        → g'.level ≡ g.level
        → IsValidLog g'
        → g'.initialized ≡ true
        → Wrote g' (passing g.level ws) (log_writes g' ws))
    → Wrote g (x ∷ passing g.level ws) (log_writes (queued g x) ws)
unfolding put_log_entry
queued-Wrote ws g x v on next =
    if_rule (λ g'. Wrote g (x ∷ passing g.level ws) (log_writes g' ws)) (leb log_queue_size g.count)
      _ _
      (λ t.
        Wrote-full g _ x (passing g.level ws) v (leb→le log_queue_size g.count t)
          (next (record g { dropped = add32 g.dropped 1 }) refl (dropped-IsValidLog g v) on))
      (λ f.
        let room = leb_false→lt log_queue_size g.count f in
        Wrote-put g _ x (passing g.level ws) v room
          (next (put_log_entry g x) refl (put_log_entry-IsValidLog g x v room) on))

log_writes-Wrote :
    (ws : List LogCall) (g : Logger)
    → IsValidLog g
    → g.initialized ≡ true
    → Wrote g (passing g.level ws) (log_writes g ws)
unfolding log_writes log_write passing
log_writes-Wrote [] g v on = Wrote-none g v on
log_writes-Wrote (w ∷ ws) g v on =
    if_rule (λ g'. Wrote g (passing g.level (w ∷ ws)) (log_writes g' ws)) (not g.initialized) _ _
      (λ off. absurd (true-false (sym off ∙ ap not on)))
      (λ _.
        if_rule (λ g'. Wrote g (passing g.level (w ∷ ws)) (log_writes g' ws)) (ltb g.level w.level)
          _ _
          (λ t.
            subst (λ xs. Wrote g xs (log_writes g ws)) (sym (passing_over g.level w ws t))
              (log_writes-Wrote ws g v on))
          (λ f.
            subst (λ xs. Wrote g xs (log_writes (queued g (entry_of w)) ws))
              (sym (passing_kept g.level w ws f))
              (queued-Wrote ws g (entry_of w) v on (λ g' same v' on'.
                subst (λ level. Wrote g' (passing level ws) (log_writes g' ws)) same
                  (log_writes-Wrote ws g' v' on')))))

-- Any messages are written to a valid initialised log, and then it is flushed: `os_log_flush` prints
-- one line for each of the first 64 of the messages that waited and, after these, those that pass
-- the level, in this order, and returns their number; the others are counted in `dropped`; nothing
-- waits then.
pub log_flush-log_writes :
    (g : Logger) (ws : List LogCall)
    → IsValidLog g
    → g.initialized ≡ true
    → let xs = waiting g ++ passing g.level ws in
      let (n, printed, g') = log_flush (log_writes g ws) in
      (printed ≡ lines (take log_queue_size xs))
      × (n ≡ length printed)
      × (g'.count ≡ 0)
      × (g'.dropped ≡ (g.dropped + (length xs - log_queue_size)) % 2 ^ 32)
log_flush-log_writes g ws v on =
    let w = log_writes-Wrote ws g v on in
    let (printed, number, empty, same) = log_flush-Printed (log_writes g ws) w.valid w.on in
    (
      printed ∙ ap lines w.held,
      number,
      empty,
      same
          ∙ w.lost
          ∙ ap (λ n. (g.dropped + (n - log_queue_size)) % 2 ^ 32)
              (omega (
                arith,
                length-append (waiting g) (passing g.level ws),
                length-messages_from g.queue g.head g.count,
              )),
    )
