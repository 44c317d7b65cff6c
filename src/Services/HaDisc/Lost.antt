-- ===== src/Services/HaDisc/Lost.antt =====
-- What `ha_disc_flush_pending` of services/ha_disc/ha_disc.c does without a connection.
use esp32_c6_gateway_os.Base.{
  ℕ, List, Bool, [], ◌∷◌, some, none, true, false, find_index, Option, ◌<◌, set, ◌≡◌, length, ◌≢◌,
  sub32, get_or, has, if_false, if_true, refl, arith, not, suc, ap, ◌∙◌, zero, ap₂, if◌then◌else◌,
  count_if, ◌+◌, length-set, ◌≤◌, Bool-cases, ◌&&◌, one_if, inl, lt-cases, eq_self, count_if-set,
  subst, inr, get_or-set_self, sym, get_or-set_ne,
}
use esp32_c6_gateway_os.Services.Registry.Types.{Limits}
use esp32_c6_gateway_os.Adapters.Mqtt.State.{is_connected}
use esp32_c6_gateway_os.Services.HaDisc.State.{
  World, HaDisc, Pending, add_pending, add_unless, pending_at, is_pending, zero_pending,
}
use esp32_c6_gateway_os.Services.HaDisc.Ops.{
  publish_node, flush_slot, flush_from, is_ok, flush_pending,
}
use esp32_c6_gateway_os.Os.Types.{ok}

-- A node that waits already is found, and nothing is added.
find-slot :
    {A : Type 0} (p : A → Bool) (xs : List A) (i : ℕ) (d : A)
    → i < length xs
    → p (get_or xs i d) ≡ true
    → find_index p xs ≢ none
unfolding find_index
find-slot p [] i d lt hit = absurd (omega arith)
find-slot p (x ∷ xs) zero d lt hit = λ e. ground arith
find-slot p (x ∷ xs) (suc i) d lt hit = λ e. ground (arith, find-slot p xs i d)

add_known : (h : HaDisc) (a : ℕ) (o : Option ℕ) → o ≢ none → add_unless h a o ≡ h
unfolding add_unless
add_known h a none ne = absurd (ne refl)
add_known h a (some i) ne = refl

add_pending-again :
    (h : HaDisc) (i : ℕ)
    → i < length h.pending
    → (pending_at h i).pending ≡ true
    → add_pending h (pending_at h i).node_addr ≡ h
unfolding add_pending
add_pending-again h i lt on = add_known h (pending_at h i).node_addr _ (
    find-slot (has is_pending (λ p. p.node_addr) (pending_at h i).node_addr) h.pending i
      zero_pending lt (ap₂ (λ a b. a && b) on (eq_self (pending_at h i).node_addr)))

-- The slot is given up.
abbrev pub dropped : World → ℕ → World
dropped w i =
    let h : HaDisc = w.ha in
    record w {
      ha = record h {
        pending = set h.pending i (record (pending_at h i) { pending = false });
        pending_count = sub32 h.pending_count 1;
      };
    }

module _ (l : Limits) (w : World) (on : w.ha.initialized ≡ true)
    (off : is_connected w.mqtt.state ≡ false) (i : ℕ) (lt : i < length w.ha.pending) where
  publish_again :
      (pending_at w.ha i).pending ≡ true → publish_node l w (pending_at w.ha i).node_addr ≡ (ok, w)
  unfolding publish_node
  publish_again p =
      if_false (not w.ha.initialized) _ _ (ap not on)
      ∙ if_true (not (is_connected w.mqtt.state)) _ _ (ap not off)
      ∙ ap (λ h. (ok, record w { ha = h })) (add_pending-again w.ha i lt p)

  flush-waiting : (pending_at w.ha i).pending ≡ true → flush_slot l w i ≡ (1, dropped w i)
  unfolding flush_slot
  flush-waiting p =
      if_false (not (pending_at w.ha i).pending) _ _ (ap not p)
      ∙ ap (λ r. if is_ok r.0 then (1, dropped r.1 i) else (0, r.1)) (publish_again p)

  flush-empty : (pending_at w.ha i).pending ≡ false → flush_slot l w i ≡ (0, w)
  unfolding flush_slot
  flush-empty p = if_true (not (pending_at w.ha i).pending) _ _ (ap not p)

-- A slot was given up, if it was taken, and counted.
abbrev waiting : World → ℕ
waiting w = count_if is_pending w.ha.pending

record Drops (i : ℕ) (w : World) (r : ℕ × World) : Type 0 where
  pub mqtt : r.1.mqtt ≡ w.mqtt
  pub initialized : r.1.ha.initialized ≡ w.ha.initialized
  pub size : length r.1.ha.pending ≡ length w.ha.pending
  pub counted : r.0 + waiting r.1 ≡ waiting w
  pub slot : (pending_at r.1.ha i).pending ≡ false
  pub others : (k : ℕ) → i ≢ k → pending_at r.1.ha k ≡ pending_at w.ha k

module _ (w : World) (i : ℕ) (lt : i < length w.ha.pending) where
  abbrev freed : Pending
  freed = record (pending_at w.ha i) { pending = false }

  dropped-Drops : (pending_at w.ha i).pending ≡ true → Drops i w (1, dropped w i)
  dropped-Drops p = record {
    mqtt = refl;
    initialized = refl;
    size = length-set w.ha.pending i freed;
    counted =
        omega (arith, ap one_if p, count_if-set is_pending w.ha.pending i freed zero_pending lt);
    slot = ap (λ x. x.pending) (get_or-set_self w.ha.pending i freed zero_pending lt);
    others = λ k ne. get_or-set_ne w.ha.pending i k freed zero_pending ne;
  }

  same-Drops : (pending_at w.ha i).pending ≡ false → Drops i w (0, w)
  same-Drops p = record {
    mqtt = refl;
    initialized = refl;
    size = refl;
    counted = omega arith;
    slot = p;
    others = λ k ne. refl;
  }

at_slot : (i k : ℕ) → i ≤ k → k ≤ i → i ≡ k
at_slot i k lo hi = omega arith

-- The slots from one on, so many, are given up.
record Flushed (rest i : ℕ) (w : World) (r : ℕ × World) : Type 0 where
  pub mqtt : r.1.mqtt ≡ w.mqtt
  pub size : length r.1.ha.pending ≡ length w.ha.pending
  pub counted : r.0 + waiting r.1 ≡ waiting w
  pub slots : (k : ℕ) → i ≤ k → k < i + rest → (pending_at r.1.ha k).pending ≡ false
  pub before : (k : ℕ) → k < i → pending_at r.1.ha k ≡ pending_at w.ha k

module _ (l : Limits) where
  flush_slot-Drops :
      (w : World) (i : ℕ)
      → w.ha.initialized ≡ true
      → is_connected w.mqtt.state ≡ false
      → i < length w.ha.pending
      → Drops i w (flush_slot l w i)
  flush_slot-Drops w i on off lt = elim (Bool-cases (pending_at w.ha i).pending) [
    | inl p ↦ subst (Drops i w) (sym (flush-waiting l w on off i lt p)) (dropped-Drops w i lt p)
    | inr f ↦ subst (Drops i w) (sym (flush-empty l w on off i lt f)) (same-Drops w i lt f)
  ]

  flush_from-Flushed :
      (rest i : ℕ) (w : World)
      → w.ha.initialized ≡ true
      → is_connected w.mqtt.state ≡ false
      → i + rest ≤ length w.ha.pending
      → Flushed rest i w (flush_from l rest i w)
  unfolding flush_from
  flush_from-Flushed zero i w on off h = record {
    mqtt = refl;
    size = refl;
    counted = omega arith;
    slots = λ k lo hi. absurd (omega arith);
    before = λ k lt. refl;
  }
  flush_from-Flushed (suc rest) i w on off h =
      let d : Drops i w (flush_slot l w i) = flush_slot-Drops w i on off (omega arith) in
      let f : Flushed rest (suc i) (flush_slot l w i).1
          (flush_from l rest (suc i) (flush_slot l w i).1) =
        flush_from-Flushed rest (suc i) (flush_slot l w i).1 (d.initialized ∙ on)
          (ap (λ m. is_connected m.state) d.mqtt ∙ off) (omega (arith, d.size)) in
      record {
        mqtt = f.mqtt ∙ d.mqtt;
        size = f.size ∙ d.size;
        counted = omega (arith, f.counted, d.counted);
        slots = λ k lo hi. elim (lt-cases i k) [
          | inl after ↦ f.slots k (omega arith) (omega arith)
          | inr at ↦
              subst
                (λ n.
                  (pending_at (flush_from l rest (suc i) (flush_slot l w i).1).1.ha n).pending
                  ≡ false)
                (at_slot i k lo at) (ap (λ x. x.pending) (f.before i (omega arith)) ∙ d.slot)
        ];
        before = λ k lt. f.before k (omega arith) ∙ d.others k (λ e. omega arith);
      }

none_waits :
    (xs : List Pending)
    → ((k : ℕ) → k < length xs → (get_or xs k zero_pending).pending ≡ false)
    → count_if is_pending xs ≡ 0
unfolding count_if
none_waits [] h = refl
none_waits (x ∷ xs) h =
    omega (arith, ap one_if (h 0 (omega arith)), none_waits xs (λ k lt. h (suc k) (omega arith)))

-- All that wait are counted as flushed, none waits any more, and nothing was published.
abbrev pub Loses : World → ℕ × World → Type 0
Loses w r =
    (r.0 ≡ count_if is_pending w.ha.pending)
    × (count_if is_pending r.1.ha.pending ≡ 0)
    × (r.1.mqtt ≡ w.mqtt)

pub flush_pending-Loses :
    (l : Limits) (w : World)
    → w.ha.initialized ≡ true
    → is_connected w.mqtt.state ≡ false
    → length w.ha.pending ≡ 32
    → Loses w (flush_pending l w)
unfolding flush_pending
flush_pending-Loses l w on off size =
    let f : Flushed 32 0 w (flush_from l 32 0 w) =
      flush_from-Flushed l 32 0 w on off (omega (arith, size)) in
    let gone : count_if is_pending (flush_from l 32 0 w).1.ha.pending ≡ 0 =
      none_waits _ (λ k lt. f.slots k (omega arith) (omega (arith, f.size, size))) in
    subst (Loses w) (sym (if_false (not w.ha.initialized) _ _ (ap not on)))
      (omega (arith, gone, f.counted), gone, f.mqtt)
