-- ===== src/Services/Quirks/Effects.antt =====
-- What `quirks_apply_value` and `quirks_apply_command` of services/src/quirks.c do to a value.
use esp32_c6_gateway_os.Base.{
  ℕ, List, Bool, [], ◌∷◌, some, none, true, false, slt, ◌≡◌, ◌<◌, ◌^◌, refl, suc, arith, zero,
  if_rule, ◌≤◌, length, Option, get_or, IsBytes, if◌then◌else◌, ◌==◌, ap, le_bytes, ◌++◌,
  of_bytes-word, drop, le_bytes-of_bytes, take-IsBytes, ◌∙◌, ◌&&◌, of_bytes-lt, not, ◌≢◌, if_false,
  one_if, eq_ne, if_true, sym,
}
use esp32_c6_gateway_os.Services.Quirks.Apply.{
  clamped, apply_entry, apply_actions, value_action, acted, clamp_value, Result, none_applied,
  apply_value, apply_command, command_action,
}
use esp32_c6_gateway_os.Services.Quirks.Match.{Fits, find-Fits, find-lt}
use esp32_c6_gateway_os.Services.Quirks.Table.{
  quirks_table, Kind, Action, entry_at, no_action, count, clamp_range, find, invert_boolean,
  scale_numeric, one_tenth,
}
use esp32_c6_gateway_os.Services.Capability.Types.{
  cap_number, Floats, light_level, CapId, with_word, word_of, unknown, info_type, with_bool, bool,
  bool_of, sensor_contact, switch_on, light_on, sensor_temperature, light_color_temp,
  sensor_humidity, sensor_motion, sensor_illuminance, power_watts, energy_kwh,
}
use esp32_c6_gateway_os.Os.Types.{ok, Err}

-- The int32_t of a value lies between two bounds.
abbrev pub Between : ℕ → ℕ → ℕ → Type 0
Between min max i = (slt i min ≡ false) × (slt max i ≡ false)

module _ (min max i : ℕ) where
  clamped-Between : slt max min ≡ false → Between min max (clamped min max i)
  unfolding clamped
  clamped-Between h = ground arith

  clamped_inside : Between min max i → clamped min max i ≡ i
  unfolding clamped
  clamped_inside (low, high) = rw (low, high) refl

  clamped-lt : min < 2 ^ 32 → max < 2 ^ 32 → i < 2 ^ 32 → clamped min max i < 2 ^ 32
  unfolding clamped
  clamped-lt h1 h2 h3 =
      if_rule (λ n. n < 2 ^ 32) (slt i min) _ _ (λ _. h1)
        (λ _. if_rule (λ n. n < 2 ^ 32) (slt max i) _ _ (λ _. h2) (λ _. h3))

with_word_self : (v : List ℕ) → 4 ≤ length v → IsBytes v → with_word v (word_of v) ≡ v
with_word_self (a ∷ b ∷ c ∷ d ∷ v) size bytes =
    ap (λ xs. xs ++ v)
      (le_bytes-of_bytes (a ∷ b ∷ c ∷ d ∷ []) (take-IsBytes 4 (a ∷ b ∷ c ∷ d ∷ v) bytes))
with_word_self [] size bytes = absurd (omega arith)
with_word_self (a ∷ []) size bytes = absurd (omega arith)
with_word_self (a ∷ b ∷ []) size bytes = absurd (omega arith)
with_word_self (a ∷ b ∷ c ∷ []) size bytes = absurd (omega arith)

-- What one action does.
abbrev once : (Kind → List ℕ → Option (List ℕ)) → Action → CapId → List ℕ → List ℕ × Result
once switch a cap_id value =
    if cap_number a.target_cap == cap_number cap_id
    then acted (value, none_applied) (switch a.kind value)
    else (value, none_applied)

action_at : ℕ → Action
action_at i = get_or (entry_at i).actions 0 (record { kind = no_action; target_cap = unknown })

module _ (switch : Kind → List ℕ → Option (List ℕ)) (cap_id : CapId) (value : List ℕ) where
  -- Each entry of the table has one action.
  apply_entry-once :
      (i : ℕ)
      → i < count
      → apply_entry switch (some i) cap_id value ≡ (
        ok,
        (once switch (action_at i) cap_id value).0,
        (once switch (action_at i) cap_id value).1,
      )
  unfolding apply_entry count quirks_table apply_actions action_at
  apply_entry-once zero h = refl
  apply_entry-once (suc zero) h = refl
  apply_entry-once (suc (suc zero)) h = refl
  apply_entry-once (suc (suc (suc zero))) h = refl
  apply_entry-once (suc (suc (suc (suc i)))) h = absurd (omega arith)

word-with_word : (v : List ℕ) (n : ℕ) → n < 2 ^ 32 → word_of (with_word v n) ≡ n
unfolding le_bytes
word-with_word v n h = of_bytes-word n h

rest-with_word : (v : List ℕ) (n : ℕ) → drop 4 (with_word v n) ≡ drop 4 v
unfolding le_bytes
rest-with_word v n = refl

abbrev pub one_applied : Result
one_applied = record { applied = true; actions_applied = 1 }

-- The first two entries hold a level between 1 and 100.
level_clamped :
    (switch : Kind → List ℕ → Option (List ℕ)) (value : List ℕ) (i : ℕ)
    → i < 2
    → switch (clamp_range 1 100) value ≡ some (clamp_value 1 100 value)
    → apply_entry switch (some i) light_level value ≡ (ok, clamp_value 1 100 value, one_applied)
unfolding quirks_table action_at cap_number acted count
level_clamped switch value zero lt e =
    apply_entry-once switch light_level value zero (omega arith) ∙ rw e refl
level_clamped switch value (suc zero) lt e =
    apply_entry-once switch light_level value (suc zero) (omega arith) ∙ rw e refl
level_clamped switch value (suc (suc i)) lt e = absurd (omega arith)

module _ (floats : Floats) (m d : List ℕ) (i : ℕ) (value : List ℕ) where
  -- The outcome of both functions: a level within the bounds, the rest of the value kept.
  abbrev pub Clamps : List ℕ → Type 0
  Clamps value' =
      (apply_value floats (some m) (some d) light_level (some value)
        ≡ (ok, some (value', one_applied)))
      × (apply_command floats (some m) (some d) light_level (some value)
          ≡ (ok, some (value', one_applied)))
      × Between 1 100 (word_of value')
      × (drop 4 value' ≡ drop 4 value)
      × (Between 1 100 (word_of value) → value' ≡ value)

  pub light_level-Clamps :
      i < 2
      → Fits m d (entry_at i)
      → IsBytes value
      → 4 ≤ length value
      → (value' : List ℕ) × Clamps value'
  unfolding apply_value apply_command value_action command_action count quirks_table
  light_level-Clamps lt fits bytes size =
      let found : find (some m) (some d) ≡ some i = (find-Fits m d i).1 (omega arith, fits) in
      let small : clamped 1 100 (word_of value) < 2 ^ 32 =
        clamped-lt 1 100 (word_of value) (omega arith) (omega arith) (of_bytes-lt value bytes) in
      let inside : Between 1 100 (clamped 1 100 (word_of value)) =
        clamped-Between 1 100 (word_of value) refl in
      (
        clamp_value 1 100 value,
        (
          rw (found, level_clamped (value_action floats) value i lt refl) refl,
          rw (found, level_clamped (command_action floats) value i lt refl) refl,
          rw (word-with_word value (clamped 1 100 (word_of value)) small) inside,
          rest-with_word value (clamped 1 100 (word_of value)),
          λ b. rw (clamped_inside 1 100 (word_of value) b) (with_word_self value size bytes),
        ),
      )

-- A capability of type bool is not one that a number is written to.
bool_target :
    (cap_id : CapId) → info_type cap_id ≡ bool → (cap_number cap_id ≢ 3) × (cap_number cap_id ≢ 5)
unfolding cap_number
bool_target unknown h = cc
bool_target switch_on h = (λ e. omega arith, λ e. omega arith)
bool_target light_on h = (λ e. omega arith, λ e. omega arith)
bool_target light_level h = cc
bool_target light_color_temp h = cc
bool_target sensor_temperature h = cc
bool_target sensor_humidity h = cc
bool_target sensor_contact h = (λ e. omega arith, λ e. omega arith)
bool_target sensor_motion h = (λ e. omega arith, λ e. omega arith)
bool_target sensor_illuminance h = cc
bool_target power_watts h = cc
bool_target energy_kwh h = cc

-- What the functions do to a capability of type bool: they invert it or leave it.
abbrev Boolean : (Kind → List ℕ → Option (List ℕ)) → Type 0
Boolean switch =
    (value : List ℕ)
    → switch (invert_boolean true) value ≡ some (with_bool value (not (bool_of value)))

inverts : Option ℕ → CapId → Bool
inverts none cap_id = false
inverts (some i) cap_id = i == 2 && 7 == cap_number cap_id

abbrev inverted : Bool → List ℕ → List ℕ × Result
inverted true value = (with_bool value (not (bool_of value)), one_applied)
inverted false value = (value, none_applied)

abbrev done : List ℕ × Result → Err × List ℕ × Result
done r = (ok, r.0, r.1)

module _ (switch : Kind → List ℕ → Option (List ℕ)) (cap_id : CapId) (value : List ℕ) where
  once_other :
      (kind : Kind) (target_cap : CapId)
      → cap_number cap_id ≢ cap_number target_cap
      → once switch (record { kind = kind; target_cap = target_cap }) cap_id value
        ≡ (value, none_applied)
  once_other kind target_cap ne =
      if_false _ _ _ (eq_ne (cap_number target_cap) (cap_number cap_id) (λ e. ne (sym e)))

  once_invert :
      (c : Bool)
      → (7 == cap_number cap_id) ≡ c
      → Boolean switch
      → once switch
          (record { kind = invert_boolean true; target_cap = sensor_contact })
          cap_id
          value
        ≡ inverted c value
  unfolding cap_number acted
  once_invert true e h = if_true _ _ _ e ∙ rw (h value) refl
  once_invert false e h = if_false _ _ _ e

  apply_entry_bool :
      (i : Option ℕ)
      → ((k : ℕ) → i ≡ some k → k < count)
      → info_type cap_id ≡ bool
      → Boolean switch
      → apply_entry switch i cap_id value ≡ done (inverted (inverts i cap_id) value)
  unfolding inverts apply_entry action_at quirks_table cap_number count
  apply_entry_bool none lt b h = refl
  apply_entry_bool (some zero) lt b h =
      apply_entry-once switch cap_id value 0 (lt 0 refl)
      ∙ ap done (once_other (clamp_range 1 100) light_level (bool_target cap_id b).0)
  apply_entry_bool (some (suc zero)) lt b h =
      apply_entry-once switch cap_id value 1 (lt 1 refl)
      ∙ ap done (once_other (clamp_range 1 100) light_level (bool_target cap_id b).0)
  apply_entry_bool (some (suc (suc zero))) lt b h =
      apply_entry-once switch cap_id value 2 (lt 2 refl)
      ∙ ap done (once_invert (7 == cap_number cap_id) refl h)
  apply_entry_bool (some (suc (suc (suc zero)))) lt b h =
      apply_entry-once switch cap_id value 3 (lt 3 refl)
      ∙ ap done (once_other (scale_numeric one_tenth 0) sensor_temperature (bool_target cap_id b).1)
  apply_entry_bool (some (suc (suc (suc (suc i))))) lt b h =
      absurd (omega (arith, lt (suc (suc (suc (suc i)))) refl))

-- Inverting twice gives the value back.
inverted_twice :
    (c b : Bool) (rest : List ℕ)
    → inverted c (inverted c (one_if b ∷ rest)).0
      ≡ (one_if b ∷ rest, (inverted c (one_if b ∷ rest)).1)
inverted_twice false b rest = refl
inverted_twice true true rest = refl
inverted_twice true false rest = refl

module _ (floats : Floats) (m d : Option (List ℕ)) (cap_id : CapId) (b : Bool) (rest : List ℕ) where
  -- What a device reports of a capability of type bool, told it again as a command, is the value it
  -- reported; both functions succeed.
  command-value :
      info_type cap_id ≡ bool
      → (value' : List ℕ) × (r : Result) × (apply_value floats m d cap_id (some (one_if b ∷ rest))
          ≡ (ok, some (value', r)))
        × (apply_command floats m d cap_id (some value') ≡ (ok, some (one_if b ∷ rest, r)))
  unfolding apply_value apply_command value_action command_action
  command-value is_bool =
      let value : List ℕ = one_if b ∷ rest in
      let c : Bool = inverts (find m d) cap_id in
      let r : List ℕ × Result = inverted c value in
      (
        r.0,
        r.1,
        rw
            (apply_entry_bool (value_action floats) cap_id value (find m d) (find-lt m d) is_bool
              (λ v. refl))
            refl,
        rw
            (apply_entry_bool (command_action floats) cap_id r.0 (find m d) (find-lt m d) is_bool
              (λ v. refl))
            (ap (λ p. (ok, some p)) (inverted_twice c b rest)),
      )
