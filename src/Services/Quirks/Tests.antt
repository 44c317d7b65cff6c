-- ===== src/Services/Quirks/Tests.antt =====
-- Runs of services/src/quirks.c on concrete values.
use esp32_c6_gateway_os.Services.Quirks.Match.{Fits, find-Fits}
use esp32_c6_gateway_os.Base.{
  ℕ, List, ◌∷◌, some, true, codes, replicate, IsBytes, Option, each-set, ◌≡◌, ◌<◌, arith,
  bytes_eq_n, refl, each-replicate, find_index, le_bytes, of_bytes, inl, [],
}
use esp32_c6_gateway_os.Services.Capability.Types.{light_level, Floats, cap_number}
use esp32_c6_gateway_os.Services.Quirks.Table.{quirks_table, find, matches, count, entry_at}
use esp32_c6_gateway_os.Services.Quirks.Effects.{Clamps, light_level-Clamps, one_applied}
use esp32_c6_gateway_os.Services.Quirks.Apply.{
  apply_value, action_name, action_names, apply_entry, apply_actions, value_action, acted, clamped,
}
use esp32_c6_gateway_os.Os.Types.{ok}

abbrev floats : Floats
floats = record {
  of_int = λ n. n;
  to_int = λ n. n;
  add = λ a b. a;
  sub = λ a b. a;
  mul = λ a b. a;
  div = λ a b. a;
  abs = λ a. a;
  exceeds = λ a b. true;
  two_places = λ a. [];
}

abbrev ikea : List ℕ
ikea = codes "IKEA of Sweden"

abbrev bulb : List ℕ
bulb = codes "TRADFRI bulb E27"

abbrev level_254 : List ℕ
level_254 = 254 ∷ replicate 31 0

level_254-IsBytes : IsBytes level_254
level_254-IsBytes =
    each-set (λ b. b < 256) (replicate 32 0) 0 254 0
      (each-replicate (λ b. b < 256) 32 0 (omega arith)) (omega arith)

bulb-Fits : Fits ikea bulb (entry_at 1)
unfolding quirks_table
bulb-Fits = (refl, inl (refl, codes " E27", refl))

find-Fits_example :
    (find (some ikea) (some bulb) ≡ some 1 → (1 < count) × Fits ikea bulb (entry_at 1))
    × ((1 < count) × Fits ikea bulb (entry_at 1) → find (some ikea) (some bulb) ≡ some 1)
find-Fits_example = find-Fits ikea bulb 1

light_level-Clamps_example : (value' : List ℕ) × Clamps floats ikea bulb 1 level_254 value'
light_level-Clamps_example =
    light_level-Clamps floats ikea bulb 1 level_254 (omega arith) bulb-Fits level_254-IsBytes
      (omega arith)

abbrev magnet : Option (List ℕ)
magnet = some (codes "lumi.sensor_magnet.aq2")

-- The level of a bulb is cut to 100, and a contact is inverted.
level_run :
    apply_value floats (some ikea) (some bulb) light_level (some level_254)
    ≡ (ok, some (100 ∷ replicate 31 0, one_applied))
unfolding apply_value find quirks_table matches bytes_eq_n find_index apply_entry apply_actions
    cap_number value_action acted clamped le_bytes of_bytes
level_run = refl

names_run : action_name 1 ≡ codes "clamp_range"
unfolding action_name action_names
names_run = refl
