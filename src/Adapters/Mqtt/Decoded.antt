-- ===== src/Adapters/Mqtt/Decoded.antt =====
-- The event that services/src/capability.c emits for a change, as adapters/mqtt_adapter/mqtt_adapter.c
-- reads it.
use esp32_c6_gateway_os.Base.{
  ℕ, List, [], ◌∷◌, some, take, ◌≢◌, ◌≤◌, ◌≡◌, length, ap, ◌++◌, if◌then◌else◌, suc, codes, arith,
  not, ◌==◌, zero, get_or-take, refl, signed_decimal, of_bytes, take-take, ◌<◌, ◌||◌, le_bytes,
  snprintf, byte_range, ◌∙◌, ◌^◌, decimal, sym, ap₂, of_bytes-le_bytes,
}
use esp32_c6_gateway_os.Services.Capability.Types.{
  unknown, switch_on, light_on, light_level, light_color_temp, sensor_temperature, sensor_humidity,
  sensor_contact, sensor_motion, sensor_illuminance, power_watts, energy_kwh, CapId, ValueType,
  bool, int, float, string, Floats, cap_number,
}
use esp32_c6_gateway_os.Services.Capability.Info.{CapInfo, get_info, cap_info_table}
use esp32_c6_gateway_os.Services.Capability.Report.{changed_payload}
use esp32_c6_gateway_os.Adapters.Mqtt.State.{Adapter, is_connected}
use esp32_c6_gateway_os.Adapters.Mqtt.Ops.{
  value_text, publish_info, publish_state, handle_cap_state_changed, publish, state_topic,
  max_payload_len,
}
use esp32_c6_gateway_os.Os.Types.{Env, not_initialized, pad_bytes}
use esp32_c6_gateway_os.Os.Event.State.{event_cap_state_changed}
use esp32_c6_gateway_os.Os.Event.Publish.{copy_into, emitted}

-- The bytes of a value that the payload has room for.
abbrev cut : List ℕ → List ℕ
cut value = take 20 value

copy_into-take : (n : ℕ) (xs ys : List ℕ) → n ≤ length xs → copy_into n (xs ++ ys) ≡ take n xs
unfolding copy_into
copy_into-take zero xs ys h = refl
copy_into-take (suc n) [] ys h = absurd (omega arith)
copy_into-take (suc n) (x ∷ xs) ys h = ap (λ zs. x ∷ zs) (copy_into-take n xs ys (omega arith))

-- The text of a value that is no string is that of its first four bytes.
value_text-cut :
    (fl : Floats) (type : ValueType) (value : List ℕ)
    → type ≢ string
    → value_text fl type (cut value) ≡ value_text fl type value
unfolding value_text
value_text-cut fl bool value ne =
    ap (λ b. if b then codes "true" else codes "false")
      (ap (λ x. not (x == 0)) (get_or-take 20 value 0 0 (omega arith)))
value_text-cut fl int value ne =
    ap (λ w. signed_decimal (of_bytes w)) (take-take 4 20 value (omega arith))
value_text-cut fl float value ne =
    ap (λ w. fl.two_places (of_bytes w)) (take-take 4 20 value (omega arith))
value_text-cut fl string value ne = absurd (ne refl)

-- No capability is a string.
info_plain : (id : CapId) → (c : CapInfo) × (get_info (cap_number id) ≡ some c) × (c.type ≢ string)
unfolding get_info cap_info_table cap_number
info_plain unknown = (_, refl, λ e. cc)
info_plain switch_on = (_, refl, λ e. cc)
info_plain light_on = (_, refl, λ e. cc)
info_plain light_level = (_, refl, λ e. cc)
info_plain light_color_temp = (_, refl, λ e. cc)
info_plain sensor_temperature = (_, refl, λ e. cc)
info_plain sensor_humidity = (_, refl, λ e. cc)
info_plain sensor_contact = (_, refl, λ e. cc)
info_plain sensor_motion = (_, refl, λ e. cc)
info_plain sensor_illuminance = (_, refl, λ e. cc)
info_plain power_watts = (_, refl, λ e. cc)
info_plain energy_kwh = (_, refl, λ e. cc)

cap_number-lt : (id : CapId) → cap_number id < 12
unfolding cap_number
cap_number-lt unknown = omega arith
cap_number-lt switch_on = omega arith
cap_number-lt light_on = omega arith
cap_number-lt light_level = omega arith
cap_number-lt light_color_temp = omega arith
cap_number-lt sensor_temperature = omega arith
cap_number-lt sensor_humidity = omega arith
cap_number-lt sensor_contact = omega arith
cap_number-lt sensor_motion = omega arith
cap_number-lt sensor_illuminance = omega arith
cap_number-lt power_watts = omega arith
cap_number-lt energy_kwh = omega arith

publish_info-cut :
    (fl : Floats) (e : Env) (a : Adapter) (node_addr : ℕ) (c : CapInfo) (value : List ℕ)
    → c.type ≢ string
    → publish_info fl e a node_addr (some c) (cut value)
      ≡ publish_info fl e a node_addr (some c) value
unfolding publish_info
publish_info-cut fl e a node_addr c value plain =
    ap
      (λ t. publish a (state_topic node_addr c.name) (
        snprintf max_payload_len
          (codes "{\"v\":" ++ t ++ codes ",\"ts\":" ++ decimal e.now ++ codes "}")))
      (value_text-cut fl c.type value plain)

publish_state-cut :
    (fl : Floats) (e : Env) (a : Adapter) (node_addr : ℕ) (id : CapId) (value : List ℕ)
    → publish_state fl e a node_addr (cap_number id) (cut value)
      ≡ publish_state fl e a node_addr (cap_number id) value
unfolding publish_state
publish_state-cut fl e a node_addr id value =
    let (c, known, plain) = info_plain id in
    ap (λ r. if not a.initialized || not (is_connected a.state) then (not_initialized, a) else r)
      (ap (λ o. publish_info fl e a node_addr o (cut value)) known
        ∙ publish_info-cut fl e a node_addr c value plain
        ∙ ap (λ o. publish_info fl e a node_addr o value) (sym known))

-- The adapter publishes what was emitted, though the event cuts the struct off.
pub handle-emitted :
    (fl : Floats) (emits reads : Env) (a : Adapter) (node_addr : ℕ) (id : CapId) (value : List ℕ)
    → node_addr < 2 ^ 64
    → 20 ≤ length value
    → handle_cap_state_changed fl reads a
        (emitted emits event_cap_state_changed (changed_payload emits node_addr id value))
      ≡ (publish_state fl reads a node_addr (cap_number id) value).1
unfolding handle_cap_state_changed emitted copy_into le_bytes byte_range
handle-emitted fl emits reads a node_addr id value small long =
    ap₂ (λ n k. (publish_state fl reads a n k (copy_into 20 (value ++ pad_bytes emits 44 4))).1)
      (of_bytes-le_bytes 8 node_addr small)
      (of_bytes-le_bytes 4 (cap_number id) (omega (arith, cap_number-lt id)))
    ∙ ap (λ v. (publish_state fl reads a node_addr (cap_number id) v).1)
        (copy_into-take 20 value (pad_bytes emits 44 4) long)
    ∙ ap (λ r. r.1) (publish_state-cut fl reads a node_addr id value)
