-- ===== src/Services/HaDisc/Leftover.antt =====
-- What `ha_disc_unpublish_node` of services/ha_disc/ha_disc.c leaves.
use esp32_c6_gateway_os.Adapters.Mqtt.State.{Adapter}
use esp32_c6_gateway_os.Services.HaDisc.State.{World}
use esp32_c6_gateway_os.Adapters.Mqtt.Ops.{publish}
use esp32_c6_gateway_os.Services.Capability.Info.{get_info, cap_info_table}
use esp32_c6_gateway_os.Base.{
  ◌⊎◌, inl, inr, bytes_eq, take, if_true, ℕ, List, Bool, [], ◌∷◌, true, not, ◌≡◌, refl, ◌&&◌, ◌++◌,
  subst, length, sym, if_false, append-nil, ap, ◌∙◌, codes, append_assoc,
}
use esp32_c6_gateway_os.Adapters.Mqtt.State.{Message, is_connected}
use esp32_c6_gateway_os.Services.HaDisc.Messages.{
  light_topic, component_of, config_topic, sanitized,
}
use esp32_c6_gateway_os.Services.HaDisc.Ops.{
  publish_sensor, sensor_message, check_node_has_cap, unpublish_node, send, remove_sensors,
  remove_sensor, first_error,
}
use esp32_c6_gateway_os.Os.Types.{Err, ok}
use esp32_c6_gateway_os.Services.Registry.Types.{Limits}
use esp32_c6_gateway_os.Services.Capability.Types.{CapId, cap_number, sensor_contact, sensor_motion}

-- Where the topics of the component `binary_sensor` begin, and whether a topic does.
abbrev pub binary_sensors : List ℕ
binary_sensors = codes "homeassistant/binary_sensor/"

abbrev pub is_binary_sensor : List ℕ → Bool
is_binary_sensor topic = bytes_eq (take 28 topic) binary_sensors

-- No message of a list has a topic of this component.
pub elsewhere : List Message → Bool
elsewhere [] = true
elsewhere (m ∷ ms) = not (is_binary_sensor m.topic) && elsewhere ms

-- The messages that a change of the world publishes, over a connection that stays.
record Sent (w : World) (r : Err × World) (ms : List Message) : Type 0 where
  pub sent : r.1.mqtt.sent ≡ w.mqtt.sent ++ ms
  pub initialized : r.1.mqtt.initialized ≡ true
  pub connected : is_connected r.1.mqtt.state ≡ true

send-Sent :
    (w : World) (r : Err × World) (ms : List Message) (topic payload : List ℕ)
    → Sent w r ms
    → Sent w (send r topic payload) (ms ++ (record { topic = topic; payload = payload } ∷ []))
unfolding send publish
send-Sent w (e, w1) ms topic payload v =
    subst
      (λ (q : Err × Adapter).
        Sent w (first_error e q.0, record w1 { mqtt = q.1 })
          (ms ++ (record { topic = topic; payload = payload } ∷ [])))
      (sym (
        if_false (not w1.mqtt.initialized) _ _ (ap not v.initialized)
        ∙ if_false (not (is_connected w1.mqtt.state)) _ _ (ap not v.connected)))
      (record {
        sent =
            ap (λ xs. xs ++ (record { topic = topic; payload = payload } ∷ [])) v.sent
            ∙ append_assoc w.mqtt.sent ms _;
        initialized = v.initialized;
        connected = v.connected;
      })

-- One message is published, of a topic of this component.
abbrev pub Binary : World → Err × World → Type 0
Binary w r =
    (m : Message) × (r.1.mqtt.sent ≡ w.mqtt.sent ++ m ∷ []) × (take 28 m.topic ≡ binary_sensors)

-- What is removed lies elsewhere than what is published of a sensor.
abbrev pub Leaves : Limits → World → ℕ → CapId → Type 0
Leaves l w node_addr id =
    let r : Err × World = unpublish_node w node_addr in
    Binary w (publish_sensor l node_addr id (ok, w))
    × ((ms : List Message) × (r.1.mqtt.sent ≡ w.mqtt.sent ++ ms)
        × (length ms ≡ 5)
        × (elsewhere ms ≡ true))

module _ (l : Limits) (w : World) (node_addr : ℕ) (on : w.ha.initialized ≡ true)
    (up : w.mqtt.initialized ≡ true) (connected : is_connected w.mqtt.state ≡ true) where
  nothing-Sent : Sent w (ok, w) []
  nothing-Sent = record {
    sent = sym (append-nil w.mqtt.sent);
    initialized = up;
    connected = connected;
  }

  contact-Binary : Binary w (sensor_message l node_addr sensor_contact (get_info 7) (ok, w))
  unfolding sensor_message get_info cap_info_table component_of
  contact-Binary = (_, (send-Sent w (ok, w) [] _ _ nothing-Sent).sent, refl)

  motion-Binary : Binary w (sensor_message l node_addr sensor_motion (get_info 8) (ok, w))
  unfolding sensor_message get_info cap_info_table component_of
  motion-Binary = (_, (send-Sent w (ok, w) [] _ _ nothing-Sent).sent, refl)

  publish_sensor-Binary :
      (id : CapId)
      → (id ≡ sensor_contact) ⊎ (id ≡ sensor_motion)
      → check_node_has_cap l w node_addr id ≡ true
      → Binary w (publish_sensor l node_addr id (ok, w))
  unfolding publish_sensor cap_number
  publish_sensor-Binary id which has =
      subst (Binary w) (sym (if_true _ _ _ has))
        (elim which [ inl e ↦ rw e contact-Binary | inr e ↦ rw e motion-Binary ])

  elsewhere_removed :
      let r : Err × World = unpublish_node w node_addr in
      (ms : List Message) × (r.1.mqtt.sent ≡ w.mqtt.sent ++ ms)
      × (length ms ≡ 5)
      × (elsewhere ms ≡ true)
  unfolding unpublish_node remove_sensors remove_sensor get_info cap_info_table cap_number elsewhere
  elsewhere_removed =
      let v1 = send-Sent w (ok, w) [] (light_topic node_addr) [] nothing-Sent in
      let v2 =
        send-Sent w _ _
          (config_topic (codes "sensor") node_addr (sanitized (codes "sensor.temperature"))) []
          v1 in
      let v3 =
        send-Sent w _ _
          (config_topic (codes "sensor") node_addr (sanitized (codes "sensor.humidity"))) [] v2 in
      let v4 =
        send-Sent w _ _
          (config_topic (codes "sensor") node_addr (sanitized (codes "sensor.contact"))) [] v3 in
      let v5 =
        send-Sent w _ _
          (config_topic (codes "sensor") node_addr (sanitized (codes "sensor.motion"))) [] v4 in
      subst
        (λ (r : Err × World).
          (ms : List Message) × (r.1.mqtt.sent ≡ w.mqtt.sent ++ ms)
          × (length ms ≡ 5)
          × (elsewhere ms ≡ true))
        (sym (
          if_false (not w.ha.initialized) _ _ (ap not on)
          ∙ if_false (not (is_connected w.mqtt.state)) _ _ (ap not connected)))
        (_, v5.sent, refl, refl)

  -- `publish_sensor_discovery` of a contact or a motion sensor that the node has, by an initialised
  -- service over a connection, publishes one message, whose topic begins with
  -- "homeassistant/binary_sensor/". `ha_disc_unpublish_node` of the node publishes five, and no topic
  -- of these begins so.
  pub unpublish_node-Leaves :
      (id : CapId)
      → (id ≡ sensor_contact) ⊎ (id ≡ sensor_motion)
      → check_node_has_cap l w node_addr id ≡ true
      → Leaves l w node_addr id
  unpublish_node-Leaves id which has = (publish_sensor-Binary id which has, elsewhere_removed)
