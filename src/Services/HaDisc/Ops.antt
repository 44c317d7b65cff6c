-- ===== src/Services/HaDisc/Ops.antt =====
-- services/ha_disc/ha_disc.c: publishing and removing the entities of a node.
use esp32_c6_gateway_os.Base.{
  ℕ, List, Bool, [], ◌∷◌, some, none, true, false, if◌then◌else◌, Option, suc, not, ◌+◌, one_if,
  ◌&&◌, codes, leb, set, ltb, of_bytes, zero, sub32, take,
}
use esp32_c6_gateway_os.Services.Capability.Types.{
  CapId, light_on, light_level, sensor_temperature, sensor_humidity, sensor_contact, sensor_motion,
  cap_number,
}
use esp32_c6_gateway_os.Services.Capability.Info.{CapInfo, get_info}
use esp32_c6_gateway_os.Services.Capability.Report.{get_state}
use esp32_c6_gateway_os.Services.Registry.Types.{Node, NodeState, Limits}
use esp32_c6_gateway_os.Services.Registry.Nodes.{find_node, node_at, get_node_info, NodeInfo}
use esp32_c6_gateway_os.Adapters.Mqtt.State.{is_connected}
use esp32_c6_gateway_os.Adapters.Mqtt.Ops.{publish}
use esp32_c6_gateway_os.Services.HaDisc.State.{
  World, HaDisc, add_pending, pending_at, zero_ha_disc, max_pending,
}
use esp32_c6_gateway_os.Services.HaDisc.Messages.{
  sensor_topic, sensor_payload, light_topic, light_payload, config_topic, sanitized,
}
use esp32_c6_gateway_os.Os.Types.{
  Err, ok, not_found, not_initialized, not_ready, invalid_arg, already_exists,
}
use esp32_c6_gateway_os.Os.Event.State.{Bus, Event, event_cap_state_changed, event_zb_device_left}
use esp32_c6_gateway_os.Os.Event.Subscribe.{subscribe}

abbrev pub event_net_up : ℕ
event_net_up = 2

-- The numbers of `handle_reg_node_ready`, `handle_mqtt_connected` and `handle_node_removed`.
abbrev pub ready_handler : ℕ
ready_handler = 50

abbrev pub connected_handler : ℕ
connected_handler = 51

abbrev pub removed_handler : ℕ
removed_handler = 52

-- `ha_disc_init`
unfoldable pub init : HaDisc → Bus → Err × HaDisc × Bus
init h b =
    let b1 : Bus =
      (subscribe b
        (some (record { type_min = event_cap_state_changed; type_max = event_cap_state_changed }))
        ready_handler 0).1 in
    let b2 : Bus =
      (subscribe b1 (some (record { type_min = event_net_up; type_max = event_net_up }))
        connected_handler 0).1 in
    let b3 : Bus =
      (subscribe b2
        (some (record { type_min = event_zb_device_left; type_max = event_zb_device_left }))
        removed_handler 0).1 in
    if h.initialized
    then (already_exists, h, b)
    else (ok, record zero_ha_disc { initialized = true }, b3)

abbrev pub is_ok : Err → Bool
is_ok ok = true
is_ok e = false

-- `if (result == OS_OK) result = err;`
abbrev pub first_error : Err → Err → Err
first_error result err = if is_ok result then err else result

-- The message of one more entity.
unfoldable pub send : Err × World → List ℕ → List ℕ → Err × World
send (result, w) topic payload =
    let r = publish w.mqtt topic payload in (first_error result r.0, record w { mqtt = r.1 })

module _ (l : Limits) where
  unfoldable pub found_node : World → Option ℕ → Option Node
  found_node w none = none
  found_node w (some i) = some (node_at l w.reg i)

  abbrev pub node_of : World → ℕ → Option Node
  node_of w node_addr = found_node w (find_node w.reg node_addr)

  -- `check_node_has_cap`
  abbrev pub check_node_has_cap : World → ℕ → CapId → Bool
  check_node_has_cap w node_addr id = is_ok (get_state w.caps node_addr id).0

  -- `publish_light_discovery` for a node with a light.
  unfoldable pub publish_light : ℕ → Err × World → Err × World
  publish_light node_addr (result, w) =
      if check_node_has_cap w node_addr light_on
      then send (result, w) (light_topic node_addr)
          (light_payload node_addr (node_of w node_addr)
            (check_node_has_cap w node_addr light_level))
      else (result, w)

  unfoldable pub sensor_message : ℕ → CapId → Option CapInfo → Err × World → Err × World
  sensor_message node_addr id none (result, w) = (first_error result invalid_arg, w)
  sensor_message node_addr id (some info) (result, w) =
      send (result, w) (sensor_topic node_addr id info)
        (sensor_payload node_addr (node_of w node_addr) id info)

  -- `publish_sensor_discovery` for a node with that sensor.
  unfoldable pub publish_sensor : ℕ → CapId → Err × World → Err × World
  publish_sensor node_addr id (result, w) =
      if check_node_has_cap w node_addr id
      then sensor_message node_addr id (get_info (cap_number id)) (result, w)
      else (result, w)

  unfoldable pub is_ready : NodeState → Bool
  is_ready NodeState.ready = true
  is_ready s = false

  unfoldable pub publish_ready : ℕ → World → Option Node → Err × World
  publish_ready node_addr w none = (not_found, w)
  publish_ready node_addr w (some n) =
      if not (is_ready n.state)
      then (not_found, w)
      else publish_sensor node_addr sensor_motion (
          publish_sensor node_addr sensor_contact (
            publish_sensor node_addr sensor_humidity
              (publish_sensor node_addr sensor_temperature (publish_light node_addr (ok, w)))))

  -- `ha_disc_publish_node`
  unfoldable pub publish_node : World → ℕ → Err × World
  publish_node w node_addr =
      if not w.ha.initialized
      then (not_initialized, w)
      else if not (is_connected w.mqtt.state)
      then (ok, record w { ha = add_pending w.ha node_addr })
      else publish_ready node_addr w (node_of w node_addr)

  -- The loop of `ha_disc_flush_pending` over so many slots, from a slot on.
  unfoldable pub flush_slot : World → ℕ → ℕ × World
  flush_slot w i =
      let r = publish_node w (pending_at w.ha i).node_addr in
      let w' : World = r.1 in
      let h : HaDisc = w'.ha in
      if not (pending_at w.ha i).pending
      then (0, w)
      else if is_ok r.0
      then (
        1,
        record w' {
          ha = record h {
            pending = set h.pending i (record (pending_at h i) { pending = false });
            pending_count = sub32 h.pending_count 1;
          };
        },
      )
      else (0, w')

  unfoldable pub flush_from : ℕ → ℕ → World → ℕ × World
  flush_from zero i w = (0, w)
  flush_from (suc rest) i w =
      let one = flush_slot w i in
      let more = flush_from rest (suc i) one.1 in (one.0 + more.0, more.1)

  -- `ha_disc_flush_pending`
  unfoldable pub flush_pending : World → ℕ × World
  flush_pending w = if not w.ha.initialized then (0, w) else flush_from max_pending 0 w

  unfoldable pub publish_info_of : World → Err × Option NodeInfo → ℕ × World
  publish_info_of w (e, none) = (0, w)
  publish_info_of w (e, some info) =
      let r = publish_node w info.ieee_addr in
      if is_ready info.state then (one_if (is_ok r.0), r.1) else (0, w)

  -- The loop of `ha_disc_publish_all` over so many indices, from an index on.
  unfoldable pub publish_from : ℕ → ℕ → World → ℕ × World
  publish_from zero i w = (0, w)
  publish_from (suc rest) i w =
      let one = publish_info_of w (get_node_info w.reg i true) in
      let more = publish_from rest (suc i) one.1 in (one.0 + more.0, more.1)

  -- `ha_disc_publish_all`
  unfoldable pub publish_all : World → ℕ × World
  publish_all w = if not w.ha.initialized then (0, w) else publish_from w.reg.node_count 0 w

  -- `handle_mqtt_connected`
  abbrev pub handle_mqtt_connected : World → World
  handle_mqtt_connected w = (flush_pending w).1

  -- One round of the loop of `ha_disc_task`.
  unfoldable pub task_round : World → World
  task_round w =
      if is_connected w.mqtt.state && ltb 0 w.ha.pending_count then (flush_pending w).1 else w

unfoldable pub remove_sensor : ℕ → Option CapInfo → Err × World → Err × World
remove_sensor node_addr none r = r
remove_sensor node_addr (some info) r =
    send r (config_topic (codes "sensor") node_addr (sanitized info.name)) []

unfoldable pub remove_sensors : ℕ → List CapId → Err × World → Err × World
remove_sensors node_addr [] r = r
remove_sensors node_addr (id ∷ ids) r =
    remove_sensors node_addr ids (remove_sensor node_addr (get_info (cap_number id)) r)

abbrev pub removed_sensors : List CapId
removed_sensors = sensor_temperature ∷ sensor_humidity ∷ sensor_contact ∷ sensor_motion ∷ []

-- `ha_disc_unpublish_node`
unfoldable pub unpublish_node : World → ℕ → Err × World
unpublish_node w node_addr =
    if not w.ha.initialized
    then (not_initialized, w)
    else if not (is_connected w.mqtt.state)
    then (not_ready, w)
    else remove_sensors node_addr removed_sensors (send (ok, w) (light_topic node_addr) [])

-- `handle_node_removed`
unfoldable pub handle_node_removed : World → Event → World
handle_node_removed w event =
    if leb 8 event.payload_len then (unpublish_node w (of_bytes (take 8 event.payload))).1 else w
