-- ===== src/Adapters/Mqtt/Tests.antt =====
-- Runs of the MQTT adapter (adapters/mqtt_adapter/mqtt_adapter.c).
use esp32_c6_gateway_os.Base.{
  List, [], ◌∷◌, none, true, replicate, refl, ◌≡◌, arith, hex, decimal_from, of_bytes, codes,
}
use esp32_c6_gateway_os.Adapters.Mqtt.State.{connected, Adapter, zero_adapter}
use esp32_c6_gateway_os.Adapters.Mqtt.Ops.{
  init, publish, publish_state, handle_cap_state_changed, connect, disconnect, publish_status,
  publish_info, value_text,
}
use esp32_c6_gateway_os.Adapters.Mqtt.Counted.{
  Call, connects, publishes_state, disconnects, run, IsCounted, step, run-IsCounted,
}
use esp32_c6_gateway_os.Services.Capability.Info.{get_info, cap_info_table}
use esp32_c6_gateway_os.Services.Capability.Types.{Floats, light_on, cap_number}
use esp32_c6_gateway_os.Os.Types.{Env}
use esp32_c6_gateway_os.Os.Event.State.{zero_bus, event_cap_state_changed}
use esp32_c6_gateway_os.Os.Event.Publish.{emitted}
use esp32_c6_gateway_os.Services.Capability.Report.{changed_payload}
use esp32_c6_gateway_os.Adapters.Mqtt.Decoded.{handle-emitted}

abbrev floats : Floats
floats = record {
  of_int = λ n. n;
  to_int = λ n. n;
  add = λ a b. a;
  sub = λ a b. a;
  mul = λ a b. a;
  div = λ a b. a;
  abs = λ a. a;
  exceeds = λ a b. true;
  two_places = λ a. [];
}

abbrev env : Env
env = record { now = 250; padding = λ i. 0 }

abbrev calls : List Call
calls = connects ∷ publishes_state floats env 17 3 (42 ∷ replicate 31 0) ∷ disconnects ∷ []

run-IsCounted_example : IsCounted 0 (run (init zero_adapter zero_bus none).1 calls)
run-IsCounted_example = run-IsCounted zero_adapter zero_bus none calls refl

abbrev online : Adapter
online = record zero_adapter { initialized = true; state = connected }

handle-emitted_example :
    handle_cap_state_changed floats env online
      (emitted env event_cap_state_changed (changed_payload env 17 light_on (replicate 32 1)))
    ≡ (publish_state floats env online 17 2 (replicate 32 1)).1
unfolding cap_number
handle-emitted_example =
    handle-emitted floats env env online 17 light_on (replicate 32 1) (omega arith) (omega arith)

-- Online, the level of a light, offline.
sent_run :
    (run (init zero_adapter zero_bus none).1 calls).sent
    ≡ record { topic = codes "bridge/status"; payload = codes "{\"v\":\"online\"}" }
      ∷ record {
        topic = codes "bridge/0000000000000011/light.level/state";
        payload = codes "{\"v\":42,\"ts\":250}";
      }
      ∷ record { topic = codes "bridge/status"; payload = codes "{\"v\":\"offline\"}" }
      ∷ []
unfolding init run step connect disconnect publish_status publish_state publish_info publish
    get_info cap_info_table hex decimal_from value_text of_bytes
sent_run = refl
