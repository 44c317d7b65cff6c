-- ===== src/Adapters/Mqtt/Counted.antt =====
-- What every call of the MQTT adapter (adapters/mqtt_adapter/mqtt_adapter.c) keeps.
use esp32_c6_gateway_os.Base.{
  ℕ, List, [], ◌∷◌, true, ◌≡◌, if_rule, length, not, ◌-◌, arith, ◌%◌, length-append, ◌^◌, ◌≤◌, Bool,
  false, Option, ◌||◌, some, ◌==◌, none, true-false, sym, ◌∙◌, refl,
}
use esp32_c6_gateway_os.Adapters.Mqtt.State.{
  Adapter, is_connected, MqttState, connected, disconnected, is_disconnected, Config,
}
use esp32_c6_gateway_os.Adapters.Mqtt.Ops.{
  publish, connect, publish_status, disconnect, publish_info, publish_state, publish_meta, init,
  task_round, handle_cap_state_changed,
}
use esp32_c6_gateway_os.Os.Types.{Err, Env}
use esp32_c6_gateway_os.Os.Event.State.{Bus, Event, event_cap_state_changed}
use esp32_c6_gateway_os.Services.Capability.Types.{Floats}
use esp32_c6_gateway_os.Services.Capability.Info.{CapInfo, get_info}

-- The counter counts the messages since the adapter was initialised, those before it being `n`, with
-- its wrap-around, and a connection is only there when it was.
pub record IsCounted (n : ℕ) (a : Adapter) : Type 0 where
  pub published : a.stats.messages_published ≡ (length a.sent - n) % 2 ^ 32
  pub before : n ≤ length a.sent
  pub was_initialized : a.initialized ≡ true

-- The calls of an adapter that is initialised.
pub data Call : Type 0 where
  connects disconnects rounds : Call
  publishes : (topic payload : List ℕ) → Call
  publishes_status : (online : Bool) → Call
  publishes_state : (fl : Floats) (e : Env) (node_addr cap_id : ℕ) (value : List ℕ) → Call
  publishes_meta : (node_addr : ℕ) (manufacturer model : Option (List ℕ)) → Call
  handles : (fl : Floats) (e : Env) (event : Event) → Call

unfoldable pub step : Adapter → Call → Adapter
step a connects = (connect a).1
step a disconnects = (disconnect a).1
step a rounds = task_round a
step a (publishes topic payload) = (publish a topic payload).1
step a (publishes_status online) = (publish_status a online).1
step a (publishes_state fl e node_addr cap_id value) =
    (publish_state fl e a node_addr cap_id value).1
step a (publishes_meta node_addr manufacturer model) =
    (publish_meta a node_addr manufacturer model).1
step a (handles fl e event) = handle_cap_state_changed fl e a event

unfoldable pub run : Adapter → List Call → Adapter
run a [] = a
run a (c ∷ cs) = run (step a c) cs

module _ (n : ℕ) where
  publish-IsCounted :
      (a : Adapter) (topic payload : List ℕ)
      → IsCounted n a
      → IsCounted n (publish a topic payload).1
  unfolding publish
  publish-IsCounted a topic payload v =
      if_rule {A = Err × Adapter} (λ r. IsCounted n r.1) (not a.initialized) _ _ (λ _. v)
        (λ _.
          if_rule {A = Err × Adapter} (λ r. IsCounted n r.1) (not (is_connected a.state)) _ _
            (λ _. v)
            (λ _. record {
              published = omega (
                arith,
                v.published,
                v.before,
                length-append a.sent (record { topic = topic; payload = payload } ∷ []),
              );
              before = omega (
                arith,
                v.before,
                length-append a.sent (record { topic = topic; payload = payload } ∷ []),
              );
              was_initialized = v.was_initialized;
            }))

  abbrev After : Err × Adapter → Type 0
  After r = IsCounted n r.1

  with_state :
      (a : Adapter) (st : MqttState) → IsCounted n a → IsCounted n (record a { state = st })
  with_state a st v = record {
    published = v.published;
    before = v.before;
    was_initialized = v.was_initialized;
  }

  status-IsCounted : (a : Adapter) (online : Bool) → IsCounted n a → After (publish_status a online)
  unfolding publish_status
  status-IsCounted a online v =
      if_rule After (not a.initialized) _ _ (λ _. v) (λ _. publish-IsCounted a _ _ v)

  connect-IsCounted : (a : Adapter) → IsCounted n a → After (connect a)
  unfolding connect
  connect-IsCounted a v =
      if_rule After (not a.initialized) _ _ (λ _. v)
        (λ _.
          if_rule After (is_connected a.state) _ _ (λ _. v)
            (λ _.
              status-IsCounted (record a { state = connected }) true (with_state a connected v)))

  disconnect-IsCounted : (a : Adapter) → IsCounted n a → After (disconnect a)
  unfolding disconnect
  disconnect-IsCounted a v =
      if_rule After (not a.initialized) _ _ (λ _. v)
        (λ _. with_state (publish_status a false).1 disconnected (status-IsCounted a false v))

  info-IsCounted :
      (fl : Floats) (e : Env) (a : Adapter) (node_addr : ℕ) (o : Option CapInfo) (value : List ℕ)
      → IsCounted n a
      → After (publish_info fl e a node_addr o value)
  unfolding publish_info
  info-IsCounted fl e a node_addr none value v = v
  info-IsCounted fl e a node_addr (some info) value v = publish-IsCounted a _ _ v

  state-IsCounted :
      (fl : Floats) (e : Env) (a : Adapter) (node_addr cap_id : ℕ) (value : List ℕ)
      → IsCounted n a
      → After (publish_state fl e a node_addr cap_id value)
  unfolding publish_state
  state-IsCounted fl e a node_addr cap_id value v =
      if_rule After (not a.initialized || not (is_connected a.state)) _ _ (λ _. v)
        (λ _. info-IsCounted fl e a node_addr (get_info cap_id) value v)

  step-IsCounted : (a : Adapter) (c : Call) → IsCounted n a → IsCounted n (step a c)
  unfolding step publish_meta handle_cap_state_changed task_round
  step-IsCounted a connects v = connect-IsCounted a v
  step-IsCounted a disconnects v = disconnect-IsCounted a v
  step-IsCounted a rounds v =
      if_rule (IsCounted n) (is_disconnected a.state) _ _
        (λ _. connect-IsCounted _ (record {
          published = v.published;
          before = v.before;
          was_initialized = v.was_initialized;
        }))
        (λ _. v)
  step-IsCounted a (publishes topic payload) v = publish-IsCounted a topic payload v
  step-IsCounted a (publishes_status online) v = status-IsCounted a online v
  step-IsCounted a (publishes_state fl e node_addr cap_id value) v =
      state-IsCounted fl e a node_addr cap_id value v
  step-IsCounted a (publishes_meta node_addr manufacturer model) v =
      if_rule After (not a.initialized || not (is_connected a.state)) _ _ (λ _. v)
        (λ _. publish-IsCounted a _ _ v)
  step-IsCounted a (handles fl e event) v =
      if_rule (IsCounted n) (not (event.type == event_cap_state_changed)) _ _ (λ _. v)
        (λ _. state-IsCounted fl e a _ _ _ v)

  run_from : (a : Adapter) (cs : List Call) → IsCounted n a → IsCounted n (run a cs)
  unfolding run
  run_from a [] v = v
  run_from a (c ∷ cs) v = run_from (step a c) cs (step-IsCounted a c v)

init-IsCounted :
    (a : Adapter) (b : Bus) (config : Option Config)
    → a.initialized ≡ false
    → IsCounted (length a.sent) (init a b config).1
unfolding init
init-IsCounted a b config off =
    if_rule {A = Err × Adapter × Bus} (λ r. IsCounted (length a.sent) r.1) a.initialized _ _
      (λ on. absurd (true-false (sym on ∙ off)))
      (λ _. record { published = omega arith; before = omega arith; was_initialized = refl })

-- From the initialisation on, the counter counts the messages published.
pub run-IsCounted :
    (a : Adapter) (b : Bus) (config : Option Config) (cs : List Call)
    → a.initialized ≡ false
    → IsCounted (length a.sent) (run (init a b config).1 cs)
run-IsCounted a b config cs off =
    run_from (length a.sent) (init a b config).1 cs (init-IsCounted a b config off)
