-- ===== src/Aggregator/Mqtt.antt =====
-- p_mqtt.go: connecting, subscribing and sending; p_aggregator.go: do_mqtt_requests.
use ratbond.Aggregator.State.{
  publishes, subscribes, connects, disconnects, starts_client, pauses, Aggregator, act, next_call,
  need_token_topic, need_argv_topic, network_get_mac, Act, parse_given,
}
use ratbond.Base.{
  ℕ, Bool, true, false, Option, none, some, List, [], if◌then◌else◌, Text, codes, text_eq,
  nil_deref, M, ◌>>=◌, ◌>>◌, pure, stop, get, modify,
}
use ratbond.Outside.{Outside}

-- An act on the client, unless there is none or it is not connected.
unfoldable pub through : Option ℕ → Bool → (ℕ → Act) → M Aggregator (Unit {0})
through none on make = pure tt
through (some c) true make = act (make c)
through (some c) false make = pure tt

unfoldable pub mqtt_send : Text → Text → M Aggregator (Unit {0})
unfolding through
mqtt_send topic payload = do
  a ← get
  through a.mqtt_client a.connected (λ c. publishes c topic payload)

-- ratbond_something, which only logs
pub ratbond_something : Text → M Aggregator (Unit {0})
ratbond_something payload = pure tt

unfoldable pub mqtt_sub : Text → M Aggregator (Unit {0})
unfolding through
mqtt_sub topic = do a ← get; through a.mqtt_client a.connected (λ c. subscribes c topic [])

-- g_things_mqttclient.Disconnect(1000), and on the nil client.
unfoldable pub drop_client : Option ℕ → M Aggregator (Unit {0})
drop_client none = stop nil_deref
drop_client (some c) = act (disconnects c)

unfoldable pub drop_old : Option ℕ → M Aggregator (Unit {0})
drop_old none = pure tt
drop_old (some c) = act (disconnects c)

module _ (out : Outside) where
  open out use {mqtt_connects, decode_argv, kong_parse}

  -- A client that fails to connect stays in g_things_mqttclient.
  unfoldable pub mqtt_connect_things : M Aggregator Bool
  unfolding drop_old
  mqtt_connect_things = do
    a ← get
    drop_old a.mqtt_client
    n ← next_call
    modify (λ b. record b { mqtt_client = some n })
    act (connects n a.broker a.broker_port)
    if mqtt_connects n then pure true else (do act (pauses 1000); pure false)

  unfoldable pub mqtt_check_brokers : M Aggregator (Unit {0})
  unfolding mqtt_connect_things
  mqtt_check_brokers = do
    a ← get
    if a.connected then pure tt else (do made ← mqtt_connect_things; pure tt)

  -- The client is started once its argv decodes; g_run_client is set by its goroutine.
  unfoldable pub start_with : Option (List Text) → M Aggregator (Unit {0})
  unfolding parse_given
  start_with none = pure tt
  start_with (some args) = do parse_given out (kong_parse args); act (starts_client args)

  unfoldable pub do_mqtt_requests : M Aggregator (Unit {0})
  unfolding network_get_mac mqtt_send start_with
  do_mqtt_requests = do
    a ← get
    if text_eq a.token []
        then (do mac ← network_get_mac out; mqtt_send (need_token_topic mac) a.token_secret)
        else if text_eq a.argv []
        then mqtt_send (need_argv_topic a.token) (codes "hello")
        else if a.run_client
        then pure tt
        else start_with (decode_argv a.argv)
