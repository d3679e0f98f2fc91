-- ===== src/Aggregator/Handlers.antt =====
-- p_mqtt.go: the handlers that the MQTT library calls.
use ratbond.Aggregator.Mqtt.{mqtt_sub, do_mqtt_requests, drop_client}
use ratbond.Aggregator.State.{Aggregator, token_topic, argv_topic, any_topic, network_get_mac}
use ratbond.Base.{
  true, false, ◌&&◌, not, none, [], if◌then◌else◌, Text, text_eq, exit_one, M, ◌>>=◌, ◌>>◌, pure,
  stop, get, modify,
}
use ratbond.Outside.{Outside}

module _ (out : Outside) where
  -- things_connectHandler
  unfoldable pub on_connect : M Aggregator (Unit {0})
  unfolding network_get_mac mqtt_sub do_mqtt_requests
  on_connect = do
    modify (λ a. record a { connected = true; token = [] })
    mac ← network_get_mac out
    mqtt_sub (token_topic mac)
    do_mqtt_requests out

  -- things_connectLostHandler; Disconnect on the nil client is a panic.
  unfoldable pub on_lost : M Aggregator (Unit {0})
  unfolding drop_client
  on_lost = do
    a ← get
    drop_client a.mqtt_client
    modify (λ b. record b { connected = false; mqtt_client = none; token = [] })

  -- A payload on the token's topic, and one on the topic of the argv.
  unfoldable pub take_token : Text → M Aggregator (Unit {0})
  unfolding mqtt_sub
  take_token payload = do modify (λ a. record a { token = payload }); mqtt_sub (any_topic payload)

  unfoldable pub take_argv : Text → M Aggregator (Unit {0})
  take_argv payload = do
    a ← get
    if not (text_eq a.argv []) && not (text_eq a.argv payload)
        then stop exit_one
        else modify (λ b. record b { argv = payload })

  -- things_messagePubHandler
  unfoldable pub on_message : Text → Text → M Aggregator (Unit {0})
  unfolding network_get_mac take_token take_argv
  on_message topic payload = do
    mac ← network_get_mac out
    a ← get
    if text_eq topic (token_topic mac)
        then take_token payload
        else if text_eq topic (argv_topic a.token)
        then take_argv payload
        else pure tt
