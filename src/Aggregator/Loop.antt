-- ===== src/Aggregator/Loop.antt =====
-- p_aggregator.go: run_aggregator, its start and one round of its loop.
use ratbond.Aggregator.Mqtt.{mqtt_send, mqtt_check_brokers, do_mqtt_requests}
use ratbond.Aggregator.State.{pauses, Aggregator, act, hello_topic, network_get_mac}
use ratbond.Base.{
  ℕ, ◌+◌, ◌%◌, true, ◌&&◌, not, Option, none, some, [], ◌==◌, if◌then◌else◌, Text, text_eq,
  exit_one, M, ◌>>=◌, ◌>>◌, pure, stop, get, modify,
}
use ratbond.Outside.{Outside}
use ratbond.Main.Loop.{start_client, exits, returns_early, loops, Start}

module _ (out : Outside) where
  open out use {addr_port}

  -- What ParseAddrPort gives
  unfoldable pub set_broker : Option (Text × ℕ) → M Aggregator (Unit {0})
  set_broker none = stop exit_one
  set_broker (some (addr, port)) = modify (λ b. record b { broker = addr; broker_port = port })

  -- What run_aggregator does in front of its loop.
  unfoldable pub start_aggregator : M Aggregator (Unit {0})
  unfolding mqtt_check_brokers do_mqtt_requests network_get_mac set_broker
  start_aggregator = do
    a ← get
    if text_eq a.globals.mqtt_broker_addr [] then stop exit_one else do
      set_broker (addr_port a.globals.mqtt_broker_addr)
      mqtt_check_brokers out
      act (pauses 100)
      b ← get
      if b.connected then do_mqtt_requests out else pure tt
      mac ← network_get_mac out
      modify (λ c. record c { token_secret = mac })

  -- The hello of a running client; `stats` is what printServerList gives.
  unfoldable pub send_stats : Text → M Aggregator (Unit {0})
  unfolding mqtt_send
  send_stats stats = do
    a ← get
    if a.run_client && not (text_eq a.token [])
        then mqtt_send (hello_topic a.token) stats
        else pure tt

  -- One round, with the count that it leaves.
  unfoldable pub aggregator_round : Text → ℕ → M Aggregator ℕ
  unfolding do_mqtt_requests mqtt_check_brokers send_stats
  aggregator_round stats loopcount = do
    act (pauses 10)
    let n = loopcount + 1
    a ← get
    if n % 200 == 0 && a.connected then do_mqtt_requests out else pure tt
    if n % 1500 == 0 then (do mqtt_check_brokers out; send_stats stats; pure 1) else pure n

-- The goroutine run_client up to the point where it sets g_run_client.
unfoldable pub begun : Start → M Aggregator (Unit {0})
begun exits = stop exit_one
begun (returns_early tasks) = pure tt
begun (loops name tasks) = modify (λ b. record b { run_client = true })

unfoldable pub client_begins : M Aggregator (Unit {0})
unfolding start_client begun
client_begins = do a ← get; begun (start_client a.globals.connect_addr a.globals.tunnel_id [] [])
