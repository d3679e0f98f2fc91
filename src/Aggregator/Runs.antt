-- ===== src/Aggregator/Runs.antt =====
-- p_aggregator.go and p_mqtt.go: the loop and the handlers in any order, as steps.
use ratbond.Aggregator.Handlers.{on_connect, on_lost, on_message}
use ratbond.Aggregator.Loop.{
  start_aggregator, send_stats, aggregator_round, client_begins, set_broker, begun,
}
use ratbond.Aggregator.Mqtt.{mqtt_send, mqtt_check_brokers, do_mqtt_requests}
use mathlib.Core.Path.{subst}
use ratbond.Base.{
  ℕ, ◌+◌, ◌%◌, ◌≡◌, refl, ◌≢◌, ◌&&◌, not, Option, none, some, List, [], ◌==◌, if◌then◌else◌, Elem,
  Text, text_eq, exit_one, Outcome, done, ◌>>=◌, ◌>>◌, pure, stop, get, modify,
}
use ratbond.Outside.{Outside}
use ratbond.Aggregator.State.{Aggregator, starts_client, pauses, act, hello_topic, network_get_mac}
use ratbond.Aggregator.Quiet.{
  Quietly, Ensures, IsQuiet-refl, Quietly-bind, act-Quietly, mqtt_send-Quietly, if-Quietly,
  mqtt_check_brokers-Quietly, network_get_mac-Quietly,
}
use ratbond.Aggregator.Faithful.{
  IsFaithful, Faithfully, Quietly-Faithfully, Faithfully-bind, if-Faithfully,
  do_mqtt_requests-Faithfully, on_connect-Faithfully, on_lost-Faithfully, on_message-Faithfully,
}
use ratbond.Main.Loop.{start_client, exits, returns_early, loops, Start}

module _ (out : Outside) where
  -- One step that does not end the process.
  pub data Step (a b : Aggregator) : Type 0 where
    rounds : (stats : Text) (n m : ℕ) → aggregator_round out stats n a ≡ done m b → Step a b
    connects_up : on_connect out a ≡ done tt b → Step a b
    loses : on_lost out a ≡ done tt b → Step a b
    receives : (topic payload : Text) → on_message out topic payload a ≡ done tt b → Step a b
    begins : client_begins a ≡ done tt b → Step a b

  pub data Run (a : Aggregator) : Aggregator → Type 0 where
    starts : {b : Aggregator} → start_aggregator out a ≡ done tt b → Run a b
    steps : {b c : Aggregator} → Run a b → Step b c → Run a c

  send_stats-Quietly : (stats : Text) → Quietly (send_stats out stats)
  unfolding send_stats
  send_stats-Quietly stats a =
      if-Quietly (a.run_client && not (text_eq a.token [])) (mqtt_send (hello_topic a.token) stats)
        (pure tt) (mqtt_send-Quietly (hello_topic a.token) stats) (λ b. IsQuiet-refl b) a

  housekeeping-Quietly :
      (stats : Text) → Quietly {A = ℕ} (do mqtt_check_brokers out; send_stats out stats; pure 1)
  housekeeping-Quietly stats =
      Quietly-bind (mqtt_check_brokers out) _ (mqtt_check_brokers-Quietly out) λ _.
        Quietly-bind (send_stats out stats) (λ _. pure 1) (send_stats-Quietly stats)
          λ _ b. IsQuiet-refl b

  pure-Faithfully : {A : Type 0} (x : A) → Faithfully out (pure x)
  pure-Faithfully x a f = f

  aggregator_round-Faithfully :
      (stats : Text) (n : ℕ) → Faithfully out (aggregator_round out stats n)
  unfolding aggregator_round
  aggregator_round-Faithfully stats n a f =
      Faithfully-bind out (act (pauses 10)) _
        (Quietly-Faithfully out (act (pauses 10)) (act-Quietly (pauses 10) (λ args e. cc)))
        (λ _ b.
          Faithfully-bind out
            (if (n + 1) % 200 == 0 && b.connected then do_mqtt_requests out else pure tt)
            (λ _.
              if (n + 1) % 1500 == 0
              then (do mqtt_check_brokers out; send_stats out stats; pure 1)
              else pure (n + 1))
            (if-Faithfully out ((n + 1) % 200 == 0 && b.connected) (do_mqtt_requests out) (pure tt)
              (do_mqtt_requests-Faithfully out) (pure-Faithfully tt))
            (λ _.
              if-Faithfully out ((n + 1) % 1500 == 0)
                (do mqtt_check_brokers out; send_stats out stats; pure 1) (pure (n + 1))
                (Quietly-Faithfully out _ (housekeeping-Quietly stats)) (pure-Faithfully (n + 1)))
            b)
        a f

  begun-Faithfully : (s : Start) → Faithfully out (begun s)
  unfolding begun
  begun-Faithfully exits a f = tt
  begun-Faithfully (returns_early tasks) a f = f
  begun-Faithfully (loops name tasks) a f = record { follows = f.follows }

  client_begins-Faithfully : Faithfully out client_begins
  unfolding client_begins
  client_begins-Faithfully a f =
      begun-Faithfully (start_client a.globals.connect_addr a.globals.tunnel_id [] []) a f

  set_broker-Quietly : (o : Option (Text × ℕ)) → Quietly (set_broker out o)
  unfolding set_broker
  set_broker-Quietly none a = tt
  set_broker-Quietly (some (addr, port)) a = record { argv_kept = refl; no_start = λ args h. h }

  -- The last lines of the start.
  begin_requests-Faithfully : Faithfully out (do
    b ← get
    if b.connected then do_mqtt_requests out else pure tt
    mac ← network_get_mac out
    modify (λ c. record c { token_secret = mac }))
  begin_requests-Faithfully a f =
      Faithfully-bind out (if a.connected then do_mqtt_requests out else pure tt) _
        (if-Faithfully out a.connected (do_mqtt_requests out) (pure tt)
          (do_mqtt_requests-Faithfully out) (pure-Faithfully tt))
        (λ _.
          Faithfully-bind out (network_get_mac out)
            (λ mac. modify (λ c. record c { token_secret = mac }))
            (Quietly-Faithfully out (network_get_mac out) (network_get_mac-Quietly out))
            λ mac b g. record { follows = g.follows })
        a f

  start_aggregator-Faithfully : Faithfully out (start_aggregator out)
  unfolding start_aggregator
  start_aggregator-Faithfully a =
      if-Faithfully out (text_eq a.globals.mqtt_broker_addr []) (stop exit_one) _ (λ b f. tt)
        (Faithfully-bind out (set_broker out (out.addr_port a.globals.mqtt_broker_addr)) _
          (Quietly-Faithfully out (set_broker out (out.addr_port a.globals.mqtt_broker_addr))
            (set_broker-Quietly (out.addr_port a.globals.mqtt_broker_addr)))
          λ _.
            Faithfully-bind out (mqtt_check_brokers out) _
              (Quietly-Faithfully out (mqtt_check_brokers out) (mqtt_check_brokers-Quietly out))
              λ _.
                Faithfully-bind out (act (pauses 100)) _
                  (Quietly-Faithfully out (act (pauses 100))
                    (act-Quietly (pauses 100) (λ args e. cc)))
                  λ _. begin_requests-Faithfully)
        a

  Ensures-done :
      {A : Type 0} (o : Outcome Aggregator A) (x : A) (b : Aggregator)
      → o ≡ done x b
      → Ensures (λ _ c. IsFaithful out c) o
      → IsFaithful out b
  Ensures-done o x b e h = subst (Ensures (λ _ c. IsFaithful out c)) e h

  Step-IsFaithful : {a b : Aggregator} → Step a b → IsFaithful out a → IsFaithful out b
  Step-IsFaithful {a = a} (rounds stats n m e) f =
      Ensures-done _ m _ e (aggregator_round-Faithfully stats n a f)
  Step-IsFaithful {a = a} (connects_up e) f = Ensures-done _ tt _ e (on_connect-Faithfully out a f)
  Step-IsFaithful {a = a} (loses e) f = Ensures-done _ tt _ e (on_lost-Faithfully out a f)
  Step-IsFaithful {a = a} (receives topic payload e) f =
      Ensures-done _ tt _ e (on_message-Faithfully out topic payload a f)
  Step-IsFaithful {a = a} (begins e) f = Ensures-done _ tt _ e (client_begins-Faithfully a f)

  Run-IsFaithful : {a b : Aggregator} → Run a b → IsFaithful out a → IsFaithful out b
  Run-IsFaithful {a = a} (starts e) f = Ensures-done _ tt _ e (start_aggregator-Faithfully a f)
  Run-IsFaithful (steps r s) f = Step-IsFaithful s (Run-IsFaithful r f)

-- On a run of the aggregator whose loop, handlers and client goroutines take their steps in any
-- order, every client was started with the list that the stored argv decodes to, and the argv
-- is then not empty. No client has been started before the run.
pub Run-faithful :
    (out : Outside) (a b : Aggregator) (args : List Text)
    → a.acts ≡ []
    → Run out a b
    → Elem (starts_client args) b.acts
    → (b.argv ≢ []) × (out.decode_argv b.argv ≡ some args)
Run-faithful out a b args fresh r started =
    (Run-IsFaithful out r (record {
      follows = λ xs h. absurd (subst (λ l. Elem (starts_client xs) l) fresh h);
    })).follows
      args started
