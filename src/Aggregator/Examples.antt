-- ===== src/Aggregator/Examples.antt =====
-- The theorems about the aggregator at concrete inputs.
use ratbond.Util.Address.{ip_string}
use ratbond.Network.Lookup.{to_upper}
use ratbond.Aggregator.Told.{converse, converse-starts}
use ratbond.Aggregator.Handlers.{on_connect, on_message}
use ratbond.Aggregator.Loop.{start_aggregator, aggregator_round}
use ratbond.Base.{
  ◌≡◌, refl, ◌≢◌, inl, true, false, none, some, [], ◌∷◌, Text, codes, text_eq, decimal, hex,
  Outcome, done, fault,
}
use ratbond.Outside.{Outside}
use ratbond.Outside.Sample.{sample, sample_cli}
use ratbond.Main.Cli.{default_globals, Globals}
use ratbond.Main.Parse.{parse_cli}
use ratbond.Network.Interfaces.{ip_net, macs_of, get_mac_addr}
use ratbond.Aggregator.State.{
  Aggregator, starts_client, publishes, subscribes, need_token_topic, need_argv_topic, token_topic,
  any_topic, argv_topic,
}
use ratbond.Aggregator.Runs.{starts, steps, receives, connects_up, rounds, Run, Run-faithful}

-- An outside with eth0.
abbrev out : Outside
out = record sample {
  interfaces = λ n. some (
      record {
        name = codes "eth0";
        hardware = codes "02:00:00:00:00:0a";
        addrs = some (ip_net (some (codes "10.0.0.1")) ∷ []);
      }
      ∷ []);
}

abbrev hw : Text
hw = codes "02:00:00:00:00:0a"

abbrev upper_hw : Text
upper_hw = codes "02:00:00:00:00:0A"

abbrev fresh : Aggregator
fresh = record {
  globals = record default_globals { mqtt_broker_addr = codes "192.0.2.1:1883" };
  broker = [];
  broker_port = 1833;
  mqtt_client = none;
  connected = false;
  token = [];
  token_secret = codes "testing";
  argv = [];
  mac = [];
  run_client = false;
  calls = 0;
  acts = [];
}

abbrev linked : Aggregator
linked = record fresh { mqtt_client = some 0; calls = 1 }

abbrev told_globals : Globals
told_globals = record fresh.globals {
  use_aes = true;
  connect_addr = codes "192.0.2.1:12345";
  http_listen_addr = [];
  tunnel_id = 660;
  client_tun_ip = codes "10.0.0.5";
  server_tun_ip = codes "10.0.0.6";
}

converse-starts_example :
    converse out upper_hw (codes "t1") (codes "client") linked
    ≡ done tt (record linked {
      connected = true;
      token = codes "t1";
      argv = codes "client";
      mac = hw;
      globals = told_globals;
      calls = 5;
      acts =
          starts_client (codes "client" ∷ [])
          ∷ publishes 0 (need_argv_topic (codes "t1")) (codes "hello")
          ∷ subscribes 0 (any_topic (codes "t1")) []
          ∷ publishes 0 (need_token_topic upper_hw) (codes "testing")
          ∷ subscribes 0 (token_topic upper_hw) []
          ∷ [];
    })
unfolding get_mac_addr macs_of to_upper parse_cli text_eq hex ip_string decimal
converse-starts_example =
    converse-starts out hw (codes "t1") (codes "client") (codes "client") 0 (codes "client" ∷ [])
      sample_cli told_globals linked (λ n. refl) refl refl refl (λ e. cc) (λ e. cc) refl refl refl

-- A run: the start, the connection, the token, the arguments, a round that acts on them.
abbrev after : {A : Type 0} → Outcome Aggregator A → Aggregator
after (done x b) = b
after (fault e b) = b

abbrev s1 : Aggregator
s1 = after (start_aggregator out fresh)

abbrev s2 : Aggregator
s2 = after (on_connect out s1)

abbrev s3 : Aggregator
s3 = after (on_message out (token_topic upper_hw) (codes "t1") s2)

abbrev s4 : Aggregator
s4 = after (on_message out (argv_topic (codes "t1")) (codes "client") s3)

abbrev s5 : Aggregator
s5 = after (aggregator_round out [] 199 s4)

run : Run out fresh s5
unfolding start_aggregator on_connect on_message aggregator_round get_mac_addr macs_of to_upper
    parse_cli text_eq hex ip_string decimal
run =
    steps
      (steps
        (steps (steps (starts refl) (connects_up refl))
          (receives (token_topic upper_hw) (codes "t1") refl))
        (receives (argv_topic (codes "t1")) (codes "client") refl))
      (rounds [] 199 200 refl)

Run-faithful_example : (s5.argv ≢ []) × (out.decode_argv s5.argv ≡ some (codes "client" ∷ []))
unfolding start_aggregator on_connect on_message aggregator_round get_mac_addr macs_of to_upper
    parse_cli text_eq hex ip_string decimal
Run-faithful_example = Run-faithful out fresh s5 (codes "client" ∷ []) refl run (inl refl)
