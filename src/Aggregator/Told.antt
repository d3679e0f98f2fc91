-- ===== src/Aggregator/Told.antt =====
-- p_aggregator.go and p_mqtt.go: a server that answers gets the client started as it told.
use ratbond.Aggregator.Mqtt.{do_mqtt_requests}
use ratbond.Base.{
  ℕ, ◌+◌, ◌≡◌, refl, ◌∙◌, ◌≢◌, true, false, some, List, [], ◌∷◌, Text, codes, done, M, ◌>>◌,
}
use ratbond.Outside.{Outside}
use ratbond.Main.Cli.{Globals, Cli}
use ratbond.Main.Parse.{parse_cli}
use ratbond.Network.Interfaces.{get_mac_addr}
use ratbond.Network.Lookup.{to_upper}
use ratbond.Aggregator.State.{
  Aggregator, starts_client, publishes, subscribes, need_token_topic, need_argv_topic, token_topic,
  argv_topic, any_topic, is_addr_port,
}
use ratbond.Aggregator.Handlers.{on_connect, on_message}
use ratbond.Aggregator.Conversation.{
  IsLive, connects, token_comes, argv_comes, asks_argv, starts_it, bind-done,
}

-- The connection comes up, the server answers the first request with a token and the second with
-- the arguments; a round of the loop asks for the arguments, and a later one acts on them.
unfoldable pub converse : Outside → Text → Text → Text → M Aggregator (Unit {0})
unfolding on_connect on_message do_mqtt_requests to_upper
converse out mac token argv = do
  on_connect out
  on_message out (token_topic mac) token
  do_mqtt_requests out
  on_message out (argv_topic token) argv
  do_mqtt_requests out

-- While eth0 has the one hardware address `hw`, a fresh connection of a client that was told
-- nothing before goes through the whole conversation: it subscribes to the topic of its own
-- address in upper case, asks for a token with its secret, subscribes to the topics of the token
-- that comes, asks for the arguments, and starts one client with the list that the arguments
-- decode to, the globals being what parse_cli makes of that list. The token and the arguments are
-- not empty, the arguments decode, and parse_cli accepts them.
pub converse-starts :
    (out : Outside) (hw token argv command : Text) (c : ℕ) (args : List Text) (cli : Cli)
    (g : Globals) (a : Aggregator)
    → ((n : ℕ) → get_mac_addr (codes "eth0") (out.interfaces n) ≡ some (hw ∷ []))
    → a.mqtt_client ≡ some c
    → a.argv ≡ []
    → a.run_client ≡ false
    → token ≢ []
    → argv ≢ []
    → out.decode_argv argv ≡ some args
    → out.kong_parse args ≡ some cli
    → parse_cli (is_addr_port out) out.parse_cidr cli a.globals ≡ done command g
    → converse out (to_upper hw) token argv a
      ≡ done tt (record a {
        connected = true;
        token = token;
        argv = argv;
        mac = hw;
        globals = g;
        calls = a.calls + 1 + 1 + 1 + 1;
        acts =
            starts_client args
            ∷ publishes c (need_argv_topic token) (codes "hello")
            ∷ subscribes c (any_topic token) []
            ∷ publishes c (need_token_topic (to_upper hw)) a.token_secret
            ∷ subscribes c (token_topic (to_upper hw)) []
            ∷ a.acts;
      })
unfolding converse IsLive
converse-starts out hw token argv command c args cli g a eth0 here none_yet waits given told decodes
      parses accepted =
    let up = record a {
      connected = true;
      token = [];
      mac = hw;
      calls = a.calls + 1 + 1;
      acts =
          publishes c (need_token_topic (to_upper hw)) a.token_secret
          ∷ subscribes c (token_topic (to_upper hw)) []
          ∷ a.acts;
    } in
    let named = record up {
      calls = up.calls + 1;
      token = token;
      acts = subscribes c (any_topic token) [] ∷ up.acts;
    } in
    let asked = record named {
      acts = publishes c (need_argv_topic token) (codes "hello") ∷ named.acts;
    } in
    let ready = record asked { calls = asked.calls + 1; argv = argv } in
    bind-done (on_connect out) _ a up tt (connects out hw eth0 c a here)
    ∙ (bind-done (on_message out (token_topic (to_upper hw)) token) _ up named tt
          (token_comes out hw eth0 c token up (here, refl))
        ∙ (bind-done (do_mqtt_requests out) _ named asked tt
              (asks_argv out hw eth0 c named (here, refl) given none_yet)
            ∙ (bind-done (on_message out (argv_topic token) argv) _ asked ready tt
                  (argv_comes out hw eth0 c argv asked none_yet)
                ∙ starts_it out hw eth0 c ready args cli command g given told waits decodes parses
                    accepted)))
