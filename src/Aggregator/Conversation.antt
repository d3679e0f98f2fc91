-- ===== src/Aggregator/Conversation.antt =====
-- p_aggregator.go and p_mqtt.go: the conversation that ends with the start of a client.
use mathlib.Core.Path.{ap, ◌∙◌}
use ratbond.Base.{
  ℕ, ◌+◌, ◌≡◌, refl, sym, ◌≢◌, inl, inr, Bool, true, false, none, some, List, [], ◌∷◌, ◌++◌, arith,
  if◌then◌else◌, Bool-cases, Text, codes, text_eq, text_eq_refl, text_eq_iff, done, fault, M, ◌>>=◌,
  pure,
}
use ratbond.Outside.{Outside}
use ratbond.Main.Cli.{Globals, Cli}
use ratbond.Main.Parse.{parse_cli}
use ratbond.Network.Interfaces.{get_mac_addr}
use ratbond.Network.Lookup.{get_mac, to_upper, last_of}
use ratbond.Aggregator.State.{
  Aggregator, starts_client, publishes, subscribes, set_mac, need_token_topic, need_argv_topic,
  token_topic, argv_topic, any_topic, network_get_mac, is_addr_port, parse_given, act, settle,
}
use ratbond.Aggregator.Mqtt.{through, mqtt_send, mqtt_sub, start_with, do_mqtt_requests}
use ratbond.Aggregator.Handlers.{on_message, take_token, take_argv, on_connect}

last_byte : Text → ℕ
last_byte [] = 0
last_byte (x ∷ []) = x
last_byte (x ∷ (y ∷ ys)) = last_byte (y ∷ ys)

last_byte-++ : (s : Text) (x : ℕ) (t : Text) → last_byte (s ++ (x ∷ t)) ≡ last_byte (x ∷ t)
unfolding last_byte
last_byte-++ [] x t = refl
last_byte-++ (y ∷ []) x t = refl
last_byte-++ (y ∷ (z ∷ s)) x t = last_byte-++ (z ∷ s) x t

byte_argv : (token : Text) → last_byte (argv_topic token) ≡ 118
unfolding last_byte
byte_argv token = last_byte-++ (47 ∷ token) 47 (codes "argv")

byte_token : (mac : Text) → last_byte (token_topic mac) ≡ 110
unfolding last_byte
byte_token mac = last_byte-++ (47 ∷ mac) 47 (codes "token")

other_topic : (token mac : Text) → argv_topic token ≢ token_topic mac
other_topic token mac e =
    let same : Path ℕ 118 110 = sym (byte_argv token) ∙ (ap last_byte e ∙ byte_token mac) in
    omega arith

text_eq_differ : (s t : Text) → s ≢ t → text_eq s t ≡ false
text_eq_differ s t other = elim (Bool-cases (text_eq s t)) [
  | inl same ↦ absurd (other ((text_eq_iff s t).0 same))
  | inr differ ↦ differ
]

pub bind-done :
    {A B : Type 0} (m : M Aggregator A) (f : A → M Aggregator B) (a b : Aggregator) (x : A)
    → m a ≡ done x b
    → (do y ← m; f y) a ≡ f x b
bind-done m f a b x e = ap (λ o. elim o [ done y w ↦ f y w | fault q w ↦ fault q w ]) e

if-no :
    {A : Type 0} (b : Bool) (m n : M Aggregator A) (a : Aggregator)
    → b ≡ false
    → (if b then m else n) a ≡ n a
if-no true m n a e = cc
if-no false m n a e = refl

module _ (out : Outside) (hw : Text)
    (eth0 : (n : ℕ) → get_mac_addr (codes "eth0") (out.interfaces n) ≡ some (hw ∷ [])) where
  found : (old : Text) (n : ℕ) → get_mac old (out.interfaces n) ≡ some hw
  unfolding get_mac last_of
  found old n = ap (λ o. elim o [ none ↦ none | some macs ↦ some (last_of old macs) ]) (eth0 n)

  abbrev asked : Aggregator → Aggregator
  asked a = record a { mac = hw; calls = a.calls + 1 }

  got_mac : (a : Aggregator) → network_get_mac out a ≡ done (to_upper hw) (asked a)
  unfolding network_get_mac set_mac
  got_mac a = ap (λ o. set_mac out o (record a { calls = a.calls + 1 })) (found a.mac a.calls)

  module _ (c : ℕ) where
    unfoldable pub IsLive : Aggregator → Type 0
    IsLive a = (a.mqtt_client ≡ some c) × (a.connected ≡ true)

    subscribed :
        (topic : Text) (a : Aggregator)
        → IsLive a
        → mqtt_sub topic a ≡ done tt (record a { acts = subscribes c topic [] ∷ a.acts })
    unfolding mqtt_sub through IsLive
    subscribed topic a live = rw (live.0, live.1) refl

    sent :
        (topic payload : Text) (a : Aggregator)
        → IsLive a
        → mqtt_send topic payload a
          ≡ done tt (record a { acts = publishes c topic payload ∷ a.acts })
    unfolding mqtt_send through IsLive
    sent topic payload a live = rw (live.0, live.1) refl

    pub token_comes :
        (token : Text) (a : Aggregator)
        → IsLive a
        → on_message out (token_topic (to_upper hw)) token a
          ≡ done tt (record a {
            mac = hw;
            calls = a.calls + 1;
            token = token;
            acts = subscribes c (any_topic token) [] ∷ a.acts;
          })
    unfolding on_message take_token IsLive
    token_comes token a live =
        bind-done (network_get_mac out) _ a (asked a) (to_upper hw) (got_mac a)
        ∙ rw (text_eq_refl (token_topic (to_upper hw))) (
            subscribed (any_topic token) (record a { mac = hw; calls = a.calls + 1; token = token })
              live)

    pub argv_comes :
        (argv : Text) (a : Aggregator)
        → a.argv ≡ []
        → on_message out (argv_topic a.token) argv a
          ≡ done tt (record a { mac = hw; calls = a.calls + 1; argv = argv })
    unfolding on_message take_argv
    argv_comes argv a none_yet =
        bind-done (network_get_mac out) _ a (asked a) (to_upper hw) (got_mac a)
        ∙ rw
            (
              text_eq_differ _ _ (other_topic a.token (to_upper hw)),
              text_eq_refl (argv_topic a.token),
              (text_eq_iff a.argv []).1 none_yet,
            )
            refl

    asks_token :
        (a : Aggregator)
        → IsLive a
        → a.token ≡ []
        → do_mqtt_requests out a
          ≡ done tt (record a {
            mac = hw;
            calls = a.calls + 1;
            acts = publishes c (need_token_topic (to_upper hw)) a.token_secret ∷ a.acts;
          })
    unfolding do_mqtt_requests IsLive
    asks_token a live no_token = rw ((text_eq_iff a.token []).1 no_token) (
        bind-done (network_get_mac out) (λ mac. mqtt_send (need_token_topic mac) a.token_secret) a
          (asked a) (to_upper hw) (got_mac a)
        ∙ sent (need_token_topic (to_upper hw)) a.token_secret (asked a) live)

    pub asks_argv :
        (a : Aggregator)
        → IsLive a
        → a.token ≢ []
        → a.argv ≡ []
        → do_mqtt_requests out a
          ≡ done tt
              (record a { acts = publishes c (need_argv_topic a.token) (codes "hello") ∷ a.acts })
    unfolding do_mqtt_requests
    asks_argv a live given no_argv =
        rw (text_eq_differ a.token [] given, (text_eq_iff a.argv []).1 no_argv)
          (sent (need_argv_topic a.token) (codes "hello") a live)

    parsed :
        (a : Aggregator) (args : List Text) (cli : Cli) (command : Text) (g : Globals)
        → out.kong_parse args ≡ some cli
        → parse_cli (is_addr_port out) out.parse_cidr cli a.globals ≡ done command g
        → parse_given out (out.kong_parse args) a ≡ done tt (record a { globals = g })
    unfolding parse_given
    parsed a args cli command g parses accepted =
        rw parses
          (ap (λ o. elim (settle a o) [ done y w ↦ done tt w | fault e w ↦ fault e w ]) accepted)

    pub starts_it :
        (a : Aggregator) (args : List Text) (cli : Cli) (command : Text) (g : Globals)
        → a.token ≢ []
        → a.argv ≢ []
        → a.run_client ≡ false
        → out.decode_argv a.argv ≡ some args
        → out.kong_parse args ≡ some cli
        → parse_cli (is_addr_port out) out.parse_cidr cli a.globals ≡ done command g
        → do_mqtt_requests out a
          ≡ done tt (record a { globals = g; acts = starts_client args ∷ a.acts })
    unfolding do_mqtt_requests start_with
    starts_it a args cli command g given told waits decodes parses accepted =
        rw (text_eq_differ a.token [] given, text_eq_differ a.argv [] told)
          (if-no a.run_client (pure tt) (start_with out (out.decode_argv a.argv)) a waits
            ∙ (ap (λ o. start_with out o a) decodes
                ∙ bind-done (parse_given out (out.kong_parse args)) (λ _. act (starts_client args))
                    a (record a { globals = g }) tt (parsed a args cli command g parses accepted)))

    pub connects :
        (a : Aggregator)
        → a.mqtt_client ≡ some c
        → on_connect out a
          ≡ done tt (record a {
            connected = true;
            token = [];
            mac = hw;
            calls = a.calls + 1 + 1;
            acts =
                publishes c (need_token_topic (to_upper hw)) a.token_secret
                ∷ subscribes c (token_topic (to_upper hw)) []
                ∷ a.acts;
          })
    unfolding on_connect IsLive
    connects a here =
        let up = record a { connected = true; token = [] } in
        let named = record up { mac = hw; calls = a.calls + 1 } in
        bind-done (network_get_mac out) _ up named (to_upper hw) (got_mac up)
        ∙ (bind-done (mqtt_sub (token_topic (to_upper hw))) (λ _. do_mqtt_requests out) named
              (record named { acts = subscribes c (token_topic (to_upper hw)) [] ∷ a.acts }) tt
              (subscribed (token_topic (to_upper hw)) named (here, refl))
            ∙ asks_token
                (record named { acts = subscribes c (token_topic (to_upper hw)) [] ∷ a.acts })
                (here, refl) refl)
