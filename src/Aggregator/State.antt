-- ===== src/Aggregator/State.antt =====
-- The globals of p_aggregator.go and p_mqtt.go, with those of parse_cli, and what they send.
use ratbond.Base.{
  ℕ, ◌+◌, Bool, true, false, Option, none, some, List, ◌∷◌, ◌++◌, Text, codes, exit_one, Outcome,
  done, fault, M, ◌>>=◌, ◌>>◌, pure, stop, get, modify,
}
use ratbond.Outside.{Outside}
use ratbond.Main.Cli.{Globals, Cli}
use ratbond.Main.Parse.{parse_cli}
use ratbond.Network.Lookup.{get_mac, to_upper}

-- What the aggregator does to the outside; an MQTT client is named by the call that made it.
pub data Act : Type 0 where
  publishes subscribes : ℕ → Text → Text → Act
  connects : ℕ → Text → ℕ → Act
  disconnects : ℕ → Act
  starts_client : List Text → Act
  pauses : ℕ → Act

-- `none` is a nil client. `acts` holds the newest first.
pub record Aggregator : Type 0 where
  pub globals : Globals
  pub broker : Text
  pub broker_port : ℕ
  pub mqtt_client : Option ℕ
  pub connected : Bool
  pub token : Text
  pub token_secret : Text
  pub argv : Text
  pub mac : Text
  pub run_client : Bool
  pub calls : ℕ
  pub acts : List Act

abbrev pub act : Act → M Aggregator (Unit {0})
act x a = done tt (record a { acts = x ∷ a.acts })

abbrev pub next_call : M Aggregator ℕ
next_call a = done a.calls (record a { calls = a.calls + 1 })

-- An operation on the globals alone.
abbrev pub settle : {A : Type 0} → Aggregator → Outcome Globals A → Outcome Aggregator A
settle a (done x g) = done x (record a { globals = g })
settle a (fault e g) = fault e (record a { globals = g })

abbrev pub on_globals : {A : Type 0} → M Globals A → M Aggregator A
on_globals m a = settle a (m a.globals)

-- The topics, by the MAC address or the token that they name.
abbrev pub need_token_topic : Text → Text
need_token_topic mac = codes "/ratbond/" ++ (mac ++ codes "/need-token")

abbrev pub need_argv_topic : Text → Text
need_argv_topic token = codes "/ratbond/" ++ (token ++ codes "/need-argv")

abbrev pub hello_topic : Text → Text
hello_topic token = codes "/ratbond/" ++ (token ++ codes "/hello")

abbrev pub token_topic : Text → Text
token_topic mac = codes "/ratbondserver/" ++ (mac ++ codes "/token")

abbrev pub argv_topic : Text → Text
argv_topic token = codes "/ratbondserver/" ++ (token ++ codes "/argv")

abbrev pub any_topic : Text → Text
any_topic token = codes "/ratbondserver/" ++ (token ++ codes "/+")

module _ (out : Outside) where
  open out use {interfaces, addr_port, parse_cidr, kong_parse}

  -- g_mac is set to what was found; the caller gets it in upper case.
  unfoldable pub set_mac : Option Text → M Aggregator Text
  unfolding to_upper
  set_mac none = stop exit_one
  set_mac (some mac) = do modify (λ a. record a { mac = mac }); pure (to_upper mac)

  unfoldable pub network_get_mac : M Aggregator Text
  unfolding get_mac set_mac
  network_get_mac = do n ← next_call; a ← get; set_mac (get_mac a.mac (interfaces n))

  abbrev pub is_addr_port : Text → Bool
  is_addr_port t = elim (addr_port t) [ none ↦ false | some x ↦ true ]

  -- parse_cli() on what kong makes of os.Args
  unfoldable pub parse_given : Option Cli → M Aggregator (Unit {0})
  unfolding parse_cli
  parse_given none = stop exit_one
  parse_given (some cli) = do command ← on_globals (parse_cli is_addr_port parse_cidr cli); pure tt
