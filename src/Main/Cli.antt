-- ===== src/Main/Cli.antt =====
-- main.go: the CLI struct that kong fills, and the globals that parse_cli sets from it.
use ratbond.Base.{ℕ, Bool, true, false, [], Text, codes}

-- `command` is what ctx.Command() returns.
pub record Cli : Type 0 where
  pub debug : Bool
  pub trace : Bool
  pub nosyslog : Bool
  pub secret : Text
  pub aes : Bool
  pub balance_consistent : Bool
  pub balance_roundrobin : Bool
  pub connect_addr : Text
  pub listen_addr : Text
  pub mqtt_broker_addr : Text
  pub mqtt_username : Text
  pub mqtt_password : Text
  pub tunnel_id : ℕ
  pub tun_name : Text
  pub tunnel_ip : Text
  pub mux : ℕ
  pub http_listen_addr : Text
  pub command : Text

pub record Globals : Type 0 where
  pub debug : Bool
  pub trace : Bool
  pub use_syslog : Bool
  pub use_consistent_hashing : Bool
  pub use_aes : Bool
  pub secret : Text
  pub connect_addr : Text
  pub listen_addr : Text
  pub mqtt_broker_addr : Text
  pub mqtt_username : Text
  pub mqtt_password : Text
  pub http_listen_addr : Text
  pub tunnel_id : ℕ
  pub mux_max : ℕ
  pub client_tun_ip : Text
  pub server_tun_ip : Text

-- The values that the variables are declared with.
abbrev pub default_globals : Globals
default_globals = record {
  debug = false;
  trace = false;
  use_syslog = true;
  use_consistent_hashing = true;
  use_aes = false;
  secret = codes "ratbond";
  connect_addr = [];
  listen_addr = codes "0.0.0.0:12345";
  mqtt_broker_addr = [];
  mqtt_username = [];
  mqtt_password = [];
  http_listen_addr = codes "0.0.0.0:8091";
  tunnel_id = 0;
  mux_max = 1;
  client_tun_ip = codes "10.10.10.1";
  server_tun_ip = codes "10.10.10.2";
}
