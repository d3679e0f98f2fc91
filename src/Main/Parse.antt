-- ===== src/Main/Parse.antt =====
-- main.go: parse_cli and the switch of main. What kong and the parsers of addresses return is given;
-- an exit keeps the globals as they are then.
use ratbond.Main.Cli.{Cli, Globals}
use ratbond.Base.{
  ℕ, ◌/◌, ◌%◌, Bool, ◌&&◌, ◌||◌, not, Option, none, some, List, [], ◌∷◌, ◌++◌, ◌==◌, if◌then◌else◌,
  length, replicate, Text, codes, text_eq, hex, deadlock, exit_one, M, ◌>>◌, pure, stop, modify,
}
use ratbond.Util.Hosts.{Cidr, mask, ip_hosts}

-- The lower case hex digits of an IPMask, two for a byte.
unfoldable pub mask_text : List ℕ → Text
mask_text [] = []
mask_text (b ∷ bs) = hex (b / 16) ++ (hex (b % 16) ++ mask_text bs)

-- fmt.Sprintf("%s", ipnet.Mask)
unfoldable pub cidr_mask : Cidr → Text
unfolding mask_text mask
cidr_mask cidr = mask_text (mask cidr.ones (replicate (length cidr.ip) 255))

-- if CLI.x != "" { g_x = CLI.x }
abbrev pub given_or : Text → Text → Text
given_or new old = if text_eq new [] then old else new

-- The flags and plain values, in front of the addresses. CLI.Mux is assigned unless it is 1.
unfoldable pub set_flags : Cli → Globals → Globals
set_flags cli g = record g {
  debug = cli.trace || (cli.debug || g.debug);
  trace = cli.trace || g.trace;
  use_syslog = not cli.nosyslog && g.use_syslog;
  use_consistent_hashing =
      not cli.balance_roundrobin && (cli.balance_consistent || g.use_consistent_hashing);
  secret = given_or cli.secret g.secret;
  mux_max = if cli.mux == 1 then g.mux_max else cli.mux;
  use_aes = cli.aes || g.use_aes;
  tunnel_id = if cli.tunnel_id == 0 then g.tunnel_id else cli.tunnel_id;
}

unfoldable pub set_mqtt_login : Cli → Globals → Globals
set_mqtt_login cli g = record g {
  mqtt_username = given_or cli.mqtt_username g.mqtt_username;
  mqtt_password = given_or cli.mqtt_password g.mqtt_password;
}

-- Whether the mode of a command is known to main.
pub data Mode : Type 0 where
  client_mode server_mode aggregator_mode : Mode

unfoldable pub mode_of : Text → Option Mode
mode_of command =
    if text_eq command (codes "client")
    then some client_mode
    else if text_eq command (codes "server")
    then some server_mode
    else if text_eq command (codes "connectaggregator")
    then some aggregator_mode
    else none

-- `is_addr_port` tells whether netip.ParseAddrPort takes a text, `parse_cidr` is net.ParseCIDR.
module _ (is_addr_port : Text → Bool) (parse_cidr : Text → Option Cidr) where
  -- The assignment stands in front of the check.
  unfoldable pub take_addr : Text → (Globals → Globals) → M Globals (Unit {0})
  take_addr addr assign =
      if text_eq addr []
      then pure tt
      else do modify assign; if is_addr_port addr then pure tt else stop exit_one

  unfoldable pub take_http_addr : Text → M Globals (Unit {0})
  unfolding take_addr
  take_http_addr addr =
      if text_eq addr (codes "disable")
      then modify (λ g. record g { http_listen_addr = [] })
      else take_addr addr (λ g. record g { http_listen_addr = addr })

  -- hosts[0] goes to the client, hosts[1] to the server; fewer are an error.
  unfoldable pub take_hosts : Option (List Text) → M Globals (Unit {0})
  take_hosts none = stop exit_one
  take_hosts (some []) = stop exit_one
  take_hosts (some (host ∷ [])) = stop exit_one
  take_hosts (some (client ∷ server ∷ rest)) =
      modify (λ g. record g { client_tun_ip = client; server_tun_ip = server })

  -- IpHosts makes five rounds on a /30, and is not called on another network.
  unfoldable pub take_cidr : Text → Option Cidr → M Globals (Unit {0})
  unfolding take_hosts cidr_mask ip_hosts
  take_cidr text none = stop exit_one
  take_cidr text (some cidr) =
      if text_eq (cidr_mask cidr) (codes "fffffffc")
      then (elim (ip_hosts 5 (parse_cidr text)) [
        | none ↦ stop deadlock
        | some hosts ↦ take_hosts hosts
      ])
      else stop exit_one

  unfoldable pub take_tunnel_ip : Text → M Globals (Unit {0})
  unfolding take_cidr
  take_tunnel_ip text = if text_eq text [] then pure tt else take_cidr text (parse_cidr text)

  unfoldable pub parse_cli : Cli → M Globals Text
  unfolding set_flags set_mqtt_login take_addr take_http_addr take_tunnel_ip
  parse_cli cli = do
    modify (set_flags cli)
    take_addr cli.connect_addr (λ g. record g { connect_addr = cli.connect_addr })
    take_addr cli.listen_addr (λ g. record g { listen_addr = cli.listen_addr })
    take_addr cli.mqtt_broker_addr (λ g. record g { mqtt_broker_addr = cli.mqtt_broker_addr })
    modify (set_mqtt_login cli)
    take_http_addr cli.http_listen_addr
    take_tunnel_ip cli.tunnel_ip
    pure cli.command
