-- ===== src/Main/Outcome.antt =====
-- parse_cli from its first flag to the command: what it accepts, and what it leaves.
use ratbond.Main.Parsed.{
  Checks, addr_ok, http_ok, tunnel_ok, tunnel_host, Checks-seq, take_addr-Checks,
  take_http_addr-Checks, take_tunnel_ip-Checks,
}
use ratbond.Main.Parse.{given_or, set_flags, set_mqtt_login, parse_cli}
use ratbond.Main.Cli.{Cli, Globals}
use ratbond.Base.{
  ◌≡◌, ◌⊎◌, inl, inr, Bool, true, false, ◌&&◌, ◌||◌, not, Option, some, [], arith, ◌==◌,
  if◌then◌else◌, Text, codes, text_eq, exit_one, done, fault, M, ◌>>◌, pure, modify,
}
use ratbond.Main.Masks.{IsCidr}
use ratbond.Util.Hosts.{Cidr}

module _ (is_addr_port : Text → Bool) (parse_cidr : Text → Option Cidr) (cli : Cli) where
  -- Every address that is given parses, and the tunnel network that is given is a /30.
  abbrev pub accepted : Bool
  accepted =
      addr_ok is_addr_port parse_cidr cli.connect_addr
      && (addr_ok is_addr_port parse_cidr cli.listen_addr
          && (addr_ok is_addr_port parse_cidr cli.mqtt_broker_addr
              && (http_ok is_addr_port parse_cidr cli.http_listen_addr
                  && tunnel_ok is_addr_port parse_cidr cli.tunnel_ip)))

  -- Each global after an accepted command line, by its flag and its old value.
  abbrev pub configured : Globals → Globals
  configured g = record {
    debug = cli.trace || (cli.debug || g.debug);
    trace = cli.trace || g.trace;
    use_syslog = not cli.nosyslog && g.use_syslog;
    use_consistent_hashing =
        not cli.balance_roundrobin && (cli.balance_consistent || g.use_consistent_hashing);
    use_aes = cli.aes || g.use_aes;
    secret = given_or cli.secret g.secret;
    connect_addr = given_or cli.connect_addr g.connect_addr;
    listen_addr = given_or cli.listen_addr g.listen_addr;
    mqtt_broker_addr = given_or cli.mqtt_broker_addr g.mqtt_broker_addr;
    mqtt_username = given_or cli.mqtt_username g.mqtt_username;
    mqtt_password = given_or cli.mqtt_password g.mqtt_password;
    http_listen_addr =
        if text_eq cli.http_listen_addr (codes "disable")
        then []
        else given_or cli.http_listen_addr g.http_listen_addr;
    tunnel_id = if cli.tunnel_id == 0 then g.tunnel_id else cli.tunnel_id;
    mux_max = if cli.mux == 1 then g.mux_max else cli.mux;
    client_tun_ip = tunnel_host is_addr_port parse_cidr 1 cli.tunnel_ip g.client_tun_ip;
    server_tun_ip = tunnel_host is_addr_port parse_cidr 2 cli.tunnel_ip g.server_tun_ip;
  }

  Checks-modify :
      {A : Type 0} (b : Bool) (f k : Globals → Globals) (x : A) (n : M Globals A)
      → Checks b k x n
      → Checks b (λ g. k (f g)) x (do modify f; n)
  Checks-modify b f k x n c g = c (f g)

  Checks-last :
      {A : Type 0} (b : Bool) (f : Globals → Globals) (x : A) (m : M Globals (Unit {0}))
      → Checks b f tt m
      → Checks b f x (do m; pure x)
  Checks-last b f x m c g = elim (c g) [
    | inl (good, goes) ↦ inl (good, ground arith)
    | inr (bad, h, stops) ↦ inr (bad, h, ground arith)
  ]

  -- parse_cli on every command line, if net.ParseCIDR gives addresses of four or sixteen bytes with
  -- a mask that fits: it exits exactly when an address that is given does not parse, or the tunnel
  -- network that is given is not an IPv4 /30; otherwise it returns the command with every global set
  -- from its flag, the client's tunnel address being the first of the network behind the network's
  -- own and the server's the second. Five rounds of IpHosts are enough.
  pub parse_cli-total :
      (g : Globals)
      → ((cidr : Cidr) → parse_cidr cli.tunnel_ip ≡ some cidr → IsCidr cidr)
      → ((accepted ≡ true)
          × (parse_cli is_addr_port parse_cidr cli g ≡ done cli.command (configured g)))
        ⊎ ((accepted ≡ false)
            × (h : Globals) × (parse_cli is_addr_port parse_cidr cli g ≡ fault exit_one h))
  unfolding parse_cli set_flags set_mqtt_login
  parse_cli-total g fits =
      Checks-seq _ _ (λ h. record h { connect_addr = given_or cli.connect_addr h.connect_addr }) _
        cli.command _ _
        (take_addr-Checks is_addr_port parse_cidr cli.connect_addr _ _ (λ h. ground arith))
        (Checks-seq _ _ (λ h. record h { listen_addr = given_or cli.listen_addr h.listen_addr }) _
          cli.command _ _
          (take_addr-Checks is_addr_port parse_cidr cli.listen_addr _ _ (λ h. ground arith))
          (Checks-seq _ _
            (λ h. record h { mqtt_broker_addr = given_or cli.mqtt_broker_addr h.mqtt_broker_addr })
            _ cli.command _ _
            (take_addr-Checks is_addr_port parse_cidr cli.mqtt_broker_addr _ _ (λ h. ground arith))
            (Checks-modify _ (set_mqtt_login cli) _ cli.command _ (
              Checks-seq _ _ _ _ cli.command _ _
                (take_http_addr-Checks is_addr_port parse_cidr cli.http_listen_addr)
                (Checks-last _ _ cli.command _
                  (take_tunnel_ip-Checks is_addr_port parse_cidr cli.tunnel_ip fits))))))
        (set_flags cli g)
