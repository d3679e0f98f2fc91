-- ===== src/Outside.antt =====
-- What the program calls and does not contain, as one record of operations and of the laws that
-- their documentation states: the Go runtime (map order, clock), kcp-go, the tun device of water,
-- the hash circle of stathat.com/c/consistent, golang.org/x/net/ipv4, and shell commands. The
-- number that most operations take counts the calls so far, so that each call may have a result
-- of its own. The options of the command line are in here too: they are fixed once it is parsed.
use ratbond.Base.{ℕ, ◌≡◌, ◌≢◌, ◌↔◌, ◌⊎◌, Bool, Option, none, some, List, Elem, Text}
pub mod Sample
use ratbond.Packet.Flow.{Header}
use ratbond.Main.Cli.{Cli}
use ratbond.Util.Hosts.{Cidr}
use ratbond.Network.Interfaces.{Interface}

-- What a read or write on a KCP session returns: `timed_out` is the error "timeout".
pub data Written : Type 0 where
  written timed_out failed : Written

pub data Received : Type 0 where
  received : List ℕ → Received
  read_timed_out read_failed : Received

-- The globals that parse_cli sets.
pub record Options : Type 0 where
  pub mux_max : ℕ
  pub tunnel_id : ℕ
  pub tunnel_name : Text
  pub connect_addr : Text
  pub tunnel_mtu : ℕ
  pub use_consistent_hashing : Bool
  pub client_tun_ip : Text
  pub server_tun_ip : Text

-- A UDP socket and the KCP session on it, as `create_session` gets them.
pub record Handles : Type 0 where
  pub kcp : ℕ
  pub udp : ℕ

-- An address that does not resolve or bind, an error of kcp.NewConn3, or a session.
pub data Connected : Type 0 where
  unresolved refused : Connected
  connected : Handles → Connected

pub record Outside : Type 1 where
  pub options : Options
  -- `for k := range m`: every key is visited, in an order that is not specified.
  pub range : ℕ → List ℕ → List ℕ
  pub range-Elem : (n : ℕ) (ks : List ℕ) (k : ℕ) → Elem k (range n ks) ↔ Elem k ks
  -- time.Now(), in nanoseconds; the float32 of a rate in Mbit/s, as its bits.
  pub now : ℕ → ℕ
  pub megabits : ℕ → ℕ → ℕ
  -- kcp-go
  pub kcp_state : ℕ → ℕ
  pub kcp_write : ℕ → Written
  pub kcp_read : ℕ → Received
  -- net.ResolveUDPAddr of the server's address and of a local address and port, net.ListenUDP on the
  -- local address and a random port, and kcp.NewConn3 on that socket; the texts are the server's and
  -- the local address, the second number is the local port.
  pub connect : ℕ → Text → Text → ℕ → Connected
  pub get_conv : ℕ → ℕ
  pub remote_addr : ℕ → Text
  -- net.ParseIP and IsPrivate of the result; ParseIP gives nil, which is not private, for a text
  -- that is no address.
  pub is_private : Text → Bool
  -- water: New takes the name of its configuration; reading is `none` on an error, writing tells
  -- whether it succeeded.
  pub open_tun : ℕ → Text → Option ℕ
  pub tun_name : ℕ → Text
  -- Name() of the nil interface; `none` is a panic.
  pub nil_tun_name : Option Text
  pub tun_read : ℕ → Option (List ℕ)
  pub tun_write : ℕ → Bool
  -- ipv4.ParseHeader; what CombinedOutput of a command returns, and whether the command failed
  pub parse_header : List ℕ → Option Header
  pub output : ℕ → Text × Bool
  -- net.Interfaces and net.InterfaceByIndex, `none` for an error; whether net.ResolveTCPAddr takes a
  -- text; and the body that http.Client.Get returns from api.ipify.org through a dialer that is
  -- bound to an address, `none` for an error.
  pub interfaces : ℕ → Option (List Interface)
  pub interface_by_index : ℕ → ℕ → Option Text
  pub resolves : Text → Bool
  pub http_get : ℕ → Text → Option Text
  -- netip.ParseAddrPort, as the texts of the address and its port; net.ParseCIDR; kong.Parse on
  -- os.Args, `none` where it ends the process; json.Unmarshal into a list of texts; whether
  -- mqtt.Client.Connect succeeds.
  pub addr_port : Text → Option (Text × ℕ)
  pub parse_cidr : Text → Option Cidr
  pub kong_parse : List Text → Option Cli
  pub decode_argv : Text → Option (List Text)
  pub mqtt_connects : ℕ → Bool
  -- stathat.com/c/consistent: a circle holds a set of names; Get fails on the empty circle alone.
  pub Circle : Type 0
  pub circle_new : Circle
  pub circle_add : Text → Circle → Circle
  pub circle_remove : Text → Circle → Circle
  pub circle_get : Text → Circle → Option Text
  pub members : Circle → List Text
  pub members-new : (t : Text) → ¬ Elem t (members circle_new)
  pub members-add :
      (s t : Text) (c : Circle) → Elem t (members (circle_add s c)) ↔ ((t ≡ s) ⊎ Elem t (members c))
  pub members-remove :
      (s t : Text) (c : Circle)
      → Elem t (members (circle_remove s c)) ↔ ((t ≢ s) × Elem t (members c))
  pub members-get : (s t : Text) (c : Circle) → circle_get s c ≡ some t → Elem t (members c)
  pub get_fails : (s t : Text) (c : Circle) → circle_get s c ≡ none → ¬ Elem t (members c)
