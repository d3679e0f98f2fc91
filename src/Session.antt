-- ===== src/Session.antt =====
-- r_tunnel.go: RatSession, which both ends keep for a connection; and what the program does to the
-- outside, as values.
use ratbond.Base.{
  ℕ, ◌%◌, ◌^◌, Bool, true, false, Option, none, some, List, [], ◌∷◌, if◌then◌else◌, Text, codes,
}

-- No session gets its `remote`.
pub record RatSession : Type 0 where
  pub convid : ℕ
  pub kcp : ℕ
  pub udp_conn : Option ℕ
  pub remote : Option Text

-- The tuning of a KCP session; `dead_link` is `none` where it is left as kcp-go has it.
pub record KcpOptions : Type 0 where
  pub no_delay : ℕ
  pub interval : ℕ
  pub resend : ℕ
  pub no_congestion : ℕ
  pub mtu : ℕ
  pub send_window : ℕ
  pub receive_window : ℕ
  pub ack_no_delay : Bool
  pub stream_mode : Bool
  pub write_delay : Bool
  pub dead_link : Option ℕ

-- g_kcp_mtu
abbrev pub kcp_mtu : ℕ
kcp_mtu = 1360

-- setClientConnOptions
abbrev pub client_options : KcpOptions
client_options = record {
  no_delay = 1;
  interval = 10;
  resend = 2;
  no_congestion = 1;
  mtu = kcp_mtu;
  send_window = 1024;
  receive_window = 1024;
  ack_no_delay = false;
  stream_mode = true;
  write_delay = false;
  dead_link = none;
}

-- setServerConnOptions
abbrev pub server_options : KcpOptions
server_options = record {
  no_delay = 1;
  interval = 10;
  resend = 2;
  no_congestion = 1;
  mtu = kcp_mtu;
  send_window = 1024;
  receive_window = 1024;
  ack_no_delay = false;
  stream_mode = true;
  write_delay = false;
  dead_link = none;
}

-- setKCPOptions of a RatSession
abbrev pub session_options : KcpOptions
session_options = record client_options { dead_link = some 1000 }

-- What the program does to the outside, and the goroutines that it starts.
pub data Effect : Type 0 where
  kcp_writes : ℕ → List ℕ → Effect
  kcp_closes : ℕ → Effect
  udp_closes : ℕ → Effect
  tun_writes : ℕ → List ℕ → Effect
  runs : List Text → Effect
  sleeps : ℕ → Effect
  sets_options : ℕ → KcpOptions → Effect
  sets_buffers : ℕ → Effect
  read_deadline : ℕ → ℕ → Effect
  write_deadline : ℕ → ℕ → Effect
  starts_reader : ℕ → ℕ → Effect
  starts_tun : ℕ → Effect
  starts_hello : ℕ → ℕ → Effect

-- uint32 and uint64
abbrev pub u32 : ℕ → ℕ
u32 n = n % 2 ^ 32

abbrev pub u64 : ℕ → ℕ
u64 n = n % 2 ^ 64

-- What closing a session does, the last action first.
unfoldable pub close_effects : Option RatSession → List Effect
close_effects none = []
close_effects (some s) =
    kcp_closes s.kcp ∷ elim s.udp_conn [ none ↦ [] | some u ↦ udp_closes u ∷ [] ]

-- RatSession.GetConv and RemoteAddr
unfoldable pub session_conv : Option RatSession → ℕ
session_conv none = 0
session_conv (some s) = s.convid

unfoldable pub session_remote : Option RatSession → Option Text
session_remote none = none
session_remote (some s) = s.remote

-- The cipher that the options name, on a key, and what a KCP socket is opened with: no forward
-- error correction.
pub data Crypt : Type 0 where
  aes_crypt none_crypt : List ℕ → Crypt

pub record KcpSocket : Type 0 where
  pub crypt : Crypt
  pub data_size : ℕ
  pub parity_size : ℕ

-- `derive` is pbkdf2.Key with SHA-1, on the secret, the salt, the rounds and the length.
module _ (derive : Text → Text → ℕ → ℕ → List ℕ) where
  unfoldable pub socket_of : Bool → Text → KcpSocket
  socket_of use_aes secret =
      let key = derive secret (codes "ratbond salt") 1024 32 in
      record {
        crypt = if use_aes then aes_crypt key else none_crypt key;
        data_size = 0;
        parity_size = 0;
      }

  -- The socket that NewSession hands to kcp.NewConn3.
  unfoldable pub session_socket : Bool → Text → KcpSocket
  unfolding socket_of
  session_socket use_aes secret = socket_of use_aes secret

  -- createListener: the address and the socket that it hands to kcp.ListenWithOptions.
  unfoldable pub create_listener : Bool → Text → Text → Text × KcpSocket
  unfolding socket_of
  create_listener use_aes secret listen_addr = (listen_addr, socket_of use_aes secret)
