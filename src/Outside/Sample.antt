-- ===== src/Outside/Sample.antt =====
-- An outside in which every call succeeds, which shows that the laws can be met; the circle is the
-- list of its names and Get returns the first one.
use mathlib.Core.Option.{some-injective}
use ratbond.Packet.Flow.{Header}
use ratbond.Main.Cli.{Cli}
use ratbond.Network.Interfaces.{ip_net}
use ratbond.Base.{
  ℕ, ◌≡◌, sym, ◌∙◌, ◌≢◌, inl, inr, true, false, Option, none, some, List, [], ◌∷◌, arith,
  if◌then◌else◌, Bool-cases, get_or, Elem, Text, codes, text_eq, text_eq_iff, decimal,
}
use ratbond.Outside.{written, received, connected, Outside}

unfoldable pub remove_text : Text → List Text → List Text
remove_text s [] = []
remove_text s (t ∷ ts) = let rest = remove_text s ts in if text_eq t s then rest else t ∷ rest

unfoldable pub first : List Text → Option Text
first [] = none
first (t ∷ ts) = some t

pub remove_text-keeps : (s t : Text) (c : List Text) → t ≢ s → Elem t c → Elem t (remove_text s c)
unfolding remove_text
remove_text-keeps s t [] ne h = absurd h
remove_text-keeps s t (u ∷ us) ne (inl e) = ground (arith, text_eq_iff u s)
remove_text-keeps s t (u ∷ us) ne (inr h) = ground (arith, remove_text-keeps s t us ne h)

drops_kept :
    (s t u : Text) (us : List Text)
    → text_eq u s ≡ false
    → (Elem t (remove_text s us) → (t ≢ s) × Elem t us)
    → Elem t (u ∷ remove_text s us)
    → (t ≢ s) × Elem t (u ∷ us)
drops_kept s t u us other ih (inl e) =
    (λ same. cc ((text_eq_iff u s).1 (sym e ∙ same), other), inl e)
drops_kept s t u us other ih (inr h) = let (ne, e) = ih h in (ne, inr e)

pub remove_text-drops : (s t : Text) (c : List Text) → Elem t (remove_text s c) → (t ≢ s) × Elem t c
unfolding remove_text
remove_text-drops s t [] h = absurd h
remove_text-drops s t (u ∷ us) h = elim (Bool-cases (text_eq u s)) [
  | inl same ↦ let (ne, e) = remove_text-drops s t us (rw same at h) in (ne, inr e)
  | inr other ↦ drops_kept s t u us other (remove_text-drops s t us) (rw other at h)
]

pub first-Elem : (t : Text) (c : List Text) → first c ≡ some t → Elem t c
unfolding first
first-Elem t [] e = cc
first-Elem t (u ∷ us) e = inl (sym (some-injective _ _ e))

pub first-none : (t : Text) (c : List Text) → first c ≡ none → ¬ Elem t c
unfolding first
first-none t [] e h = absurd h
first-none t (u ∷ us) e h = cc

-- The header's protocol is byte 9; the addresses are the single bytes 15 and 19.
unfoldable pub parse : List ℕ → Option Header
parse b = some (record {
  protocol = get_or b 9 0;
  src = decimal (get_or b 15 0);
  dst = decimal (get_or b 19 0);
})

abbrev pub sample_cli : Cli
sample_cli = record {
  debug = false;
  trace = false;
  nosyslog = false;
  secret = [];
  aes = true;
  balance_consistent = true;
  balance_roundrobin = false;
  connect_addr = codes "192.0.2.1:12345";
  listen_addr = [];
  mqtt_broker_addr = [];
  mqtt_username = [];
  mqtt_password = [];
  tunnel_id = 660;
  tun_name = [];
  tunnel_ip = codes "10.0.0.6/30";
  mux = 1;
  http_listen_addr = codes "disable";
  command = codes "client";
}

abbrev pub sample : Outside
sample = record {
  options = record {
    mux_max = 1;
    tunnel_id = 660;
    tunnel_name = [];
    connect_addr = codes "192.0.2.1:12345";
    tunnel_mtu = 1336;
    use_consistent_hashing = true;
    client_tun_ip = codes "10.10.10.1";
    server_tun_ip = codes "10.10.10.2";
  };
  range = λ n ks. ks;
  range-Elem = λ n ks k. (λ h. h, λ h. h);
  now = λ n. n;
  megabits = λ b t. b;
  kcp_state = λ n. 0;
  kcp_write = λ n. written;
  kcp_read = λ n. received (7 ∷ []);
  connect = λ n server src port. connected (record { kcp = n; udp = n });
  get_conv = λ n. n;
  remote_addr = λ n. codes "192.0.2.1:4000";
  is_private = λ t. false;
  open_tun = λ n name. some 9;
  tun_name = λ n. codes "tun0";
  nil_tun_name = none;
  tun_read = λ n. some (7 ∷ []);
  tun_write = λ n. true;
  parse_header = parse;
  output = λ n. ([], false);
  interfaces = λ n. some (
      record {
        name = codes "eth1";
        hardware = codes "02:00:00:00:00:01";
        addrs = some (ip_net (some (codes "10.0.0.1")) ∷ []);
      }
      ∷ []);
  interface_by_index = λ n i. some (codes "eth1");
  resolves = λ t. true;
  http_get = λ n t. some (codes "192.0.2.9");
  addr_port = λ t. some (t, 1883);
  parse_cidr = λ t. some (record { ip = 10 ∷ 0 ∷ 0 ∷ 6 ∷ []; ones = 30 });
  kong_parse = λ args. some sample_cli;
  decode_argv = λ t. some (t ∷ []);
  mqtt_connects = λ n. true;
  Circle = List Text;
  circle_new = [];
  circle_add = λ s c. s ∷ c;
  circle_remove = remove_text;
  circle_get = λ k c. first c;
  members = λ c. c;
  members-new = λ t h. h;
  members-add = λ s t c. (λ h. h, λ h. h);
  members-remove = λ s t c. (remove_text-drops s t c, λ h. remove_text-keeps s t c h.0 h.1);
  members-get = λ s t c e. first-Elem t c e;
  get_fails = λ s t c e. first-none t c e;
}
