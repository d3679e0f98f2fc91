-- ===== src/Main/Parsed.antt =====
-- parse_cli as a whole: it exits on a bad address and on a tunnel network that is not a /30, and
-- otherwise sets every global from its flag.
use ratbond.Util.Slash30.{ip_hosts-slash_30}
use ratbond.Util.Address.{ip_string}
use ratbond.Main.Masks.{IsCidr, is_slash_30, cidr_mask-slash_30}
use ratbond.Main.Parse.{take_addr, given_or, take_http_addr, take_cidr, take_tunnel_ip}
use ratbond.Main.Cli.{Globals}
use ratbond.Base.{
  ℕ, ◌+◌, ◌*◌, ◌/◌, ◌≡◌, refl, ◌⊎◌, inl, inr, Bool, true, false, ◌&&◌, ◌||◌, Option, none, some,
  List, [], ◌∷◌, arith, if◌then◌else◌, Bool-cases, Option-cases, length, Text, codes, text_eq,
  exit_one, done, fault, M, ◌>>◌,
}
use ratbond.Util.Hosts.{Cidr, ip_hosts, AreBytes}

-- A computation that ends as a test says: with the globals changed by `f`, or with an exit.
abbrev pub Checks : {A : Type 0} → Bool → (Globals → Globals) → A → M Globals A → Type 0
Checks ok f a m =
    (g : Globals)
    → ((ok ≡ true) × (m g ≡ done a (f g)))
      ⊎ ((ok ≡ false) × (h : Globals) × (m g ≡ fault exit_one h))

pub Checks-seq :
    {A : Type 0} (a b : Bool) (f k : Globals → Globals) (x : A) (m : M Globals (Unit {0}))
    (n : M Globals A)
    → Checks a f tt m
    → Checks b k x n
    → Checks (a && b) (λ g. k (f g)) x (do m; n)
Checks-seq a b f k x m n cm cn g = elim (cm g) [
  | inr (bad, h, stops) ↦ inr (rw bad refl, h, ground arith)
  | inl (good, goes) ↦ elim (cn (f g)) [
    | inl (good', goes') ↦ inl (rw (good, good') refl, ground arith)
    | inr (bad', h, stops') ↦ inr (rw (good, bad') refl, h, ground arith)
  ]
]

module _ (is_addr_port : Text → Bool) (parse_cidr : Text → Option Cidr) where
  abbrev pub addr_ok : Text → Bool
  addr_ok addr = text_eq addr [] || is_addr_port addr

  abbrev pub http_ok : Text → Bool
  http_ok addr = text_eq addr (codes "disable") || addr_ok addr

  pub take_addr-Checks :
      (addr : Text) (assign f : Globals → Globals)
      → ((g : Globals) → f g ≡ (if text_eq addr [] then g else assign g))
      → Checks (addr_ok addr) f tt (take_addr is_addr_port parse_cidr addr assign)
  unfolding take_addr
  take_addr-Checks addr assign f same g = elim (Bool-cases (text_eq addr [])) [
    | inl empty ↦ inl (rw empty refl, rw (same g, empty) refl)
    | inr given ↦ elim (Bool-cases (is_addr_port addr)) [
      | inl good ↦ inl (rw (given, good) refl, rw (same g, given, good) refl)
      | inr bad ↦ inr (rw (given, bad) refl, assign g, rw (given, bad) refl)
    ]
  ]

  pub take_http_addr-Checks :
      (addr : Text)
      → Checks
          (http_ok addr)
          (λ g. record g {
            http_listen_addr =
                if text_eq addr (codes "disable") then [] else given_or addr g.http_listen_addr;
          })
          tt
          (take_http_addr is_addr_port parse_cidr addr)
  unfolding take_http_addr
  take_http_addr-Checks addr g = elim (Bool-cases (text_eq addr (codes "disable"))) [
    | inl off ↦ inl (rw off refl, rw off refl)
    | inr on ↦ rw on (
        take_addr-Checks addr (λ h. record h { http_listen_addr = addr })
          (λ h. record h { http_listen_addr = given_or addr h.http_listen_addr })
          (λ h. elim (Bool-cases (text_eq addr [])) [
            | inl empty ↦ rw empty refl
            | inr given ↦ rw given refl
          ])
          g)
  ]

-- The address at distance `k` from the network of a /30.
abbrev pub host : ℕ → List ℕ → Text
host k (a ∷ b ∷ c ∷ d ∷ []) = ip_string (a ∷ b ∷ c ∷ (d / 4 * 4 + k) ∷ [])
host k _ = []

bytes_of_four :
    (ip : List ℕ)
    → length ip ≡ 4
    → (a : ℕ) × (b : ℕ) × (c : ℕ) × (d : ℕ) × (ip ≡ a ∷ b ∷ c ∷ d ∷ [])
bytes_of_four [] h = absurd (omega arith)
bytes_of_four (a ∷ []) h = absurd (omega arith)
bytes_of_four (a ∷ b ∷ []) h = absurd (omega arith)
bytes_of_four (a ∷ b ∷ c ∷ []) h = absurd (omega arith)
bytes_of_four (a ∷ b ∷ c ∷ d ∷ []) h = (a, b, c, d, refl)
bytes_of_four (a ∷ b ∷ c ∷ d ∷ e ∷ rest) h = absurd (omega arith)

hosts-slash_30 :
    (cidr : Cidr)
    → AreBytes cidr.ip
    → is_slash_30 (some cidr) ≡ true
    → ip_hosts 5 (some cidr) ≡ some (some (host 1 cidr.ip ∷ host 2 cidr.ip ∷ []))
hosts-slash_30 cidr bytes e =
    let four : length cidr.ip ≡ 4 = ground arith in
    let thirty : cidr.ones ≡ 30 = ground arith in
    let (a, b, c, d, same) = bytes_of_four cidr.ip four in
    let small : AreBytes (a ∷ b ∷ c ∷ d ∷ []) = rw same at bytes in
    rw (same, thirty) (ip_hosts-slash_30 a b c d 5 small.1.1.0 small.1.1.1.0 (omega arith))

module _ (is_addr_port : Text → Bool) (parse_cidr : Text → Option Cidr) where
  abbrev pub tunnel_ok : Text → Bool
  tunnel_ok text = text_eq text [] || is_slash_30 (parse_cidr text)

  -- The address of a tunnel end: `k` is 1 for the client and 2 for the server.
  abbrev pub tunnel_host : ℕ → Text → Text → Text
  tunnel_host k text old =
      if text_eq text []
      then old
      else elim (parse_cidr text) [ none ↦ old | some cidr ↦ host k cidr.ip ]

  abbrev pub set_tunnel_ip : Text → Globals → Globals
  set_tunnel_ip text g = record g {
    client_tun_ip = tunnel_host 1 text g.client_tun_ip;
    server_tun_ip = tunnel_host 2 text g.server_tun_ip;
  }

  take_cidr-Checks :
      (text : Text) (cidr : Cidr)
      → parse_cidr text ≡ some cidr
      → IsCidr cidr
      → Checks
          (is_slash_30 (some cidr))
          (λ g. record g { client_tun_ip = host 1 cidr.ip; server_tun_ip = host 2 cidr.ip })
          tt
          (take_cidr is_addr_port parse_cidr text (some cidr))
  unfolding take_cidr
  take_cidr-Checks text cidr parses fits g = elim (Bool-cases (is_slash_30 (some cidr))) [
    | inl good ↦ inl (
      good,
      rw (cidr_mask-slash_30 cidr fits, good, parses, hosts-slash_30 cidr fits.0 good) refl,
    )
    | inr bad ↦ inr (bad, g, rw (cidr_mask-slash_30 cidr fits, bad) refl)
  ]

  pub take_tunnel_ip-Checks :
      (text : Text)
      → ((cidr : Cidr) → parse_cidr text ≡ some cidr → IsCidr cidr)
      → Checks
          (tunnel_ok text)
          (set_tunnel_ip text)
          tt
          (take_tunnel_ip is_addr_port parse_cidr text)
  unfolding take_tunnel_ip
  take_tunnel_ip-Checks text fits g = elim (Bool-cases (text_eq text [])) [
    | inl empty ↦ inl (rw empty refl, rw empty refl)
    | inr given ↦ elim (Option-cases (parse_cidr text)) [
      | inl bad ↦ inr (rw (given, bad) refl, g, rw (given, bad) (unfold take_cidr in refl))
      | inr (cidr, parses) ↦
          rw (given, parses) (take_cidr-Checks text cidr parses (fits cidr parses) g)
    ]
  ]
