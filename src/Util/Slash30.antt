-- ===== src/Util/Slash30.antt =====
-- p_utils.go, IpHosts: on a network with four addresses.
use ratbond.Util.Address.{ip_string}
use ratbond.Base.{
  ℕ, suc, ◌+◌, ◌-◌, ◌*◌, ◌/◌, ◌≤◌, ◌<◌, ◌≡◌, true, false, some, List, [], ◌∷◌, arith,
}
use mathlib.Core.Option
use ratbond.Util.Hosts.{
  Cidr, ipinc, host_bits, mask, contains, hosts_from, inner, ip_hosts, ip_hosts_of,
}

-- The four addresses of a /30, by the last byte `d` of one of them.
module _ (a b c d : ℕ) where
  abbrev slash_30 : Cidr
  slash_30 = record { ip = a ∷ b ∷ c ∷ d ∷ []; ones = 30 }

  abbrev address : ℕ → List ℕ
  address k = a ∷ b ∷ c ∷ (d / 4 * 4 + k) ∷ []

  mask-slash_30 : mask 30 (a ∷ b ∷ c ∷ d ∷ []) ≡ address 0
  unfolding mask host_bits
  mask-slash_30 = ground arith

  contains-address : (k : ℕ) → k < 4 → contains slash_30 (address k) ≡ true
  unfolding contains host_bits
  contains-address k h = ground arith

  ipinc-address : (k : ℕ) → d < 256 → k < 3 → ipinc (address k) ≡ address (k + 1)
  unfolding ipinc
  ipinc-address k h l = ground arith

  contains-past : d < 256 → c < 256 → contains slash_30 (ipinc (address 3)) ≡ false
  unfolding contains ipinc host_bits
  contains-past h l = ground arith

  hosts_from-step :
      (fuel k : ℕ)
      → d < 256
      → k < 3
      → hosts_from (suc fuel) slash_30 (address k)
        ≡ Option.map (λ ips. address k ∷ ips) (hosts_from fuel slash_30 (address (k + 1)))
  unfolding hosts_from
  hosts_from-step fuel k h l =
      rw (contains-address k (omega arith), hosts_from, ipinc-address k h l)

  hosts_from-last :
      (fuel : ℕ)
      → d < 256
      → c < 256
      → hosts_from (suc (suc fuel)) slash_30 (address 3) ≡ some (address 3 ∷ [])
  unfolding hosts_from
  hosts_from-last fuel h l = rw (contains-address 3 (omega arith), hosts_from, contains-past h l)

  hosts_from-slash_30 :
      (fuel : ℕ)
      → d < 256
      → c < 256
      → hosts_from (suc (suc (suc (suc (suc fuel))))) slash_30 (mask 30 (a ∷ b ∷ c ∷ d ∷ []))
        ≡ some (address 0 ∷ address 1 ∷ address 2 ∷ address 3 ∷ [])
  hosts_from-slash_30 fuel h l = rw (
    mask-slash_30,
    hosts_from-step _ 0 h (omega arith),
    hosts_from-step _ 1 h (omega arith),
    hosts_from-step _ 2 h (omega arith),
    hosts_from-last fuel h l,
  )

-- For a /30 network IpHosts returns its second and third address, in this order, whichever of the
-- four the text gave; five rounds of the loop are enough.
pub ip_hosts-slash_30 :
    (a b c d fuel : ℕ)
    → c < 256
    → d < 256
    → 5 ≤ fuel
    → let base = d / 4 * 4 in
      ip_hosts fuel (some (record { ip = a ∷ b ∷ c ∷ d ∷ []; ones = 30 }))
      ≡ some (
          some (
            ip_string (a ∷ b ∷ c ∷ (base + 1) ∷ []) ∷ ip_string (a ∷ b ∷ c ∷ (base + 2) ∷ []) ∷ []))
unfolding inner
ip_hosts-slash_30 a b c d fuel hc hd f =
    let enough : fuel ≡ suc (suc (suc (suc (suc (fuel - 5))))) = omega arith in
    rw enough (ip_hosts_of _ (slash_30 a b c d) _ (hosts_from-slash_30 a b c d (fuel - 5) hd hc))
