-- ===== src/Util/Endless.antt =====
-- p_utils.go: IpHosts on a mask of no bits.
use ratbond.Util.AllHosts.{contains_iff}
use ratbond.Util.Masked.{byte_pow, mask_from-AreBytes}
use ratbond.Util.Hosts.{
  mask, contains, ip_value, AreBytes, ip_value-lt, mask_from, ipinc, hosts_from, ip_value-ipinc,
  ip_hosts, length-mask_from,
}
use ratbond.Base.{
  ℕ, zero, suc, ◌-◌, ◌*◌, ◌/◌, ◌^◌, ◌<◌, ◌≡◌, refl, ◌∙◌, true, none, some, List, arith, length,
}
use native.Mathlib.Nat.{div-eq_of_lt}

no_block :
    (n v w : ℕ)
    → v < 256 ^ n
    → w < 256 ^ n
    → v / 2 ^ (8 * n - 0) * 2 ^ (8 * n - 0) ≡ w / 2 ^ (8 * n - 0) * 2 ^ (8 * n - 0)
no_block n v w h k =
    let bits : 8 * n - 0 ≡ 8 * n = omega arith in
    rw (bits, ← byte_pow n, div-eq_of_lt h, div-eq_of_lt k) refl

-- With the mask of no bits every IPv4 address is in the network.
all_contained :
    (ip x : List ℕ)
    → AreBytes ip
    → length ip ≡ 4
    → AreBytes x
    → length x ≡ length ip
    → contains (record { ip = ip; ones = 0 }) x ≡ true
all_contained ip x h four k e =
    (contains_iff ip 0 h four x k e).1 (
      no_block (length ip) (ip_value x) (ip_value ip) (rw e at (ip_value-lt x k))
        (ip_value-lt ip h))

endless_from :
    (ip x : List ℕ) (fuel : ℕ)
    → AreBytes ip
    → length ip ≡ 4
    → AreBytes x
    → length x ≡ length ip
    → hosts_from fuel (record { ip = ip; ones = 0 }) x ≡ none
unfolding hosts_from
endless_from ip x zero h four k e = refl
endless_from ip x (suc fuel) h four k e =
    let (value', bytes', length') = ip_value-ipinc x k in
    rw
      (
        all_contained ip x h four k e,
        hosts_from,
        endless_from ip (ipinc x) fuel h four bytes' (length' ∙ e),
      )
      refl

-- On the mask of no bits the loop of IpHosts never ends, for an IPv4 address.
pub ip_hosts-endless :
    (ip : List ℕ) (fuel : ℕ)
    → AreBytes ip
    → length ip ≡ 4
    → ip_hosts fuel (some (record { ip = ip; ones = 0 })) ≡ none
unfolding ip_hosts mask
ip_hosts-endless ip fuel h four =
    rw
      (endless_from ip (mask_from 0 0 ip) fuel h four (mask_from-AreBytes 0 0 ip h)
        (length-mask_from 0 0 ip))
      refl
