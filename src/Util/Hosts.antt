-- ===== src/Util/Hosts.antt =====
-- p_utils.go: ipinc and IpHosts. An address is its bytes, the most significant first.
use ratbond.Util.Address.{compared, compared-four, ip_string}
use ratbond.Base.{
  ℕ, zero, suc, ◌+◌, ◌-◌, ◌*◌, ◌/◌, ◌%◌, ◌^◌, ◌<◌, ◌≡◌, refl, ap, ◌∙◌, inl, inr, Bool, true, false,
  Option, none, some, List, [], ◌∷◌, map, arith, ◌==◌, if◌then◌else◌, Bool-cases, length, Text,
  text_eq,
}
use mathlib.Core.Option
use Prim.Native.Nat.{min}
use native.Mathlib.Nat.{pow-suc}

-- ipinc walks from the last byte to the first and goes on while a byte wraps to 0; the Boolean
-- says whether it goes on beyond the bytes given.
ipinc_carry : List ℕ → List ℕ × Bool
ipinc_carry [] = ([], true)
ipinc_carry (b ∷ bs) =
    let (bs', carry) = ipinc_carry bs in
    let b' = (b + 1) % 256 in if carry then (b' ∷ bs', b' == 0) else (b ∷ bs', false)

unfoldable pub ipinc : List ℕ → List ℕ
unfolding ipinc_carry
ipinc ip = (ipinc_carry ip).0

-- The byte of a CIDR mask at position `i` keeps what stands above its host bits.
unfoldable pub host_bits : ℕ → ℕ → ℕ
host_bits ones i = min 8 (8 * (i + 1) - ones)

unfoldable pub mask_from : ℕ → ℕ → List ℕ → List ℕ
unfolding host_bits
mask_from ones i [] = []
mask_from ones i (b ∷ bs) =
    let size = 2 ^ host_bits ones i in b / size * size ∷ mask_from ones (i + 1) bs

-- ip.Mask(net.CIDRMask(ones, 8 * len(ip)))
unfoldable pub mask : ℕ → List ℕ → List ℕ
unfolding mask_from
mask ones ip = mask_from ones 0 ip

-- What net.ParseCIDR returns: the address, in four bytes for an IPv4 text and else in sixteen, and the network as its address and mask length.
pub record Cidr : Type 0 where
  pub ip : List ℕ
  pub ones : ℕ

-- ipnet.Contains(ip): both as four bytes where To4 gives these, and with the end of the mask that
-- belongs to those; the network's address is masked already.
unfoldable pub contains : Cidr → List ℕ → Bool
unfolding text_eq mask compared
contains cidr ip =
    let net = mask cidr.ones cidr.ip in
    let n = compared net in text_eq (mask_from cidr.ones (length net - length n) (compared ip)) n

-- The `for` loop; `none` means that it is still running when the fuel is out.
unfoldable pub hosts_from : ℕ → Cidr → List ℕ → Option (List (List ℕ))
unfolding contains ipinc
hosts_from zero cidr ip = none
hosts_from (suc fuel) cidr ip = elim (contains cidr ip) [
  | true ↦ Option.map (λ ips. ip ∷ ips) (hosts_from fuel cidr (ipinc ip))
  | false ↦ some []
]

-- ips[1 : len(ips)-1], or all of a list shorter than 2
drop_last {ℓ} : {A : Type ℓ} → List A → List A
drop_last [] = []
drop_last (x ∷ []) = []
drop_last (x ∷ y ∷ xs) = x ∷ drop_last (y ∷ xs)

unfoldable pub inner : List (List ℕ) → List (List ℕ)
unfolding drop_last
inner [] = []
inner (x ∷ []) = x ∷ []
inner (x ∷ y ∷ xs) = drop_last (y ∷ xs)

-- IpHosts on what net.ParseCIDR made of its text, `none` where that returned an error. The inner
-- `Option` is the Go error; the outer one is about the fuel.
unfoldable pub ip_hosts : ℕ → Option Cidr → Option (Option (List Text))
unfolding hosts_from inner
ip_hosts fuel none = some none
ip_hosts fuel (some cidr) =
    Option.map (λ ips. some (map ip_string (inner ips)))
      (hosts_from fuel cidr (mask cidr.ones cidr.ip))

-- The number that the bytes stand for.
abbrev pub ip_value : List ℕ → ℕ
ip_value [] = 0
ip_value (b ∷ bs) = b * 256 ^ length bs + ip_value bs

abbrev pub AreBytes : List ℕ → Type 0
AreBytes [] = Unit {0}
AreBytes (b ∷ bs) = (b < 256) × AreBytes bs

length-ipinc_carry : (ip : List ℕ) → length (ipinc_carry ip).0 ≡ length ip
unfolding ipinc_carry
length-ipinc_carry [] = refl
length-ipinc_carry (b ∷ bs) = ground (arith, length-ipinc_carry bs)

carry_step :
    (b p q v v' : ℕ)
    → b < 256
    → q ≡ p * 256
    → v' + p ≡ v + 1
    → (b + 1) % 256 * p + v' + (if (b + 1) % 256 == 0 then q else 0) ≡ b * p + v + 1
carry_step b p q v v' h e k = elim (Bool-cases ((b + 1) % 256 == 0)) [
  | inl wraps ↦ rw (wraps) (let last : b ≡ 255 = ground arith in rw last (omega arith))
  | inr stays ↦ rw stays (let next : (b + 1) % 256 ≡ b + 1 = ground arith in rw next (omega arith))
]

ipinc_carry-value :
    (ip : List ℕ)
    → AreBytes ip
    → ip_value (ipinc_carry ip).0 + (if (ipinc_carry ip).1 then 256 ^ length ip else 0)
      ≡ ip_value ip + 1
unfolding ipinc_carry
ipinc_carry-value [] h = refl
ipinc_carry-value (b ∷ bs) h = elim (Bool-cases (ipinc_carry bs).1) [
  | inl on ↦
      rw (on, length-ipinc_carry bs)
        (carry_step b (256 ^ length bs) _ (ip_value bs) _ h.0 (pow-suc 256 (length bs))
          (rw on at (ipinc_carry-value bs h.1)))
  | inr off ↦ rw (off, length-ipinc_carry bs) (ground (arith, rw off at (ipinc_carry-value bs h.1)))
]

ipinc_carry-AreBytes : (ip : List ℕ) → AreBytes ip → AreBytes (ipinc_carry ip).0
unfolding ipinc_carry
ipinc_carry-AreBytes [] h = tt
ipinc_carry-AreBytes (b ∷ bs) h = ground (arith, ipinc_carry-AreBytes bs h.1)

digit_bound : (b p v : ℕ) → b < 256 → v < p → b * p + v < p * 256
digit_bound b p v h k = grind arith

pub ip_value-lt : (ip : List ℕ) → AreBytes ip → ip_value ip < 256 ^ length ip
ip_value-lt [] h = omega arith
ip_value-lt (b ∷ bs) h = rw (pow-suc 256 (length bs)) (digit_bound b _ _ h.0 (ip_value-lt bs h.1))

wrap_value :
    (c : Bool) (p v v' : ℕ) → v' + (if c then p else 0) ≡ v + 1 → v < p → v' < p → v' ≡ (v + 1) % p
wrap_value true p v v' e h k =
    let full : v + 1 ≡ p = omega arith in
    let zero' : v' ≡ 0 = omega arith in rw (full, zero') (grind arith)
wrap_value false p v v' e h k = rw (← e) (grind arith)

-- ipinc adds one to an address of any length, modulo the number of addresses of that length, and
-- its bytes stay bytes.
pub ip_value-ipinc :
    (ip : List ℕ)
    → AreBytes ip
    → (ip_value (ipinc ip) ≡ (ip_value ip + 1) % 256 ^ length ip)
      × AreBytes (ipinc ip)
      × (length (ipinc ip) ≡ length ip)
unfolding ipinc
ip_value-ipinc ip h =
    let bytes = ipinc_carry-AreBytes ip h in
    let len = length-ipinc_carry ip in
    (
      wrap_value _ _ _ _ (ipinc_carry-value ip h) (ip_value-lt ip h)
          (rw len at (ip_value-lt (ipinc_carry ip).0 bytes)),
      bytes,
      len,
    )

pub ip_hosts_of :
    (fuel : ℕ) (cidr : Cidr) (ips : List (List ℕ))
    → hosts_from fuel cidr (mask cidr.ones cidr.ip) ≡ some ips
    → ip_hosts fuel (some cidr) ≡ some (some (map ip_string (inner ips)))
unfolding ip_hosts
ip_hosts_of fuel cidr ips e = ap (Option.map (λ ips. some (map ip_string (inner ips)))) e

pub length-mask_from : (ones i : ℕ) (ip : List ℕ) → length (mask_from ones i ip) ≡ length ip
unfolding mask_from
length-mask_from ones i [] = refl
length-mask_from ones i (b ∷ bs) = ground (arith, length-mask_from ones (i + 1) bs)

-- On four bytes.
pub contains-four :
    (cidr : Cidr) (x : List ℕ)
    → length cidr.ip ≡ 4
    → length x ≡ 4
    → contains cidr x ≡ text_eq (mask cidr.ones x) (mask cidr.ones cidr.ip)
unfolding contains mask
contains-four cidr x h e =
    let net = mask_from cidr.ones 0 cidr.ip in
    let four : length net ≡ 4 = length-mask_from cidr.ones 0 cidr.ip ∙ h in
    let whole : length net - length net ≡ 0 = omega arith in
    rw (compared-four net four, compared-four x e, whole) refl
