-- ===== src/Util/Masked.antt =====
-- p_utils.go, IpHosts: the address that a CIDR mask leaves, as a number: what stands above its host
-- bits.
use ratbond.Util.Hosts.{host_bits, mask_from, ip_value, AreBytes, ip_value-lt, length-mask_from}
use ratbond.Base.{
  ℕ, zero, suc, ◌+◌, ◌-◌, ◌*◌, ◌/◌, ◌^◌, ◌≤◌, ◌<◌, ◌≡◌, refl, ap, ◌∙◌, List, [], ◌∷◌, arith, length,
}
use Prim.Native.Nat.{min}
use native.Mathlib.Decide.{dec_le}
use native.Mathlib.Nat.{
  pow-suc, div-eq_of_lt, div-div-eq-div-mul, one-le-pow, div-mul-le_self, mul_comm, mul_assoc,
  zero-div, add-mul-div_right, pow-le-pow_right,
}

pub pow_add : (a b : ℕ) → 2 ^ (a + b) ≡ 2 ^ a * 2 ^ b
pow_add a zero = let same : a + 0 ≡ a = omega arith in rw same (omega arith)
pow_add a (suc b) =
    let next : a + suc b ≡ suc (a + b) = omega arith in
    rw (next, pow-suc 2 (a + b), pow-suc 2 b, pow_add a b) (mul_assoc (2 ^ a) (2 ^ b) 2)

pub byte_pow : (n : ℕ) → 256 ^ n ≡ 2 ^ (8 * n)
byte_pow zero = refl
byte_pow (suc n) =
    let more : 8 * suc n ≡ 8 * n + 8 = omega arith in
    rw (pow-suc 256 n, byte_pow n, more, pow_add (8 * n) 8) refl

pub two_pow_pos : (n : ℕ) → 0 < 2 ^ n
two_pow_pos n = one-le-pow n 2 (omega arith)

pub high_digit : (a p r : ℕ) → r < p → (a * p + r) / p ≡ a
high_digit a p r h = grind arith

pub mask_from-AreBytes : (ones i : ℕ) (ip : List ℕ) → AreBytes ip → AreBytes (mask_from ones i ip)
unfolding mask_from
mask_from-AreBytes ones i [] h = tt
mask_from-AreBytes ones i (b ∷ bs) h = (
  omega (arith, div-mul-le_self b (2 ^ host_bits ones i), h.0),
  mask_from-AreBytes ones (i + 1) bs h.1,
)

small_block : (b p : ℕ) → b < p → b / p * p ≡ 0
small_block b p h = rw (div-eq_of_lt h) (omega arith)

-- Bytes that are below the mask as a whole.
all_masked :
    (ones i : ℕ) (ip : List ℕ) → ones ≤ 8 * i → AreBytes ip → ip_value (mask_from ones i ip) ≡ 0
unfolding mask_from host_bits
all_masked ones i [] le h = refl
all_masked ones i (b ∷ bs) le h =
    let full : min 8 (8 * (i + 1) - ones) ≡ 8 = omega arith in
    rw (full, small_block b 256 h.0, all_masked ones (i + 1) bs (omega arith) h.1) (omega arith)

-- A byte above the mask, before what the mask leaves of the rest.
above : (b p q m r : ℕ) → p ≡ q * m → 0 < m → b * p + r / m * m ≡ (b * p + r) / m * m
above b p q m r e pos =
    let shape : b * p + r ≡ r + b * q * m = rw e (grind arith) in
    rw (shape, add-mul-div_right r (b * q) pos, e) (grind arith)

-- The byte in which the mask ends, before a rest of which nothing is left.
within : (b p m r : ℕ) → r < p → b / m * m * p ≡ (b * p + r) / (m * p) * (m * p)
within b p m r h =
    rw (mul_comm m p, ← div-div-eq-div-mul (b * p + r) p m, high_digit b p r h) (grind arith)

-- A byte has eight bits, so more host bits leave nothing of it either.
eight_enough : (b n : ℕ) → b < 256 → b / 2 ^ min 8 n * 2 ^ min 8 n ≡ b / 2 ^ n * 2 ^ n
eight_enough b n h = elim (dec_le 8 n) [
  | yes more ↦
      let eight : min 8 n ≡ 8 = omega arith in
      let big : 2 ^ 8 ≤ 2 ^ n = pow-le-pow_right (omega arith) more in
      rw (eight, small_block b 256 h, small_block b (2 ^ n) (omega (arith, big, h))) refl
  | no fewer ↦ let same : min 8 n ≡ n = omega arith in rw same refl
]

tail : {a b : ℕ} → a ≡ b → a + 0 ≡ b
tail e = omega (arith, e)

-- What the mask leaves is the value without what stands below its host bits.
pub mask_from-value :
    (ones i : ℕ) (ip : List ℕ)
    → AreBytes ip
    → ip_value (mask_from ones i ip)
      ≡ ip_value ip / 2 ^ (8 * (i + length ip) - ones) * 2 ^ (8 * (i + length ip) - ones)
unfolding mask_from host_bits
mask_from-value ones i [] h = rw (zero-div (2 ^ (8 * (i + 0) - ones))) (omega arith)
mask_from-value ones i (b ∷ bs) h = elim (dec_le (8 * (i + 1)) ones) [
  | yes kept ↦
      let host = 8 * (i + suc (length bs)) - ones in
      let none_here : min 8 (8 * (i + 1) - ones) ≡ 0 = omega arith in
      let same : 8 * (i + 1 + length bs) - ones ≡ host = omega arith in
      let split : 8 * length bs ≡ (8 * length bs - host) + host = omega arith in
      let power : 256 ^ length bs ≡ 2 ^ (8 * length bs - host) * 2 ^ host =
        byte_pow (length bs) ∙ ap (λ (n : ℕ). 2 ^ n) split ∙ pow_add (8 * length bs - host) host in
      let bare : b / 2 ^ 0 * 2 ^ 0 ≡ b = omega arith in
      rw
        (
          none_here,
          length-mask_from ones (i + 1) bs,
          bare,
          mask_from-value ones (i + 1) bs h.1,
          same,
        )
        (above b (256 ^ length bs) (2 ^ (8 * length bs - host)) (2 ^ host) (ip_value bs) power
          (two_pow_pos host))
  | no ends ↦
      let top = 8 * (i + 1) - ones in
      let host : 8 * (i + suc (length bs)) - ones ≡ top + 8 * length bs = omega (arith, ends) in
      rw
        (
          host_bits,
          eight_enough b top h.0,
          length-mask_from ones (i + 1) bs,
          all_masked ones (i + 1) bs (omega (arith, ends)) h.1,
          host,
          pow_add top (8 * length bs),
          ← byte_pow (length bs),
        )
        (tail (within b (256 ^ length bs) (2 ^ top) (ip_value bs) (ip_value-lt bs h.1)))
]
