-- ===== src/Util/Size.antt =====
-- p_utils.go: ByteCountDecimal and ByteCountBinary on the sizes that the program has, which are
-- not negative. The digits of "%.1f" are a parameter: it is the printing of the quotient b / div.
use ratbond.Base.{
  ℕ, zero, suc, ◌+◌, ◌*◌, ◌/◌, ◌%◌, ◌^◌, ◌≤◌, ◌<◌, ◌≡◌, refl, sym, ap, ◌∙◌, ◌⊎◌, inl, inr, Option,
  none, some, arith, ltb, leb, if◌then◌else◌, ltb→lt, leb→le, Bool-cases,
}
use native.Mathlib.Decide.{dec_lt}
use native.Mathlib.Nat.{
  mul_assoc, div-add-mod, mod-lt, pow-suc, pow-zero, mul-div-le, div-lt_self, le-div_iff_mul-le,
  pow-le-pow_left, pow-le-pow_right, le_trans,
}

-- The loop `for n := b / unit; n >= unit; n /= unit { div *= unit; exp++ }`, from `n`, `div` and
-- `exp`; `none` means that it is still running when the fuel is out.
scale : ℕ → ℕ → ℕ → ℕ → ℕ → Option (ℕ × ℕ)
scale zero unit n div exp = none
scale (suc fuel) unit n div exp =
    let rest = scale fuel unit (n / unit) (div * unit) (exp + 1) in
    if leb unit n then rest else some (div, exp)

-- A size is printed as a number of bytes, or as b / div with the letter at `exp`.
pub data Size : Type 0 where
  plain : ℕ → Size
  scaled : ℕ → ℕ → ℕ → Size

byte_count : ℕ → ℕ → ℕ → Option Size
unfolding scale
byte_count fuel unit b =
    if ltb b unit then some (plain b) else elim (scale fuel unit (b / unit) unit 0) [
      | none ↦ none
      | some (div, exp) ↦ some (scaled b div exp)
    ]

pub byte_count_decimal : ℕ → ℕ → Option Size
unfolding byte_count
byte_count_decimal fuel b = byte_count fuel 1000 b

pub byte_count_binary : ℕ → ℕ → Option Size
unfolding byte_count
byte_count_binary fuel b = byte_count fuel 1024 b

-- What ends the loop: `div` is a power of the unit, the largest that is at most `b`.
pub record IsScale (unit b div exp : ℕ) : Type 0 where
  pub power : div ≡ unit ^ (exp + 1)
  pub below : div ≤ b
  pub above : b < div * unit

-- The products behind one more round, with `n = unit * q + r`.
round_below : (unit div q r b : ℕ) → div * (unit * q + r) ≤ b → div * unit * q ≤ b
round_below unit div q r b h = omega (arith, mul_assoc div unit q)

round_above :
    (unit div q r b : ℕ) → r < unit → b < div * (unit * q + r + 1) → b < div * unit * (q + 1)
round_above unit div q r b h k = grind arith

quotient_pos : (unit n : ℕ) → 2 ≤ unit → unit ≤ n → (1 ≤ n / unit) × (n / unit < n)
quotient_pos unit n h k =
    ((le-div_iff_mul-le (omega arith)).1 (omega arith), div-lt_self (omega arith) (omega arith))

below_last : (div n b : ℕ) → 1 ≤ n → div * n ≤ b → div ≤ b
below_last div n b h k = grind arith

above_last : (unit div n b : ℕ) → n < unit → b < div * (n + 1) → b < div * unit
above_last unit div n b h k = grind arith

scale-IsScale :
    (fuel unit b n div exp : ℕ)
    → 2 ≤ unit
    → n < fuel
    → 1 ≤ n
    → div ≡ unit ^ (exp + 1)
    → div * n ≤ b
    → b < div * (n + 1)
    → (div' : ℕ) × (exp' : ℕ) × (scale fuel unit n div exp ≡ some (div', exp'))
      × IsScale unit b div' exp'
unfolding scale
scale-IsScale zero unit b n div exp u f p q r s = elim f [ ]
scale-IsScale (suc fuel) unit b n div exp u f p q r s = elim (Bool-cases (leb unit n)) [
  | inl more ↦
      let (some_left, fewer) = quotient_pos unit n u (leb→le unit n more) in
      let split : unit * (n / unit) + n % unit ≡ n = div-add-mod n unit in
      rw more (
        scale-IsScale fuel unit b (n / unit) (div * unit) (exp + 1) u (omega arith) some_left
          (rw q (sym (pow-suc unit (exp + 1)) ∙ ap (λ (k : ℕ). unit ^ k) (omega arith)))
          (round_below unit div (n / unit) (n % unit) b (rw split r))
          (round_above unit div (n / unit) (n % unit) b (mod-lt n (omega arith)) (rw split s)))
  | inr last ↦ rw last (
    div,
    exp,
    refl,
    record {
      power = q;
      below = below_last div n b p r;
      above = above_last unit div n b (ground arith) s;
    },
  )
]

-- A size below the unit is printed whole. Any other below 2^63 is divided by the largest power of
-- the unit, `unit ^ (exp + 1)`, that is at most it, and `exp` is an index into the six letters
-- "kMGTPE"; fuel above the size is enough.
abbrev pub Shows : ℕ → ℕ → Option Size → Type 0
Shows unit b r =
    ((b < unit) × (r ≡ some (plain b)))
    ⊎ ((div : ℕ) × (exp : ℕ) × (r ≡ some (scaled b div exp)) × IsScale unit b div exp × (exp < 6))

exp_bound : (unit exp : ℕ) → 1000 ≤ unit → unit ^ (exp + 1) < 2 ^ 63 → exp < 6
exp_bound unit exp h k = elim (dec_lt exp 6) [
  | yes p ↦ p
  | no p ↦
      let big : 1000 ^ 7 ≤ unit ^ (exp + 1) =
        le_trans (pow-le-pow_left h 7) (pow-le-pow_right (omega arith) (omega arith)) in
      absurd (omega arith)
]

byte_count-Shows :
    (fuel unit b : ℕ) → 1000 ≤ unit → b < fuel → b < 2 ^ 63 → Shows unit b (byte_count fuel unit b)
unfolding byte_count
byte_count-Shows fuel unit b u f h = elim (Bool-cases (ltb b unit)) [
  | inl small ↦ rw small (inl (ltb→lt b unit small, refl))
  | inr large ↦
      let (some_left, fewer) = quotient_pos unit b (omega arith) (ground arith) in
      let (div, exp, e, v) =
        scale-IsScale fuel unit b (b / unit) unit 0 (omega arith) (omega arith) some_left
          (sym (pow-suc unit 0 ∙ rw pow-zero (omega arith))) (mul-div-le b unit)
          (omega (arith, div-add-mod b unit, mod-lt b {m = unit})) in
      rw (large, e) (inr (div, exp, refl, v, exp_bound unit exp u (ground (arith, v))))
]

-- ByteCountDecimal prints a size below 1000 whole; any other below 2^63 it divides by the largest
-- power `1000 ^ (exp + 1)` that is at most it, and `exp` is an index into the six letters. Fuel above
-- the size is enough.
pub byte_count_decimal-Shows :
    (fuel b : ℕ) → b < fuel → b < 2 ^ 63 → Shows 1000 b (byte_count_decimal fuel b)
unfolding byte_count_decimal
byte_count_decimal-Shows fuel b f h = byte_count-Shows fuel 1000 b (omega arith) f h

-- ByteCountBinary prints a size below 1024 whole; any other below 2^63 it divides by the largest
-- power `1024 ^ (exp + 1)` that is at most it, and `exp` is an index into the six letters. Fuel above
-- the size is enough.
pub byte_count_binary-Shows :
    (fuel b : ℕ) → b < fuel → b < 2 ^ 63 → Shows 1024 b (byte_count_binary fuel b)
unfolding byte_count_binary
byte_count_binary-Shows fuel b f h = byte_count-Shows fuel 1024 b (omega arith) f h

-- ByteCountDecimal and ByteCountBinary print a size below their unit, 1000 and 1024, whole; any
-- other below 2^63 they divide by the largest power of the unit that is at most it, and the exponent
-- is an index into the six letters. Fuel above the size is enough.
pub byte_counts-Show :
    (fuel b : ℕ)
    → b < fuel
    → b < 2 ^ 63
    → Shows 1000 b (byte_count_decimal fuel b) × Shows 1024 b (byte_count_binary fuel b)
byte_counts-Show fuel b f h =
    (byte_count_decimal-Shows fuel b f h, byte_count_binary-Shows fuel b f h)
