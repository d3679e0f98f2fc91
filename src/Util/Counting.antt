-- ===== src/Util/Counting.antt =====
-- Numbers of addresses, and of the blocks that a mask cuts them into.
use ratbond.Util.Masked.{high_digit}
use ratbond.Util.Hosts.{ip_value, AreBytes, ip_value-lt}
use ratbond.Base.{
  ℕ, zero, suc, ◌+◌, ◌*◌, ◌/◌, ◌%◌, ◌^◌, ◌≤◌, ◌<◌, ◌≡◌, refl, sym, ap, ◌∙◌, ◌≢◌, List, [], ◌∷◌,
  arith, length,
}
use native.Mathlib.Nat.{zero-div, mod_self}

pub low_digit : (x y p r s : ℕ) → x ≡ y → x * p + r ≡ y * p + s → r ≡ s
low_digit x y p r s same e = omega (arith, rw same at e)

pub top_digit : (x y p r s : ℕ) → r < p → s < p → x * p + r ≡ y * p + s → (x ≡ y) × (r ≡ s)
top_digit x y p r s h k e =
    let same : x ≡ y = sym (high_digit x p r h) ∙ ap (λ (n : ℕ). n / p) e ∙ high_digit y p s k in
    (same, low_digit x y p r s same e)

-- Addresses of one length are told apart by their numbers.
pub value_injective :
    (a b : List ℕ) → AreBytes a → AreBytes b → length a ≡ length b → ip_value a ≡ ip_value b → a ≡ b
value_injective [] [] h k e v = refl
value_injective [] (y ∷ b) h k e v = absurd (omega (arith, e))
value_injective (x ∷ a) [] h k e v = absurd (omega (arith, e))
value_injective (x ∷ a) (y ∷ b) h k e v =
    let same : length a ≡ length b = omega (arith, e) in
    let (high, low) =
      top_digit x y (256 ^ length b) (ip_value a) (ip_value b) (rw same at (ip_value-lt a h.1))
        (ip_value-lt b k.1) (rw same at v) in
    rw (high, value_injective a b h.1 k.1 same low)

unfoldable pub count_up : ℕ → ℕ → List ℕ
count_up start zero = []
count_up start (suc n) = start ∷ count_up (start + 1) n

pub half_more : (a b : ℕ) → 2 ≤ a → 0 < b → b < a * b
half_more a b h k = grind arith

pub blocks_fit : (a b p : ℕ) → a < b → a * p + p ≤ b * p
blocks_fit a b p h = grind arith

pub block_of : (v p k : ℕ) → k < p → (v / p * p + k) / p * p ≡ v / p * p
block_of v p k h = grind arith

pub next_block : (v p : ℕ) → 0 < p → (v / p * p + p) / p * p ≢ v / p * p
next_block v p h e =
    let more : (v / p * p + p) / p ≡ v / p + 1 = grind arith in grind (arith, rw more at e)

pub wrapped : (v n p : ℕ) → v ≡ n → 0 ≡ v % n / p * p
wrapped v n p e = rw (e, mod_self n, zero-div p) (omega arith)

pub first_value :
    (start k n v : ℕ) (vs : List ℕ)
    → v ≡ start + k
    → vs ≡ count_up (start + (k + 1)) n
    → v ∷ vs ≡ count_up (start + k) (suc n)
unfolding count_up
first_value start k n v vs e es =
    let next : start + (k + 1) ≡ start + k + 1 = omega arith in rw (e, es, next) refl
