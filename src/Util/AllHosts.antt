-- ===== src/Util/AllHosts.antt =====
-- p_utils.go: the loop of IpHosts on any network, by the numbers that its addresses stand for.
use ratbond.Util.Masked.{mask_from-value, mask_from-AreBytes}
use ratbond.Util.Hosts.{
  mask, Cidr, contains, ip_value, AreBytes, mask_from, length-mask_from, contains-four,
}
use ratbond.Util.Counting.{value_injective, count_up}
use ratbond.Base.{
  ℕ, ◌+◌, ◌-◌, ◌*◌, ◌/◌, ◌^◌, ◌≤◌, ◌≡◌, refl, sym, ap, ◌∙◌, ◌↔◌, true, List, map, arith, length,
  Elem, text_eq, text_eq_iff,
}

module _ (ip : List ℕ) (ones : ℕ) (bytes : AreBytes ip) (four : length ip ≡ 4) where
  abbrev cidr : Cidr
  cidr = record { ip = ip; ones = ones }

  -- How many addresses the network has, and the first of them.
  abbrev size : ℕ
  size = 2 ^ (8 * length ip - ones)

  abbrev base : ℕ
  base = ip_value ip / size * size

  mask-value :
      (x : List ℕ)
      → AreBytes x
      → length x ≡ length ip
      → ip_value (mask ones x) ≡ ip_value x / size * size
  unfolding mask
  mask-value x h e =
      let from_first : 0 + length x ≡ length ip = omega (arith, e) in
      rw from_first at (mask_from-value ones 0 x h)

  mask-same :
      (x : List ℕ)
      → AreBytes x
      → length x ≡ length ip
      → ip_value x / size * size ≡ base
      → mask ones x ≡ mask ones ip
  unfolding mask
  mask-same x h e same =
      value_injective (mask_from ones 0 x) (mask_from ones 0 ip) (mask_from-AreBytes ones 0 x h)
        (mask_from-AreBytes ones 0 ip bytes)
        (length-mask_from ones 0 x ∙ e ∙ sym (length-mask_from ones 0 ip))
        (mask-value x h e ∙ same ∙ sym (mask-value ip bytes refl))

  -- The test of the loop, on numbers.
  pub contains_iff :
      (x : List ℕ)
      → AreBytes x
      → length x ≡ length ip
      → (contains cidr x ≡ true) ↔ (ip_value x / size * size ≡ base)
  contains_iff x h e =
      let same_test : contains cidr x ≡ text_eq (mask ones x) (mask ones ip) =
        contains-four cidr x four (e ∙ four) in
      (
        λ yes_in.
            sym (mask-value x h e)
            ∙ ap ip_value ((text_eq_iff (mask ones x) (mask ones ip)).0 (sym same_test ∙ yes_in))
            ∙ mask-value ip bytes refl,
        λ same. same_test ∙ (text_eq_iff (mask ones x) (mask ones ip)).1 (mask-same x h e same),
      )

  module _ (some_ones : 1 ≤ ones) (few : ones ≤ 8 * length ip) where
    abbrev host : ℕ
    host = 8 * length ip - ones

    -- What the loop gives from the address at `k` on.
    Rest : ℕ → ℕ → List (List ℕ) → Type 0
    Rest k n ips =
        (map ip_value ips ≡ count_up (base + k) n)
        × ((y : List ℕ) → Elem y ips → AreBytes y × (length y ≡ length ip))
