-- ===== src/Main/Masks.antt =====
-- main.go: the text of a network's mask, which parse_cli compares with that of a /30.
use ratbond.Base.{
  ℕ, zero, suc, ◌≤◌, ◌≡◌, refl, sym, ◌⊎◌, inl, inr, Bool, true, false, ◌&&◌, not, Option, none,
  some, arith, ◌==◌, length, replicate, codes, text_eq, hex,
}
use mathlib.Core.Path.{subst}
use ratbond.Util.Hosts.{Cidr, mask, AreBytes}
use ratbond.Main.Parse.{mask_text, cidr_mask}

-- What net.ParseCIDR returns: an IPv4 address of four bytes or an IPv6 address of sixteen, with a
-- mask length that fits.
abbrev pub IsCidr : Cidr → Type 0
IsCidr cidr =
    AreBytes cidr.ip
    × (((length cidr.ip ≡ 4) × (cidr.ones ≤ 32)) ⊎ ((length cidr.ip ≡ 16) × (cidr.ones ≤ 128)))

abbrev pub is_slash_30 : Option Cidr → Bool
is_slash_30 none = false
is_slash_30 (some cidr) = length cidr.ip == 4 && cidr.ones == 30

is_mask_30 : ℕ → ℕ → Bool
is_mask_30 n ones = text_eq (mask_text (mask ones (replicate n 255))) (codes "fffffffc")

same_bool : Bool → Bool → Bool
same_bool true b = b
same_bool false b = not b

same_bool_sound : (a b : Bool) → same_bool a b ≡ true → a ≡ b
unfolding same_bool
same_bool_sound true b h = sym h
same_bool_sound false true h = cc
same_bool_sound false false h = refl

≤-split : (n last : ℕ) → n ≤ suc last → (n ≤ last) ⊎ (n ≡ suc last)
≤-split n last h = grind arith

-- Two tests that agree on every mask length up to the last.
agree : (ℕ → Bool) → (ℕ → Bool) → ℕ → Bool
agree f g zero = same_bool (f 0) (g 0)
agree f g (suc last) = same_bool (f (suc last)) (g (suc last)) && agree f g last

both : (a b : Bool) → (a && b) ≡ true → (a ≡ true) × (b ≡ true)
both true b h = (refl, h)
both false b h = cc

agree_at : (f g : ℕ → Bool) (last ones : ℕ) → agree f g last ≡ true → ones ≤ last → f ones ≡ g ones
unfolding agree
agree_at f g zero zero h fits = same_bool_sound (f 0) (g 0) h
agree_at f g zero (suc ones) h fits = absurd (omega arith)
agree_at f g (suc last) ones h fits =
    let (here, below) = both (same_bool (f (suc last)) (g (suc last))) (agree f g last) h in
    elim (≤-split ones last fits) [
      | inl less ↦ agree_at f g last ones below less
      | inr same ↦ subst (λ n. f n ≡ g n) (sym same) (same_bool_sound _ _ here)
    ]

table_4 : agree (is_mask_30 4) (λ ones. ones == 30) 32 ≡ true
unfolding agree same_bool is_mask_30 mask_text mask hex text_eq
table_4 = refl

table_16 : agree (is_mask_30 16) (λ ones. false) 128 ≡ true
unfolding agree same_bool is_mask_30 mask_text mask hex text_eq
table_16 = refl

-- The mask of a network reads "fffffffc" for an IPv4 /30 and no other network.
pub cidr_mask-slash_30 :
    (cidr : Cidr)
    → IsCidr cidr
    → text_eq (cidr_mask cidr) (codes "fffffffc") ≡ is_slash_30 (some cidr)
unfolding cidr_mask is_mask_30 text_eq
cidr_mask-slash_30 cidr (bytes, inl (four, fits)) =
    rw four (agree_at (is_mask_30 4) (λ ones. ones == 30) 32 cidr.ones table_4 fits)
cidr_mask-slash_30 cidr (bytes, inr (sixteen, fits)) =
    rw sixteen (agree_at (is_mask_30 16) (λ ones. false) 128 cidr.ones table_16 fits)
