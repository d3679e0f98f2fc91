-- ===== src/Base/Strings.antt =====
-- A Go string is its bytes: `==` on strings, `%d` and `%x` of fmt, and strconv.Atoi on digits.
use Prim.Native.Char.{code}
use Prim.Native.String.{String}
use Prim.Native.Nat.{ℕ, zero, suc, ◌+◌, ◌-◌, ◌*◌, ◌/◌, ◌%◌, ◌<◌}
use mathlib.Core.Path.{◌≡◌, refl, ap, ◌∙◌}
use mathlib.Core.Logic.{◌↔◌, inl, inr}
use mathlib.Core.Bool.{Bool, true, false, ◌&&◌, ◌||◌}
use mathlib.Core.List.{List, [], ◌∷◌, ◌++◌}
use mathlib.Core.Option.{Option, none, some}
use native.Mathlib.Omega.{arith}
use ratbond.Base.Tests.{ltb, leb, ◌==◌, if◌then◌else◌, Bool-cases, ltb→lt}

abbrev pub Text : Type 0
Text = List ℕ

-- The bytes of an ASCII literal.
abbrev pub codes : String → Text
codes String.[] = []
codes (String.◌∷◌ letter text) = code letter ∷ codes text

unfoldable pub text_eq : Text → Text → Bool
text_eq [] [] = true
text_eq [] (y ∷ ys) = false
text_eq (x ∷ xs) [] = false
text_eq (x ∷ xs) (y ∷ ys) = x == y && text_eq xs ys

text_eq→eq : (s t : Text) → text_eq s t ≡ true → s ≡ t
unfolding text_eq
text_eq→eq [] [] h = refl
text_eq→eq [] (y ∷ ys) h = cc
text_eq→eq (x ∷ xs) [] h = cc
text_eq→eq (x ∷ xs) (y ∷ ys) h = ground (arith, text_eq→eq xs ys)

pub text_eq_refl : (s : Text) → text_eq s s ≡ true
unfolding text_eq
text_eq_refl [] = refl
text_eq_refl (x ∷ xs) = ground (arith, text_eq_refl xs)

pub text_eq_iff : (s t : Text) → (text_eq s t ≡ true) ↔ (s ≡ t)
text_eq_iff s t = (text_eq→eq s t, λ e. rw e (text_eq_refl t))

-- strings.HasPrefix and strings.Contains
unfoldable pub has_prefix : Text → Text → Bool
has_prefix t [] = true
has_prefix [] (x ∷ xs) = false
has_prefix (y ∷ ys) (x ∷ xs) = y == x && has_prefix ys xs

unfoldable pub contains_text : Text → Text → Bool
unfolding has_prefix
contains_text [] t = has_prefix [] t
contains_text (y ∷ ys) t = has_prefix (y ∷ ys) t || contains_text ys t

-- The digits of `n`, most significant first; `n + 1` rounds are enough.
digits : ℕ → ℕ → Text
digits zero n = []
digits (suc f) n =
    let high = digits f (n / 10) in (if ltb n 10 then [] else high) ++ (48 + n % 10) ∷ []

-- fmt.Sprintf("%d", n)
unfoldable pub decimal : ℕ → Text
unfolding digits
decimal n = digits (suc n) n

atoi_from : ℕ → Text → Option ℕ
atoi_from acc [] = some acc
atoi_from acc (c ∷ cs) = if leb 48 c && leb c 57 then atoi_from (acc * 10 + (c - 48)) cs else none

-- strconv.Atoi on a text with no sign.
unfoldable pub atoi : Text → Option ℕ
unfolding atoi_from
atoi [] = none
atoi (c ∷ cs) = atoi_from 0 (c ∷ cs)

atoi_from-append :
    (acc m d : ℕ) (xs : Text)
    → atoi_from acc xs ≡ some m
    → d < 10
    → atoi_from acc (xs ++ (48 + d) ∷ []) ≡ some (m * 10 + d)
unfolding atoi_from
atoi_from-append acc m d [] h lt = ground arith
atoi_from-append acc m d (x ∷ xs) h lt =
    ground (arith, atoi_from-append (acc * 10 + (x - 48)) m d xs)

atoi_from-digits : (f n : ℕ) → n < f → atoi_from 0 (digits f n) ≡ some n
unfolding digits
atoi_from-digits zero n h = elim h [ ]
atoi_from-digits (suc f) n h = elim (Bool-cases (ltb n 10)) [
  | inl small ↦ rw small (
      atoi_from-append 0 0 (n % 10) [] (unfold atoi_from in refl) (omega arith)
      ∙ ap some (omega (arith, ltb→lt n 10 small)))
  | inr large ↦ rw large (
      atoi_from-append 0 (n / 10) (n % 10) (digits f (n / 10))
        (atoi_from-digits f (n / 10) (ground arith)) (omega arith)
      ∙ ap some (omega arith))
]

append_last-atoi : (xs : Text) (d : ℕ) → atoi (xs ++ d ∷ []) ≡ atoi_from 0 (xs ++ d ∷ [])
unfolding atoi
append_last-atoi [] d = refl
append_last-atoi (x ∷ xs) d = refl

-- A number survives being printed and read back.
pub atoi-decimal : (n : ℕ) → atoi (decimal n) ≡ some n
unfolding decimal
atoi-decimal n = append_last-atoi _ _ ∙ atoi_from-digits (suc n) n (omega arith)

-- Two numbers with one decimal text are equal.
pub decimal_inj : (m n : ℕ) → decimal m ≡ decimal n → m ≡ n
decimal_inj m n e = cc (atoi-decimal m, atoi-decimal n, ap atoi e)

hex_digit : ℕ → ℕ
hex_digit d = if ltb d 10 then 48 + d else 87 + d

-- fmt.Sprintf("%x", b) of a byte: no padding.
unfoldable pub hex : ℕ → Text
unfolding hex_digit
hex b = if ltb b 16 then hex_digit b ∷ [] else hex_digit (b / 16) ∷ hex_digit (b % 16) ∷ []

decimal_example : decimal 12345 ≡ codes "12345"
unfolding decimal
decimal_example = refl

hex_example : hex 0xa7 ≡ codes "a7"
unfolding hex
hex_example = refl
