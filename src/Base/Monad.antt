-- ===== src/Base/Monad.antt =====
-- State passing code that may stop: a panic of the Go runtime, a call of log.Panicf, a lock that
-- is taken twice, an exit. The state up to the stop is kept.

use mathlib.Core.Path.{◌≡◌, refl, sym, subst}

pub data Fault : Type 0 where
  nil_deref index_range panic deadlock exit_one : Fault

pub data Outcome (W A : Type 0) : Type 0 where
  done : A → W → Outcome W A
  fault : Fault → W → Outcome W A

abbrev pub M : Type 0 → Type 0 → Type 0
M W A = W → Outcome W A

infixl 5 ◌>>=◌ ◌>>◌
abbrev pub ◌>>=◌ : {W A B : Type 0} → M W A → (A → M W B) → M W B
◌>>=◌ m f w = elim (m w) [ done a v ↦ f a v | fault e v ↦ fault e v ]

abbrev pub ◌>>◌ : {W B : Type 0} → M W (Unit {0}) → M W B → M W B
◌>>◌ m k = m >>= λ _. k

abbrev pub pure : {W A : Type 0} → A → M W A
pure a w = done a w

abbrev pub stop : {W A : Type 0} → Fault → M W A
stop e w = fault e w

abbrev pub get : {W : Type 0} → M W W
get w = done w w

abbrev pub modify : {W : Type 0} → (W → W) → M W (Unit {0})
modify f w = done tt (f w)

-- The call returns, and its result and final state satisfy `P`.
pub data Returns {W A : Type 0} (P : A → W → Type 0) : Outcome W A → Type 0 where
  returns : {a : A} {w : W} → P a w → Returns P (done a w)

Returns-elim :
    {W A B : Type 0} {Q : A → W → Type 0} {P : B → W → Type 0} {o : Outcome W A} (f : A → M W B)
    → Returns Q o
    → ((a : A) (w : W) → Q a w → Returns P (f a w))
    → Returns P (elim o [ done a v ↦ f a v | fault e v ↦ fault e v ])
Returns-elim f (returns {a = a} {w = w} h) k = k a w h

-- The rule for a sequence: what the first part ensures is what the second may assume.
pub Returns-bind :
    {W A B : Type 0} {Q : A → W → Type 0} {P : B → W → Type 0} (m : M W A) (f : A → M W B) (w : W)
    → Returns Q (m w)
    → ((a : A) (v : W) → Q a v → Returns P (f a v))
    → Returns P ((m >>= f) w)
Returns-bind m f w h k = Returns-elim f h k

pub Returns-weaken :
    {W A : Type 0} {P Q : A → W → Type 0} {o : Outcome W A}
    → Returns Q o
    → ((a : A) (w : W) → Q a w → P a w)
    → Returns P o
Returns-weaken (returns {a = a} {w = w} h) k = returns (k a w h)

-- A call that returns has a result.
pub Returns-done :
    {W A : Type 0} {P : A → W → Type 0} {o : Outcome W A}
    → Returns P o
    → (a : A) × (w : W) × (o ≡ done a w) × P a w
Returns-done (returns {a = a} {w = w} h) = (a, w, refl, h)

pub Returns-eq :
    {W A : Type 0} {P : A → W → Type 0} {o : Outcome W A} (a : A) (w : W)
    → o ≡ done a w
    → P a w
    → Returns P o
Returns-eq {P = P} a w e h = subst (Returns P) (sym e) (returns h)

pub Returns-same :
    {W A : Type 0} {P : A → W → Type 0} {o o' : Outcome W A} → o ≡ o' → Returns P o' → Returns P o
Returns-same {P = P} e h = subst (Returns P) (sym e) h
