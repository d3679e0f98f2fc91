-- ===== src/Client/Sound.antt =====
-- What holds of the client's state between any two of its operations, on whichever tunnels: the
-- mutexes are free, the tables are coherent, and their pointers are to connections already made.
pub mod Steps
pub mod Locks
pub mod Losing
pub mod Rounds
pub mod Serving
pub mod Joining
pub mod Connect
pub mod Linking
pub mod Reachable
use mathlib.Core.Path.{subst}
use mathlib.Core.Option.{some-injective}
use ratbond.Outside.{Outside}
use ratbond.Base.{
  ℕ, ◌<◌, ◌≡◌, refl, sym, ap, ◌∙◌, ◌≢◌, inl, inr, Bool, true, false, Option, none, some, ◌==◌,
  if◌then◌else◌, ==_iff, Bool-cases, Option-cases, lookup, Fault, deadlock, Outcome, done, fault, M,
  ◌>>=◌, ◌>>◌, Returns, returns,
}
use ratbond.Client.Quiet.{IsQuiet, IsCoherent-Same}
use ratbond.Client.State.{State, Server, ServerConnection, entries}
use ratbond.Client.Invariant.{IsCoherent, Moves, Same, Same-refl, Same-trans}

-- The call returns and its result and final state satisfy `P`, or it panics; it does not hang on a
-- mutex.
abbrev pub Safe : {W A : Type 0} → (A → W → Type 0) → Outcome W A → Type 0
Safe P (done a w) = P a w
Safe P (fault e w) = e ≢ deadlock

pub Safe-bind :
    {W A B : Type 0} (Q : A → W → Type 0) (P : B → W → Type 0) (f : A → M W B) (o : Outcome W A)
    → Safe Q o
    → ((a : A) (w : W) → Q a w → Safe P (f a w))
    → Safe P (elim o [ done a w ↦ f a w | fault e w ↦ fault e w ])
Safe-bind Q P f (done a w) h k = k a w h
Safe-bind Q P f (fault e w) h k = h

pub Safe-weaken :
    {W A : Type 0} (Q P : A → W → Type 0) (o : Outcome W A)
    → Safe Q o
    → ((a : A) (w : W) → Q a w → P a w)
    → Safe P o
Safe-weaken Q P (done a w) h k = k a w h
Safe-weaken Q P (fault e w) h k = h

pub Returns-Safe : {W A : Type 0} {P : A → W → Type 0} {o : Outcome W A} → Returns P o → Safe P o
Returns-Safe (returns h) = h

pub Safe-same :
    {W A : Type 0} (P : A → W → Type 0) (o o' : Outcome W A) → o ≡ o' → Safe P o' → Safe P o
Safe-same P o o' e h = subst (Safe P) (sym e) h

-- The panic that a call ends in.
abbrev pub reason : {W A : Type 0} → Outcome W A → Option Fault
reason (done a w) = none
reason (fault e w) = some e

pub reason-Safe :
    {W A : Type 0} (P : A → W → Type 0) (o : Outcome W A) (e : Fault)
    → reason o ≡ some e
    → e ≢ deadlock
    → Safe P o
reason-Safe P (done a w) e r ne = cc
reason-Safe P (fault f w) e r ne = λ same. ne (sym (some-injective _ _ r) ∙ same)

kept : (b : Bool) (o : Option ℕ) (p : ℕ) → (if b then none else o) ≡ some p → o ≡ some p
kept true o p e = cc
kept false o p e = e

-- Which mutexes are held: none, or one.
abbrev pub none_held : ℕ → Bool
none_held t = false

abbrev pub one_held : ℕ → ℕ → Bool
one_held tid t = tid == t

module _ (out : Outside) where
  pub record IsTunnel (held : Bool) (heap : ℕ → ServerConnection) (fresh : ℕ) (s : Server out)
      : Type 0 where
    pub lock_is : s.locked ≡ held
    pub coherent : IsCoherent out heap s
    pub below : (k p : ℕ) → lookup k (entries s) ≡ some p → p < fresh

  abbrev pub IsSound : (ℕ → Bool) → State out → Type 0
  IsSound held w =
      (t : ℕ) (s : Server out) → lookup t w.servers ≡ some s → IsTunnel (held t) w.heap w.fresh s

  unfoldable pub Soundly : {A : Type 0} → (ℕ → Bool) → (ℕ → Bool) → M (State out) A → Type 0
  Soundly before after m =
      (w : State out) → IsSound before w → Safe (λ _ w'. IsSound after w') (m w)

  -- The parts that change neither a table nor the identity of a connection.
  unfoldable pub Quietly : {A : Type 0} → M (State out) A → Type 0
  Quietly m = (w : State out) → Safe (λ _ w'. IsQuiet out w w') (m w)

  pub Soundly-bind :
      {A B : Type 0} (f g h : ℕ → Bool) (m : M (State out) A) (k : A → M (State out) B)
      → Soundly f g m
      → ((a : A) → Soundly g h (k a))
      → Soundly f h (do a ← m; k a)
  unfolding Soundly
  Soundly-bind f g h m k hm hk w sound =
      Safe-bind (λ _ v. IsSound g v) (λ _ v. IsSound h v) k (m w) (hm w sound)
        λ a v after. hk a v after

  pub IsQuiet-refl : (w : State out) → IsQuiet out w w
  IsQuiet-refl w = record { servers_kept = refl; heap_same = λ q. Same-refl _; fresh_kept = refl }

  pub IsQuiet-trans : (u v w : State out) → IsQuiet out u v → IsQuiet out v w → IsQuiet out u w
  IsQuiet-trans u v w p q = record {
    servers_kept = q.servers_kept ∙ p.servers_kept;
    heap_same = λ i. Same-trans _ _ _ (p.heap_same i) (q.heap_same i);
    fresh_kept = q.fresh_kept ∙ p.fresh_kept;
  }

  pub Quietly-bind :
      {A B : Type 0} (m : M (State out) A) (k : A → M (State out) B)
      → Quietly m
      → ((a : A) → Quietly (k a))
      → Quietly (do a ← m; k a)
  unfolding Quietly
  Quietly-bind m k hm hk w =
      Safe-bind (λ _ v. IsQuiet out w v) (λ _ v. IsQuiet out w v) k (m w) (hm w)
        λ a v q.
          Safe-weaken (λ _ u. IsQuiet out v u) (λ _ u. IsQuiet out w u) (k a v) (hk a v)
            λ b u r. IsQuiet-trans w v u q r

  pub IsTunnel-Same :
      (held : Bool) (h h' : ℕ → ServerConnection) (f f' : ℕ) (s : Server out)
      → ((q : ℕ) → Same (h q) (h' q))
      → f' ≡ f
      → IsTunnel held h f s
      → IsTunnel held h' f' s
  IsTunnel-Same held h h' f f' s same e t = record {
    lock_is = t.lock_is;
    coherent = IsCoherent-Same out s h h' same t.coherent;
    below = λ k p at. rw e (t.below k p at);
  }

  pub quiet-IsSound :
      (held : ℕ → Bool) (v w : State out) → IsQuiet out v w → IsSound held v → IsSound held w
  quiet-IsSound held v w q sound t s at =
      IsTunnel-Same (held t) v.heap w.heap v.fresh w.fresh s q.heap_same q.fresh_kept
        (sound t s (rw q.servers_kept at at))

  pub Quietly-Soundly :
      {A : Type 0} (held : ℕ → Bool) (m : M (State out) A) → Quietly m → Soundly held held m
  unfolding Quietly Soundly
  Quietly-Soundly held m q w sound =
      Safe-weaken (λ _ v. IsQuiet out w v) (λ _ v. IsSound held v) (m w) (q w)
        λ _ v r. quiet-IsSound held w v r sound

  pub if-Quietly :
      {A : Type 0} (b : Bool) (m k : M (State out) A)
      → Quietly m
      → Quietly k
      → Quietly (if b then m else k)
  if-Quietly true m k hm hk = hm
  if-Quietly false m k hm hk = hk

  pub option-Quietly :
      {A B : Type 0} (o : Option A) (m : M (State out) B) (k : A → M (State out) B)
      → Quietly m
      → ((a : A) → Quietly (k a))
      → Quietly (elim o [ none ↦ m | some a ↦ k a ])
  option-Quietly none m k hm hk = hm
  option-Quietly (some a) m k hm hk = hk a

  pub if-Soundly :
      {A : Type 0} (f g : ℕ → Bool) (b : Bool) (m k : M (State out) A)
      → Soundly f g m
      → Soundly f g k
      → Soundly f g (if b then m else k)
  if-Soundly f g true m k hm hk = hm
  if-Soundly f g false m k hm hk = hk

  pub option-Soundly :
      {A B : Type 0} (f g : ℕ → Bool) (o : Option A) (m : M (State out) B) (k : A → M (State out) B)
      → Soundly f g m
      → ((a : A) → Soundly f g (k a))
      → Soundly f g (elim o [ none ↦ m | some a ↦ k a ])
  option-Soundly f g none m k hm hk = hm
  option-Soundly f g (some a) m k hm hk = hk a

  -- A move of one tunnel with its mutex free.
  pub Moves-IsSound :
      (tid : ℕ) (gone : ℕ → Bool) (s : Server out) (w w' : State out)
      → lookup tid w.servers ≡ some s
      → Moves out tid gone s w w'
      → IsSound none_held w
      → IsSound none_held w'
  Moves-IsSound tid gone s w w' found m sound t s' at = elim (Bool-cases (t == tid)) [
    | inl here ↦
        let is_server : s' ≡ m.server =
          some-injective _ _
            (sym at ∙ ap (λ (i : ℕ). lookup i w'.servers) ((==_iff t tid).0 here) ∙ m.found) in
        let old = sound tid s found in
        subst (IsTunnel false w'.heap w'.fresh) (sym is_server) (record {
          lock_is = m.lock_kept ∙ old.lock_is;
          coherent = m.coherent;
          below = λ k p e.
              rw m.fresh_kept
                (old.below k p (kept (gone k) (lookup k (entries s)) p (sym (m.table k) ∙ e)));
        })
    | inr there ↦
        IsTunnel-Same false w.heap w'.heap w.fresh w'.fresh s' m.same m.fresh_kept
          (sound t s' (sym (m.others t (λ e. cc (there, (==_iff t tid).1 e))) ∙ at))
  ]

  -- An operation on one tunnel that moves it when it is there, and panics when it is not.
  pub moving-Soundly :
      {A : Type 0} (tid : ℕ) (m : M (State out) A)
      → ((w : State out) → lookup tid w.servers ≡ none → Safe (λ _ v. IsQuiet out w v) (m w))
      → ((s : Server out) (w : State out)
          → lookup tid w.servers ≡ some s
          → s.locked ≡ false
          → IsCoherent out w.heap s
          → Returns (λ _ v. (gone : ℕ → Bool) × Moves out tid gone s w v) (m w))
      → Soundly none_held none_held m
  unfolding Soundly
  moving-Soundly tid m missing moves w sound = elim (Option-cases (lookup tid w.servers)) [
    | inl gone ↦
        Safe-weaken (λ _ v. IsQuiet out w v) (λ _ v. IsSound none_held v) (m w) (missing w gone)
          λ _ v r. quiet-IsSound none_held w v r sound
    | inr (s, found) ↦
        let t = sound tid s found in
        Safe-weaken (λ _ v. (gone : ℕ → Bool) × Moves out tid gone s w v)
          (λ _ v. IsSound none_held v) (m w) (Returns-Safe (moves s w found t.lock_is t.coherent))
          λ _ v h. Moves-IsSound tid h.0 s w v found h.1 sound
  ]
