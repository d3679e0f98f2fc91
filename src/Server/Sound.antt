-- ===== src/Server/Sound.antt =====
-- What holds of the server's state between any two of its operations, for whichever client: the
-- mutexes are free, the tables are coherent, and their pointers are to connections already made.
pub mod Steps
pub mod Locks
pub mod Rounds
pub mod Serving
pub mod Joining
pub mod Accepting
pub mod Listening
pub mod Reachable
use mathlib.Core.Path.{subst}
use mathlib.Core.Option.{some-injective}
use ratbond.Outside.{Outside}
use ratbond.Client.Sound.{
  Safe, Safe-bind, Safe-weaken, Safe-same, Returns-Safe, none_held, one_held,
}
use ratbond.Client.State.{State}
use ratbond.Server.Invariant.{IsServed, Drops}
use ratbond.Server.State.{ClientConnection, client_entries, Served, Client}
use ratbond.Base.{
  ℕ, ◌≤◌, ◌<◌, ◌≡◌, refl, sym, ap, ◌∙◌, inl, inr, Bool, true, false, Option, none, some, arith,
  ◌==◌, if◌then◌else◌, ==_iff, Bool-cases, lookup, M, ◌>>=◌, ◌>>◌,
}

-- What no operation changes of a connection that was made.
pub record Alike (c d : ClientConnection) : Type 0 where
  pub convid_kept : d.convid ≡ c.convid
  pub alive_kept : d.alive ≡ c.alive

pub Alike-refl : (c : ClientConnection) → Alike c c
Alike-refl c = record { convid_kept = refl; alive_kept = refl }

still : (b : Bool) (o : Option ℕ) (p : ℕ) → (if b then none else o) ≡ some p → o ≡ some p
still true o p e = cc
still false o p e = e

module _ (out : Outside) where
  pub record IsClient (held : Bool) (conns : ℕ → ClientConnection) (fresh : ℕ) (s : Client out)
      : Type 0 where
    pub lock_is : s.locked ≡ held
    pub coherent : IsServed out conns s
    pub below : (k p : ℕ) → lookup k (client_entries s) ≡ some p → p < fresh

  abbrev pub IsSteady : (ℕ → Bool) → Served out → Type 0
  IsSteady held w =
      (t : ℕ) (s : Client out)
      → lookup t w.clients ≡ some s
      → IsClient (held t) w.conns w.fresh_conn s

  unfoldable pub Steadily : {A : Type 0} → (ℕ → Bool) → (ℕ → Bool) → M (Served out) A → Type 0
  Steadily before after m =
      (w : Served out) → IsSteady before w → Safe (λ _ w'. IsSteady after w') (m w)

  pub record IsCalm (w w' : Served out) : Type 0 where
    pub clients_kept : w'.clients ≡ w.clients
    pub conns_alike : (q : ℕ) → Alike (w.conns q) (w'.conns q)
    pub fresh_kept : w'.fresh_conn ≡ w.fresh_conn

  -- The parts that change neither a table nor the identity of a connection.
  unfoldable pub Calmly : {A : Type 0} → M (Served out) A → Type 0
  Calmly m = (w : Served out) → Safe (λ _ w'. IsCalm w w') (m w)

  pub IsCalm-refl : (w : Served out) → IsCalm w w
  IsCalm-refl w = record { clients_kept = refl; conns_alike = λ q. Alike-refl _; fresh_kept = refl }

  IsCalm-trans : (u v w : Served out) → IsCalm u v → IsCalm v w → IsCalm u w
  IsCalm-trans u v w p q = record {
    clients_kept = q.clients_kept ∙ p.clients_kept;
    conns_alike = λ i. record {
      convid_kept = (q.conns_alike i).convid_kept ∙ (p.conns_alike i).convid_kept;
      alive_kept = (q.conns_alike i).alive_kept ∙ (p.conns_alike i).alive_kept;
    };
    fresh_kept = q.fresh_kept ∙ p.fresh_kept;
  }

  pub Steadily-bind :
      {A B : Type 0} (f g h : ℕ → Bool) (m : M (Served out) A) (k : A → M (Served out) B)
      → Steadily f g m
      → ((a : A) → Steadily g h (k a))
      → Steadily f h (do a ← m; k a)
  unfolding Steadily
  Steadily-bind f g h m k hm hk w steady =
      Safe-bind (λ _ v. IsSteady g v) (λ _ v. IsSteady h v) k (m w) (hm w steady)
        λ a v after. hk a v after

  pub Calmly-bind :
      {A B : Type 0} (m : M (Served out) A) (k : A → M (Served out) B)
      → Calmly m
      → ((a : A) → Calmly (k a))
      → Calmly (do a ← m; k a)
  unfolding Calmly
  Calmly-bind m k hm hk w =
      Safe-bind (λ _ v. IsCalm w v) (λ _ v. IsCalm w v) k (m w) (hm w)
        λ a v q.
          Safe-weaken (λ _ u. IsCalm v u) (λ _ u. IsCalm w u) (k a v) (hk a v)
            λ b u r. IsCalm-trans w v u q r

  pub IsClient-Alike :
      (held : Bool) (h h' : ℕ → ClientConnection) (f f' : ℕ) (s : Client out)
      → ((p : ℕ) → p < f → Alike (h p) (h' p))
      → f ≤ f'
      → IsClient held h f s
      → IsClient held h' f' s
  IsClient-Alike held h h' f f' s alike up t = record {
    lock_is = t.lock_is;
    coherent = record {
      known = λ k p e.
          let a = alike p (t.below k p e) in
          let (own, live, small) = t.coherent.known k p e in
          (a.convid_kept ∙ own, a.alive_kept ∙ live, small);
      named = t.coherent.named;
      placed = t.coherent.placed;
    };
    below = λ k p e. omega (arith, t.below k p e, up);
  }

  pub calm-IsSteady :
      (held : ℕ → Bool) (v w : Served out) → IsCalm v w → IsSteady held v → IsSteady held w
  calm-IsSteady held v w q steady t s at =
      IsClient-Alike (held t) v.conns w.conns v.fresh_conn w.fresh_conn s (λ p lt. q.conns_alike p)
        (omega (arith, q.fresh_kept)) (steady t s (rw q.clients_kept at at))

  pub Calmly-Steadily :
      {A : Type 0} (held : ℕ → Bool) (m : M (Served out) A) → Calmly m → Steadily held held m
  unfolding Calmly Steadily
  Calmly-Steadily held m q w steady =
      Safe-weaken (λ _ v. IsCalm w v) (λ _ v. IsSteady held v) (m w) (q w)
        λ _ v r. calm-IsSteady held w v r steady

  pub Drops-IsSteady :
      (tid : ℕ) (gone : ℕ → Bool) (s : Client out) (w w' : Served out)
      → lookup tid w.clients ≡ some s
      → Drops out tid gone s w w'
      → IsSteady none_held w
      → IsSteady none_held w'
  Drops-IsSteady tid gone s w w' found m steady t s' at = elim (Bool-cases (t == tid)) [
    | inl here ↦
        let is_client : s' ≡ m.client =
          some-injective _ _
            (sym at ∙ ap (λ (i : ℕ). lookup i w'.clients) ((==_iff t tid).0 here) ∙ m.found) in
        let old = steady tid s found in
        subst (IsClient false w'.conns w'.fresh_conn) (sym is_client) (record {
          lock_is = m.lock_kept ∙ old.lock_is;
          coherent = m.coherent;
          below = λ k p e. rw m.fresh_kept (
              old.below k p (still (gone k) (lookup k (client_entries s)) p (sym (m.table k) ∙ e)));
        })
    | inr there ↦
        IsClient-Alike false w.conns w'.conns w.fresh_conn w'.fresh_conn s'
          (λ p lt. rw m.conns_kept (Alike-refl _)) (omega (arith, m.fresh_kept))
          (steady t s' (sym (m.others t (λ e. cc (there, (==_iff t tid).1 e))) ∙ at))
  ]

  pub if-Steadily :
      {A : Type 0} (f g : ℕ → Bool) (b : Bool) (m k : M (Served out) A)
      → Steadily f g m
      → Steadily f g k
      → Steadily f g (if b then m else k)
  if-Steadily f g true m k hm hk = hm
  if-Steadily f g false m k hm hk = hk

  pub option-Steadily :
      {A B : Type 0} (f g : ℕ → Bool) (o : Option A) (m : M (Served out) B)
      (k : A → M (Served out) B)
      → Steadily f g m
      → ((a : A) → Steadily f g (k a))
      → Steadily f g (elim o [ none ↦ m | some a ↦ k a ])
  option-Steadily f g none m k hm hk = hm
  option-Steadily f g (some a) m k hm hk = hk a

  pub option-Calmly :
      {A B : Type 0} (o : Option A) (m : M (Served out) B) (k : A → M (Served out) B)
      → Calmly m
      → ((a : A) → Calmly (k a))
      → Calmly (elim o [ none ↦ m | some a ↦ k a ])
  option-Calmly none m k hm hk = hm
  option-Calmly (some a) m k hm hk = hk a
