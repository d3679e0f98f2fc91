-- ===== src/Server/Sound/Steps.antt =====
-- The steps of the server that touch no table, the mutex, and the disconnection.
use mathlib.Core.Path.{subst}
use ratbond.Outside.{Outside}
use ratbond.Client.Sound.{Safe, Safe-same, none_held, Quietly}
use ratbond.Client.State.{State}
use ratbond.Server.State.{
  ClientConnection, update_conn, Served, Client, process, load_conn, store_conn, read_client,
  write_client,
}
use ratbond.Server.Sound.{
  Alike, Alike-refl, IsClient, IsSteady, Steadily, IsCalm, Calmly, IsCalm-refl, Steadily-bind,
  calm-IsSteady, Calmly-Steadily,
}
use ratbond.Base.{
  ℕ, ◌≡◌, refl, sym, ◌≢◌, inl, inr, Bool, arith, ◌==◌, ==_iff, Bool-cases, Option-cases, lookup,
  insert, Fault, nil_deref, deadlock, Outcome, done, fault, M, ◌>>=◌, ◌>>◌, pure, stop,
  insert-cases,
}

module _ (out : Outside) where
  pub pure-Calmly : {A : Type 0} (a : A) → Calmly out (pure a)
  unfolding Calmly
  pure-Calmly a w = IsCalm-refl out w

  pub stop-Calmly : (A : Type 0) (e : Fault) → e ≢ deadlock → Calmly out {A = A} (stop e)
  unfolding Calmly
  stop-Calmly A e ne w = ne

  processed :
      {A : Type 0} (Q : A → State out → Type 0) (o : Outcome (State out) A) (w : Served out)
      → Safe Q o
      → Safe
          (λ _ w'. IsCalm out w w')
          (elim o as (λ _. Outcome (Served out) A) [
            | done a v ↦ done a (record w { process = v })
            | fault e v ↦ fault e (record w { process = v })
          ])
  processed Q (done a v) w h = record {
    clients_kept = refl;
    conns_alike = λ q. Alike-refl _;
    fresh_kept = refl;
  }
  processed Q (fault e v) w h = h

  pub process-Calmly :
      {A : Type 0} (m : M (State out) A) → Quietly out m → Calmly out (process out m)
  unfolding Calmly Quietly
  process-Calmly m q w = processed _ (m w.process) w (q w.process)

  pub load-Calmly : (p : ℕ) → Calmly out (load_conn out p)
  unfolding Calmly
  load-Calmly p w = IsCalm-refl out w

  pub read_client-Calmly : (tid : ℕ) → Calmly out (read_client out tid)
  unfolding Calmly
  read_client-Calmly tid w = elim (Option-cases (lookup tid w.clients)) [
    | inl gone ↦
        Safe-same (λ _ v. IsCalm out w v) (read_client out tid w) (fault nil_deref w) (ground arith)
          (λ e. cc e)
    | inr (s, found) ↦
        Safe-same (λ _ v. IsCalm out w v) (read_client out tid w) (done s w) (ground arith)
          (IsCalm-refl out w)
  ]

  -- A change of a connection's counters.
  pub changed_conn :
      (p : ℕ) (c : ClientConnection) (w : Served out)
      → Alike (w.conns p) c
      → IsCalm out w (record w { conns = update_conn w.conns p c })
  unfolding update_conn
  changed_conn p c w same = record {
    clients_kept = refl;
    conns_alike = λ q. elim (Bool-cases (p == q)) [
      | inl here ↦ rw here (subst (λ r. Alike (w.conns r) c) ((==_iff p q).0 here) same)
      | inr there ↦ rw there (Alike-refl (w.conns q))
    ];
    fresh_kept = refl;
  }

  pub change-Calmly :
      (p : ℕ) (f : ClientConnection → ClientConnection)
      → ((c : ClientConnection) → Alike c (f c))
      → Calmly out (do c ← load_conn out p; store_conn out p (f c))
  unfolding Calmly
  change-Calmly p f same w = changed_conn p (f (w.conns p)) w (same (w.conns p))

  abbrev pub Steady : {A : Type 0} → M (Served out) A → Type 0
  Steady m = Steadily out none_held none_held m

  pub calm : {A : Type 0} (m : M (Served out) A) → Calmly out m → Steady m
  calm m q = Calmly-Steadily out none_held m q

  pub seq :
      {A B : Type 0} (m : M (Served out) A) (k : A → M (Served out) B)
      → Steady m
      → ((a : A) → Steady (k a))
      → Steady (do a ← m; k a)
  seq m k hm hk = Steadily-bind out none_held none_held none_held m k hm hk

  pub change_then :
      {A : Type 0} (p : ℕ) (f : ClientConnection → ClientConnection)
      (rest : ClientConnection → M (Served out) A)
      → ((c : ClientConnection) → Alike c (f c))
      → ((c : ClientConnection) → Steady (rest c))
      → Steady (do c ← load_conn out p; store_conn out p (f c); rest c)
  unfolding Steadily
  change_then p f rest same hr w steady =
      let v : Served out = record w { conns = update_conn w.conns p (f (w.conns p)) } in
      hr (w.conns p) v (
        calm-IsSteady out none_held w v (changed_conn p (f (w.conns p)) w (same (w.conns p)))
          steady)

  -- Another client record, with what must hold of it.
  pub write-IsSteady :
      (before after : ℕ → Bool) (tid : ℕ) (s : Client out) (w : Served out)
      → ((t : ℕ) → t ≢ tid → after t ≡ before t)
      → IsClient out (after tid) w.conns w.fresh_conn s
      → IsSteady out before w
      → IsSteady out after (record w { clients = insert tid s w.clients })
  write-IsSteady before after tid s w others new steady t s' at =
      elim (insert-cases tid t s s' w.clients at) [
        | inl (here, same) ↦
            subst (λ (i : ℕ). IsClient out (after i) w.conns w.fresh_conn s') here
              (subst (λ (x : Client out). IsClient out (after tid) w.conns w.fresh_conn x) same new)
        | inr (away, there) ↦
            subst (λ (b : Bool). IsClient out b w.conns w.fresh_conn s')
              (sym (others t (λ e. away (sym e)))) (steady t s' there)
      ]

  -- The same map and circle.
  pub fields-IsClient :
      (b b' : Bool) (h : ℕ → ClientConnection) (f : ℕ) (s t : Client out)
      → t.connections ≡ s.connections
      → t.consistent ≡ s.consistent
      → t.locked ≡ b'
      → IsClient out b h f s
      → IsClient out b' h f t
  fields-IsClient b b' h f s t same names' lock' client = record {
    lock_is = lock';
    coherent = record {
      known = λ k p e. client.coherent.known k p (rw same at e);
      named = λ name on. rw same (client.coherent.named name (rw names' at on));
      placed = λ k p e. rw names' (client.coherent.placed k p (rw same at e));
    };
    below = λ k p e. client.below k p (rw same at e);
  }

  -- A client that is read, changed and written back, and what follows.
  pub rewrite_then :
      {A : Type 0} (before after last : ℕ → Bool) (tid : ℕ) (f : Client out → Client out)
      (rest : Unit {0} → M (Served out) A)
      → ((t : ℕ) → t ≢ tid → after t ≡ before t)
      → ((s : Client out) (h : ℕ → ClientConnection) (n : ℕ)
          → IsClient out (before tid) h n s
          → IsClient out (after tid) h n (f s))
      → Steadily out after last (rest tt)
      → Steadily out before last
          (do s ← read_client out tid; r ← write_client out tid (f s); rest r)
  unfolding Steadily
  rewrite_then before after last tid f rest others new hr w steady =
      elim (Option-cases (lookup tid w.clients)) [
        | inl gone ↦
            Safe-same (λ _ u. IsSteady out last u) _ (fault nil_deref w) (ground arith) (λ e. cc e)
        | inr (s, found) ↦
            let v : Served out = record w { clients = insert tid (f s) w.clients } in
            Safe-same (λ _ u. IsSteady out last u) _ (rest tt v) (ground arith)
              (hr v (
                write-IsSteady before after tid (f s) w others
                  (new s w.conns w.fresh_conn (steady tid s found)) steady))
      ]
