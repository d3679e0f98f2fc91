-- ===== src/Server/Sound/Accepting.antt =====
-- server_accept_conn: the new connection enters the table of a client that may be new.
use mathlib.Core.Path.{subst}
use ratbond.Outside.{Outside}
use ratbond.Client.State.{sets_options, session_options}
use ratbond.Client.Sound.{Safe, Safe-same, one_held}
use ratbond.Server.Accept.{
  new_client_connection, ensure_client_tun, make_connection, ensure_client_map, register_connection,
  accept_locked,
}
use ratbond.Server.Accepted.{
  IsTable, joined, with_table-IsServed, joined-IsServed, accept_locked-eq,
}
use ratbond.Server.Invariant.{IsServed}
use ratbond.Server.State.{update_conn, Served, Client, ClientConnection}
use ratbond.Server.Sound.{IsSteady, Steadily}
use ratbond.Server.Sound.Joining.{new_conn-IsSteady, apart-IsClient, ensure_tun-Steadily}
use ratbond.Server.Sound.Steps.{fields-IsClient}
use ratbond.Base.{
  ℕ, ◌+◌, ◌^◌, ◌<◌, ◌≡◌, refl, sym, ◌≢◌, inl, inr, Bool, true, false, Option, none, some, [], ◌∷◌,
  arith, Bool-cases, Option-cases, Dict, lookup, insert, nil_deref, Outcome, done, fault,
  lookup-insert_self, lookup-insert_ne, insert-cases,
}

pub no_entry : {V : Type 0} {s : V} → none ≢ some s
no_entry e = cc

module _ (out : Outside) (tid kcp : ℕ) where
  abbrev reset : Client out → Client out
  reset t = record t { last_convid = 0 }

  abbrev newest : Served out → ClientConnection
  newest v =
      let n = v.process.calls in
      new_client_connection (out.now n) (out.now (n + 1)) (out.now (n + 1 + 1)) (out.get_conv kcp)
        (record { convid = out.get_conv kcp; kcp = kcp; udp_conn = none; remote = none })
        (out.remote_addr kcp)

  -- The world once the connection is made, and before it is in the table of `t`.
  abbrev with_conn : Served out → Client out → Served out
  with_conn v t = record v {
    clients = insert tid (reset t) v.clients;
    conns = update_conn v.conns v.fresh_conn (newest v);
    fresh_conn = v.fresh_conn + 1;
    process = record v.process { calls = v.process.calls + 1 + 1 + 1 };
  }

  abbrev Accepts : Outcome (Served out) (Bool × Option ℕ) → Type 0
  Accepts o = Safe (λ _ w. IsSteady out (one_held tid) w) o

  module _ (b : Bool) (w v : Served out) (steady : IsSteady out (one_held tid) v)
      (ensures : ensure_client_tun out tid w ≡ done b v) where
    by_run :
        (o : Outcome (Served out) (Bool × Option ℕ))
        → accept_locked out tid (out.get_conv kcp) kcp w ≡ o
        → Accepts o
        → Accepts (accept_locked out tid (out.get_conv kcp) kcp w)
    by_run o runs safe = Safe-same (λ _ u. IsSteady out (one_held tid) u) _ o runs safe

    unknown-Safe :
        lookup tid v.clients ≡ none → Accepts (accept_locked out tid (out.get_conv kcp) kcp w)
    unfolding accept_locked make_connection
    unknown-Safe gone = by_run (fault nil_deref v) (ground arith) (λ e. cc e)

    module _ (t : Client out) (found : lookup tid v.clients ≡ some t) where
      private-Safe :
          out.is_private (out.remote_addr kcp) ≡ true
          → Accepts (accept_locked out tid (out.get_conv kcp) kcp w)
      unfolding accept_locked make_connection new_client_connection
      private-Safe hidden =
          let client = steady tid t found in
          let made = with_conn v t in
          by_run (done (b, none) made) (ground arith) (
            new_conn-IsSteady out tid (one_held tid) (reset t) (newest v) v made refl refl
              (lookup-insert_self tid (reset t) v.clients)
              (λ u ne. lookup-insert_ne tid u (reset t) v.clients ne)
              (fields-IsClient out (one_held tid tid) (one_held tid tid) made.conns made.fresh_conn
                t (reset t) refl refl client.lock_is
                (apart-IsClient out tid (one_held tid tid) (newest v) t v made refl refl client))
              steady)

      paired-Safe :
          (m : Dict ℕ) (c : out.Circle)
          → out.get_conv kcp < 2 ^ 32
          → out.is_private (out.remote_addr kcp) ≡ false
          → IsTable out t m c
          → ((k p : ℕ) → lookup k m ≡ some p → p < v.fresh_conn)
          → Accepts (accept_locked out tid (out.get_conv kcp) kcp w)
      paired-Safe m c small public table old =
          let client = steady tid t found in
          let p = v.fresh_conn in
          let k = out.get_conv kcp in
          let (w', conn, runs, conns', own, live, found', others', next') =
            accept_locked-eq out tid k kcp b t m c w v ensures found public table in
          let j : IsServed out (update_conn v.conns p conn) (joined out k p t m c) =
            joined-IsServed out k p t m c v.conns conn
              (with_table-IsServed out t m c v.conns table client.coherent)
              (λ i q e same. omega (arith, old i q e, same)) own live small in
          by_run (done (b, some p) w') runs (
            new_conn-IsSteady out tid (one_held tid) (joined out k p t m c) conn v w' conns' next'
              found' others'
              (record {
                lock_is = client.lock_is;
                coherent = subst (λ h. IsServed out h (joined out k p t m c)) (sym conns') j;
                below = λ i q e. elim (insert-cases k i p q m e) [
                  | inl (here, same) ↦ omega (arith, same, next')
                  | inr (away, there) ↦ omega (arith, old i q there, next')
                ];
              })
              steady)

      unpaired-Safe :
          (m : Dict ℕ)
          → out.is_private (out.remote_addr kcp) ≡ false
          → t.connections ≡ some m
          → t.consistent ≡ none
          → Accepts (accept_locked out tid (out.get_conv kcp) kcp w)
      unfolding accept_locked make_connection register_connection ensure_client_map
      unpaired-Safe m public em ec =
          let made = with_conn v t in
          let t3 : Client out = record t {
            last_convid = 0;
            connections = some (insert (out.get_conv kcp) v.fresh_conn m);
          } in
          let stopped : Served out = record made {
            clients = insert tid t3 made.clients;
            process = record made.process {
              trace = sets_options kcp session_options ∷ v.process.trace;
            };
          } in
          by_run (fault nil_deref stopped)
            (ground (
              arith,
              lookup-insert_self tid (reset t) v.clients,
              lookup-insert_self tid t3 made.clients,
            ))
            (λ e. cc e)

    accept_known :
        out.get_conv kcp < 2 ^ 32 → Accepts (accept_locked out tid (out.get_conv kcp) kcp w)
    unfolding lookup
    accept_known small = elim (Option-cases (lookup tid v.clients)) [
      | inl gone ↦ unknown-Safe gone
      | inr (t, found) ↦ elim (Bool-cases (out.is_private (out.remote_addr kcp))) [
        | inl hidden ↦ private-Safe t found hidden
        | inr public ↦ elim (Option-cases t.connections) [
          | inl em ↦
              paired-Safe t found [] out.circle_new small public (inl (em, refl, refl))
                (λ k p e. absurd (no_entry e))
          | inr (m, em) ↦ elim (Option-cases t.consistent) [
            | inl ec ↦ unpaired-Safe t found m public em ec
            | inr (c, ec) ↦
                paired-Safe t found m c small public (inr (em, ec))
                  (λ k p e. (steady tid t found).below k p (rw em e))
          ]
        ]
      ]
    ]

  ensured-Safe :
      (w : Served out) (o : Outcome (Served out) Bool)
      → out.get_conv kcp < 2 ^ 32
      → ensure_client_tun out tid w ≡ o
      → Safe (λ _ v. IsSteady out (one_held tid) v) o
      → Accepts (accept_locked out tid (out.get_conv kcp) kcp w)
  unfolding accept_locked
  ensured-Safe w (done b v) small e steady = accept_known b w v steady e small
  ensured-Safe w (fault e v) small ends ne =
      Safe-same (λ _ u. IsSteady out (one_held tid) u) _ (fault e v) (ground arith) ne

  pub accept_locked-Steadily :
      out.get_conv kcp < 2 ^ 32
      → Steadily out (one_held tid) (one_held tid) (accept_locked out tid (out.get_conv kcp) kcp)
  unfolding Steadily
  accept_locked-Steadily small w steady =
      ensured-Safe w _ small refl (ensure_tun-Steadily out tid w steady)
