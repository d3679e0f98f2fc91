-- ===== src/Client/Adding.antt =====
-- client_connect_server: the new connection enters the table, the heap and the circle together, and
-- none is added beyond the limit for a source address.
use mathlib.Core.Path.{fun_ext, subst}
use ratbond.Client.Choose.{count_src}
use ratbond.Client.Opening.{dial}
use ratbond.Client.Connect.{connect_server, new_connection, add_connection}
use ratbond.Client.Invariant.{IsCoherent}
use ratbond.Client.State.{
  sets_buffers, sets_options, client_options, session_options, RatSession, ServerConnection,
  entries, update, State, Server, ServerType,
}
use ratbond.Base.{
  ℕ, ◌+◌, ◌^◌, ◌≤◌, ◌<◌, ◌≡◌, refl, sym, ap, ◌∙◌, ◌≢◌, inl, inr, true, false, none, some, [], ◌∷◌,
  arith, ◌==◌, if◌then◌else◌, Bool-cases, length, Text, text_eq, decimal, Dict, lookup, insert,
  lookup-insert, done, Returns, lookup-insert_self, lookup-insert_ne, Returns-eq, insert-cases,
  filter,
}
use ratbond.Client.Opening.{dial}
use ratbond.Outside.{Outside, Handles, connected}

pub entries_are :
    (C : Type 0) (s : ServerType C) (d : Dict ℕ) → s.connections ≡ some d → entries s ≡ d
entries_are C s d e = rw e refl

module _ (out : Outside) where
  open out use {Circle, circle_add, options, now}

  -- The server with the new entry and its name.
  abbrev pub added : ℕ → ℕ → Server out → Dict ℕ → Circle → Server out
  added k p s m c = record s {
    last_convid = 0;
    connections = some (insert k p m);
    consistent = some (circle_add (decimal k) c);
  }

  pub added-IsCoherent :
      (k p : ℕ) (s : Server out) (m : Dict ℕ) (c : Circle) (h : ℕ → ServerConnection)
      (conn : ServerConnection)
      → entries s ≡ m
      → s.consistent ≡ some c
      → IsCoherent out h s
      → ((j q : ℕ) → lookup j m ≡ some q → p ≢ q)
      → conn.convid ≡ k
      → conn.alive ≡ true
      → k < 2 ^ 32
      → 0 < k
      → IsCoherent out (update h p conn) (added k p s m c)
  unfolding update
  added-IsCoherent k p s m c h conn em ec v fresh own live small pos = record {
    known = λ j q e. elim (insert-cases k j p q m e) [
      | inl (same, at_p) ↦ ground arith
      | inr (other, there) ↦ ground (arith, v.known j q (rw em there), fresh j q there)
    ];
    named = λ t on. elim ((out.members-add (decimal k) t c).0 on) [
      | inl same ↦ (k, p, same, lookup-insert_self k p m)
      | inr before ↦
          let (j, q, e, there) = v.named t (rw ec before) in
          elim (Bool-cases (k == j)) [
            | inl here ↦ (j, p, e, ground (arith, lookup-insert k j p m))
            | inr away ↦ (j, q, e, ground (arith, rw em at there, lookup-insert k j p m))
          ]
    ];
    placed = λ j q e.
        (out.members-add (decimal k) (decimal j) c).1 (elim (insert-cases k j p q m e) [
          | inl (same, at_p) ↦ inl (ap decimal (sym same))
          | inr (other, there) ↦ inr (rw ec at (v.placed j q (rw em there)))
        ]);
  }

  -- What add_connection leaves: its result is a new connection with its session, and the server has
  -- the new entry.
  pub add_connection-eq :
      (tid k : ℕ) (src ifname ip : Text) (s : Server out) (m : Dict ℕ) (c : Circle) (x : Handles)
      (w : State out)
      → lookup tid w.servers ≡ some s
      → entries s ≡ m
      → s.consistent ≡ some c
      → 0 < k
      → dial out src (w.calls + 1 + 1 + 1) k ≡ connected x
      → (w' : State out) × (conn : ServerConnection) × (add_connection out tid k src ifname ip w
          ≡ done w.fresh w')
        × (w'.heap ≡ update w.heap w.fresh conn)
        × (conn.convid ≡ k)
        × (conn.alive ≡ true)
        × (conn.session
            ≡ some (record { convid = k; kcp = x.kcp; udp_conn = some x.udp; remote = none }))
        × (lookup tid w'.servers ≡ some (added k w.fresh s m c))
        × ((u : ℕ) → (u ≡ tid → ⊥) → lookup u w'.servers ≡ lookup u w.servers)
        × (conn.src_address ≡ src)
        × (conn.ifname ≡ ifname)
        × (w'.fresh ≡ w.fresh + 1)
  unfolding add_connection update
  add_connection-eq tid k src ifname ip s m c x w found em ec pos opens =
      let p = w.fresh in
      let n = w.calls in
      let s1 : Server out = record s { last_convid = 0; connections = some (insert k p m) } in
      let session : RatSession = record {
        convid = k;
        kcp = x.kcp;
        udp_conn = some x.udp;
        remote = none;
      } in
      let bare = new_connection (now n) (now (n + 1)) (now (n + 1 + 1)) k src ip ifname in
      let conn : ServerConnection = record bare { session = some session } in
      let s2 : Server out = added k p s m c in
      let v1 = insert tid s1 w.servers in
      (
        record w {
          servers = insert tid s2 v1;
          heap = update (update w.heap p bare) p conn;
          fresh = p + 1;
          calls = n + 1 + 1 + 1 + 1;
          trace =
              sets_buffers x.kcp
              ∷ sets_options x.kcp client_options
              ∷ sets_options x.kcp session_options
              ∷ w.trace;
        },
        conn,
        ground (arith, lookup-insert_self tid s1 w.servers),
        fun_ext (λ q. ground arith),
        refl,
        refl,
        refl,
        lookup-insert_self tid s2 v1,
        (λ u ne. lookup-insert_ne tid u s2 v1 ne ∙ lookup-insert_ne tid u s1 w.servers ne),
        refl,
        refl,
        refl,
      )

  -- The connection that client_connect_server makes under the mutex, at a convid that is not 0 and on
  -- a coherent table with its map and circle, when the session opens: it has that convid and a
  -- session of its own, it is in the table under its convid beside the entries that were there,
  -- every other tunnel is left, and the table is coherent.
  pub add_connection-Adds :
      (tid k : ℕ) (src ifname ip : Text) (s : Server out) (m : Dict ℕ) (c : Circle) (x : Handles)
      (w : State out)
      → lookup tid w.servers ≡ some s
      → s.connections ≡ some m
      → s.consistent ≡ some c
      → IsCoherent out w.heap s
      → ((j q : ℕ) → lookup j m ≡ some q → w.fresh ≢ q)
      → 0 < k
      → k < 2 ^ 32
      → dial out src (w.calls + 1 + 1 + 1) k ≡ connected x
      → Returns
          (λ p w'.
            (p ≡ w.fresh)
            × ((w'.heap p).session
                ≡ some (record { convid = k; kcp = x.kcp; udp_conn = some x.udp; remote = none }))
            × (lookup tid w'.servers ≡ some (added k p s m c))
            × ((j : ℕ)
                → lookup j (entries (added k p s m c)) ≡ (if k == j then some p else lookup j m))
            × ((u : ℕ) → (u ≡ tid → ⊥) → lookup u w'.servers ≡ lookup u w.servers)
            × IsCoherent out w'.heap (added k p s m c))
          (add_connection out tid k src ifname ip w)
  unfolding update
  add_connection-Adds tid k src ifname ip s m c x w found em ec v fresh pos small opens =
      let (
        w', conn, runs', heap', own, live, open_session, found', others', from_src, by_if, next',
      ) =
        add_connection-eq tid k src ifname ip s m c x w found (entries_are _ s m em) ec pos opens in
      Returns-eq w.fresh w' runs' (
        refl,
        rw heap' (ground arith),
        found',
        λ j. lookup-insert k j w.fresh m,
        others',
        subst (λ h. IsCoherent out h (added k w.fresh s m c)) (sym heap')
            (added-IsCoherent k w.fresh s m c w.heap conn (entries_are _ s m em) ec v fresh own live
              small pos),
      )

  -- The entries of a table whose connection is from a source address.
  abbrev pub from_src : (ℕ → ServerConnection) → Text → Dict ℕ → Dict ℕ
  from_src heap src m = filter (λ e. text_eq (heap e.1).src_address src) m

  count_src-from_src :
      (heap : ℕ → ServerConnection) (src : Text) (m : Dict ℕ)
      → count_src heap m src ≡ length (from_src heap src m)
  unfolding count_src
  count_src-from_src heap src [] = refl
  count_src-from_src heap src ((k, p) ∷ m) = ground (arith, count_src-from_src heap src m)

  -- At the limit client_connect_server makes no connection: with as many entries in the table whose
  -- connections are from the source address as the limit allows or more, it returns, the server's fields are as before, no call is
  -- made, and the mutex is free.
  pub connect_server-full :
      (tid : ℕ) (src ifname : Text) (s : Server out) (w : State out)
      → lookup tid w.servers ≡ some s
      → s.locked ≡ false
      → options.mux_max ≤ length (from_src w.heap src (entries s))
      → connect_server out tid src ifname w
        ≡ done tt (record w {
          servers =
              insert tid
                (record s { locked = false })
                (insert tid (record s { locked = true }) w.servers);
        })
  unfolding connect_server
  connect_server-full tid src ifname s w found free full = ground (
    arith,
    count_src-from_src w.heap src (entries s),
    lookup-insert_self tid (record s { locked = true }) w.servers,
  )
