-- ===== src/Server/Accepted.antt =====
-- server_accept_conn: the new connection enters the table, the heap and the circle together.
use ratbond.Server.Invariant.{IsServed}
use ratbond.Server.State.{ClientConnection, update_conn, Client, Served}
use ratbond.Server.Accept.{
  new_client_connection, ensure_client_tun, make_connection, register_connection, accept_locked,
  ensure_client_map,
}
use ratbond.Base.{
  ℕ, ◌+◌, ◌^◌, ◌<◌, ◌≡◌, refl, sym, ap, ◌∙◌, ◌≢◌, ◌⊎◌, inl, inr, Bool, true, false, Option, none,
  some, [], ◌∷◌, arith, ◌==◌, Bool-cases, Text, decimal, Dict, lookup, insert, lookup-insert, done,
  Returns, returns, lookup-insert_self, lookup-insert_ne, insert-cases,
}
use ratbond.Outside.{Outside}
use ratbond.Client.State.{sets_options, session_options, State}
use ratbond.Client.Opening.{config_name, create_tun}

module _ (out : Outside) where
  open out use {
    Circle, circle_new, circle_add, open_tun, get_conv, remote_addr, is_private, members, now,
    options,
  }

  -- A client with its map and its circle: those that it has, or the new ones.
  abbrev pub with_table : Client out → Dict ℕ → Circle → Client out
  with_table s m c = record s { connections = some m; consistent = some c }

  abbrev pub IsTable : Client out → Dict ℕ → Circle → Type 0
  IsTable s m c =
      ((s.connections ≡ none) × (m ≡ []) × (c ≡ circle_new))
      ⊎ ((s.connections ≡ some m) × (s.consistent ≡ some c))

  abbrev pub joined : ℕ → ℕ → Client out → Dict ℕ → Circle → Client out
  joined k p s m c = record s {
    last_convid = 0;
    connections = some (insert k p m);
    consistent = some (circle_add (decimal k) c);
  }

  pub with_table-IsServed :
      (s : Client out) (m : Dict ℕ) (c : Circle) (h : ℕ → ClientConnection)
      → IsTable s m c
      → IsServed out h s
      → IsServed out h (with_table s m c)
  unfolding lookup
  with_table-IsServed s m c h (inl (e, em, ec)) v = record {
    known = λ k p g. cc (g, em);
    named = λ t on. absurd (out.members-new t (rw ec at on));
    placed = λ k p g. cc (g, em);
  }
  with_table-IsServed s m c h (inr (em, ec)) v = record {
    known = λ k p g. v.known k p (rw em g);
    named = λ t on. let (k, p, e, g) = v.named t (rw ec on) in (k, p, e, rw em at g);
    placed = λ k p g. rw ec at (v.placed k p (rw em g));
  }

  -- The pointer is new, and the connection behind it is live and has the key as its convid.
  pub joined-IsServed :
      (k p : ℕ) (s : Client out) (m : Dict ℕ) (c : Circle) (h : ℕ → ClientConnection)
      (conn : ClientConnection)
      → IsServed out h (with_table s m c)
      → ((j q : ℕ) → lookup j m ≡ some q → p ≢ q)
      → conn.convid ≡ k
      → conn.alive ≡ true
      → k < 2 ^ 32
      → IsServed out (update_conn h p conn) (joined k p s m c)
  unfolding update_conn
  joined-IsServed k p s m c h conn v fresh own live small = record {
    known = λ j q e. elim (insert-cases k j p q m e) [
      | inl (same, at_p) ↦ ground arith
      | inr (other, there) ↦ ground (arith, v.known j q there, fresh j q there)
    ];
    named = λ t on. elim ((out.members-add (decimal k) t c).0 on) [
      | inl same ↦ (k, p, same, lookup-insert_self k p m)
      | inr before ↦
          let (j, q, e, there) = v.named t before in
          elim (Bool-cases (k == j)) [
            | inl here ↦ (j, p, e, ground (arith, lookup-insert k j p m))
            | inr away ↦ (j, q, e, ground (arith, lookup-insert k j p m))
          ]
    ];
    placed = λ j q e.
        (out.members-add (decimal k) (decimal j) c).1 (elim (insert-cases k j p q m e) [
          | inl (same, at_p) ↦ inl (ap decimal (sym same))
          | inr (other, there) ↦ inr (v.placed j q there)
        ]);
  }

  ensure_client_map-eq :
      (tid : ℕ) (t : Client out) (m : Dict ℕ) (c : Circle) (w : Served out)
      → lookup tid w.clients ≡ some t
      → IsTable t m c
      → (cs : Dict (Client out)) × (ensure_client_map out tid w
          ≡ done tt (record w { clients = cs }))
        × (lookup tid cs ≡ some (with_table t m c))
        × ((u : ℕ) → (u ≡ tid → ⊥) → lookup u cs ≡ lookup u w.clients)
  unfolding ensure_client_map
  ensure_client_map-eq tid t m c w found (inl (e, em, ec)) = (
    insert tid (with_table t [] circle_new) w.clients,
    ground arith,
    rw (em, ec) (lookup-insert_self tid (with_table t [] circle_new) w.clients),
    λ u ne. lookup-insert_ne tid u (with_table t [] circle_new) w.clients ne,
  )
  ensure_client_map-eq tid t m c w found (inr (em, ec)) = (
    w.clients,
    ground arith,
    found
        ∙ ap (λ (x : Option (Dict ℕ)). some (record t { connections = x })) em
        ∙ ap (λ (x : Option Circle). some (record t { connections = some m; consistent = x })) ec,
    λ u ne. refl,
  )

  pub accept_locked-eq :
      (tid k kcp : ℕ) (b : Bool) (t : Client out) (m : Dict ℕ) (c : Circle) (w v : Served out)
      → ensure_client_tun out tid w ≡ done b v
      → lookup tid v.clients ≡ some t
      → is_private (remote_addr kcp) ≡ false
      → IsTable t m c
      → (w' : Served out) × (conn : ClientConnection) × (accept_locked out tid k kcp w
          ≡ done (b, some v.fresh_conn) w')
        × (w'.conns ≡ update_conn v.conns v.fresh_conn conn)
        × (conn.convid ≡ k)
        × (conn.alive ≡ true)
        × (lookup tid w'.clients ≡ some (joined (get_conv kcp) v.fresh_conn t m c))
        × ((u : ℕ) → (u ≡ tid → ⊥) → lookup u w'.clients ≡ lookup u v.clients)
        × (w'.fresh_conn ≡ v.fresh_conn + 1)
  unfolding accept_locked make_connection register_connection new_client_connection
  accept_locked-eq tid k kcp b t m c w v ensures found public table =
      let p = v.fresh_conn in
      let n = v.process.calls in
      let t1 : Client out = record t { last_convid = 0 } in
      let conn =
        new_client_connection (now n) (now (n + 1)) (now (n + 1 + 1)) k
          (record { convid = get_conv kcp; kcp = kcp; udp_conn = none; remote = none })
          (remote_addr kcp) in
      let made : Served out = record v {
        clients = insert tid t1 v.clients;
        conns = update_conn v.conns p conn;
        fresh_conn = p + 1;
        process = record v.process { calls = n + 1 + 1 + 1 };
      } in
      let (cs, maps, there, kept) =
        ensure_client_map-eq tid t1 m c made (lookup-insert_self tid t1 v.clients) table in
      let t3 : Client out = record t1 {
        connections = some (insert (get_conv kcp) p m);
        consistent = some c;
      } in
      let t4 : Client out = joined (get_conv kcp) p t m c in
      let c3 = insert tid t3 cs in
      (
        record made {
          clients = insert tid t4 c3;
          process = record made.process {
            trace = sets_options kcp session_options ∷ v.process.trace;
          };
        },
        conn,
        ground (arith, lookup-insert_self tid t1 v.clients, lookup-insert_self tid t3 cs),
        refl,
        refl,
        refl,
        lookup-insert_self tid t4 c3,
        (λ u ne.
            lookup-insert_ne tid u t4 c3 ne
            ∙ lookup-insert_ne tid u t3 cs ne
            ∙ kept u ne
            ∙ lookup-insert_ne tid u t1 v.clients ne),
        refl,
      )

  pub ensure-kept :
      (tid i : ℕ) (s : Client out) (w : Served out)
      → lookup tid w.clients ≡ some s
      → s.iface ≡ some i
      → ensure_client_tun out tid w ≡ done false w
  unfolding ensure_client_tun
  ensure-kept tid i s w found tun = ground arith

  pub create_tun-opens :
      (tid i : ℕ) (ip : Text) (v : State out)
      → open_tun v.calls (config_name out tid) ≡ some i
      → Returns (λ r _. r ≡ some i) (create_tun out tid ip v)
  unfolding create_tun
  create_tun-opens tid i ip v opens = rw opens (returns refl)

  -- The client once its tun device is made.
  abbrev pub with_tun : ℕ → ℕ → Text → Client out → Client out
  with_tun tid i name s = record s {
    iface = some i;
    my_tun_ip = options.server_tun_ip;
    remote_tun_ip = options.client_tun_ip;
    ifname = name;
    base_convid = tid;
  }

  pub ensure-makes :
      (tid i : ℕ) (s : Client out) (w : Served out) (b : State out)
      → lookup tid w.clients ≡ some s
      → s.iface ≡ none
      → create_tun out tid options.server_tun_ip w.process ≡ done (some i) b
      → ensure_client_tun out tid w
        ≡ done true (record w {
          clients = insert tid (with_tun tid i (out.tun_name b.calls) s) w.clients;
          process = record b { calls = b.calls + 1 };
        })
  unfolding ensure_client_tun
  ensure-makes tid i s w b found tun makes = ground arith
