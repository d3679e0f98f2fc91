-- ===== src/Server/Joined.antt =====
-- server_handle_kcp_listener and server_accept_conn as a whole: a client that is known, and a new one.
use ratbond.Client.Opening.{config_name}
use mathlib.Core.Path.{subst}
use ratbond.Server.Accept.{new_client, accept_locked, handle_accepted, ensure_client_tun}
use ratbond.Server.Invariant.{IsServed}
use ratbond.Server.State.{client_entries, Served, Client, ClientConnection, update_conn}
use ratbond.Server.Accepted.{
  with_table, IsTable, joined, with_table-IsServed, joined-IsServed, accept_locked-eq, ensure-kept,
  create_tun-opens, with_tun, ensure-makes,
}
use ratbond.Server.Forward.{served}
use ratbond.Base.{
  ℕ, ◌+◌, ◌^◌, ◌<◌, ◌≡◌, refl, sym, ap, ◌∙◌, ◌≢◌, inl, true, false, Option, none, some, List, [],
  ◌∷◌, arith, ◌==◌, if◌then◌else◌, Dict, lookup, insert, lookup-insert, done, Returns, Returns-done,
  lookup-insert_self, lookup-insert_ne, Returns-eq,
}
use ratbond.Outside.{Outside}
use ratbond.Client.State.{Effect, sets_options, server_options, starts_tun}

module _ (out : Outside) where
  open out use {Circle, circle_new, open_tun, get_conv, remote_addr, is_private, options}

  -- The session `kcp` is in the table of the client at `tid`, under its convid and with a new
  -- connection, beside the entries `before`; every other client is as it was, the table is coherent
  -- and the mutex is free.
  pub record Joins (tid kcp : ℕ) (before : Dict ℕ) (w : Served out) (r : Option ℕ) (w' : Served out)
      : Type 0 where
    pub client : Client out
    pub found : lookup tid w'.clients ≡ some client
    pub unlocked : client.locked ≡ false
    pub pointer : r ≡ some w.fresh_conn
    pub table :
        (j : ℕ)
        → lookup j (client_entries client)
          ≡ (if get_conv kcp == j then some w.fresh_conn else lookup j before)
    pub coherent : IsServed out w'.conns client
    pub others : (t : ℕ) → (t ≡ tid → ⊥) → lookup t w'.clients ≡ lookup t w.clients

  module _ (tid kcp : ℕ) (w : Served out) where
    optioned : Served out
    optioned = record w {
      process = record w.process { trace = sets_options kcp server_options ∷ w.process.trace };
    }

    accept-known :
        (p : ℕ) (s t : Client out) (v : Served out)
        → lookup tid w.clients ≡ some s
        → s.locked ≡ false
        → accept_locked out tid
            (get_conv kcp)
            kcp
            (record optioned { clients = insert tid (record s { locked = true }) w.clients })
          ≡ done (false, some p) v
        → lookup tid v.clients ≡ some t
        → handle_accepted out tid kcp w
          ≡ done
              (some p)
              (record v { clients = insert tid (record t { locked = false }) v.clients })
    unfolding handle_accepted optioned
    accept-known p s t v found free accepts after = ground arith

    accept-new :
        (p : ℕ) (t : Client out) (v : Served out)
        → lookup tid w.clients ≡ none
        → accept_locked out tid (get_conv kcp) kcp (record optioned {
          clients =
              insert tid
                (record (new_client out) { locked = true })
                (insert tid (new_client out) w.clients);
        })
          ≡ done (true, some p) v
        → lookup tid v.clients ≡ some t
        → handle_accepted out tid kcp w
          ≡ done (some p) (record v {
            clients = insert tid (record t { locked = false }) v.clients;
            process = record v.process { trace = starts_tun tid ∷ v.process.trace };
          })
    unfolding handle_accepted optioned
    accept-new p t v missing accepts after =
        ground (arith, lookup-insert_self tid (new_client out) w.clients)

    finish :
        (s : Client out) (c : Circle) (p : ℕ) (conn : ClientConnection) (v : Served out)
        (m : Dict ℕ)
        → IsServed out w.conns (with_table out s m c)
        → ((j q : ℕ) → lookup j m ≡ some q → p ≢ q)
        → get_conv kcp < 2 ^ 32
        → p ≡ w.fresh_conn
        → v.conns ≡ update_conn w.conns p conn
        → conn.convid ≡ get_conv kcp
        → conn.alive ≡ true
        → ((t : ℕ) → (t ≡ tid → ⊥) → lookup t v.clients ≡ lookup t w.clients)
        → (trace : List Effect)
        → let t : Client out = record (joined out (get_conv kcp) p s m c) { locked = false } in
          Joins tid kcp m w (some p) (record v {
            clients = insert tid t v.clients;
            process = record v.process { trace = trace };
          })
    finish s c p conn v m served fresh small same conns' own live others' trace =
        let t : Client out = record (joined out (get_conv kcp) p s m c) { locked = false } in
        let j : IsServed out (update_conn w.conns p conn) (joined out (get_conv kcp) p s m c) =
          joined-IsServed out (get_conv kcp) p s m c w.conns conn served fresh own live small in
        record {
          client = t;
          found = lookup-insert_self tid t v.clients;
          unlocked = refl;
          pointer = ap some same;
          table = λ i. rw (← same) (lookup-insert (get_conv kcp) i p m);
          coherent =
              subst (λ h. IsServed out h t) (sym conns')
                (record { known = j.known; named = j.named; placed = j.placed });
          others = λ u ne. lookup-insert_ne tid u t v.clients ne ∙ others' u ne;
        }

    -- A session that the listener accepts for a client in the table, with a tun device, a free mutex
    -- and a coherent table (map and circle both made, or no map), from an address that is not
    -- private: the handling returns the new connection, which is in the table under its convid and
    -- nothing else has changed there, the table is coherent, and the mutex is free.
    pub accepted-Joins :
        (i : ℕ) (s : Client out) (c : Circle)
        → lookup tid w.clients ≡ some s
        → s.locked ≡ false
        → s.iface ≡ some i
        → IsTable out s (client_entries s) c
        → IsServed out w.conns s
        → ((j q : ℕ) → lookup j (client_entries s) ≡ some q → w.fresh_conn ≢ q)
        → is_private (remote_addr kcp) ≡ false
        → get_conv kcp < 2 ^ 32
        → Returns (Joins tid kcp (client_entries s) w) (handle_accepted out tid kcp w)
    unfolding optioned
    accepted-Joins i s c found free tun table served fresh public small =
        let m = client_entries s in
        let sl : Client out = record s { locked = true } in
        let w1 : Served out = record optioned { clients = insert tid sl w.clients } in
        let here : lookup tid w1.clients ≡ some sl = lookup-insert_self tid sl w.clients in
        let (v, conn, runs', conns', own, live, found', others', next') =
          accept_locked-eq out tid (get_conv kcp) kcp false sl m c w1 w1
            (ensure-kept out tid i sl w1 here tun) here public table in
        let full : IsServed out w.conns (with_table out s m c) =
          with_table-IsServed out s m c w.conns table served in
        Returns-eq (some w.fresh_conn) _ (accept-known w.fresh_conn s _ v found free runs' found') (
          finish s c w.fresh_conn conn v m full fresh small refl conns' own live
            (λ u ne. others' u ne ∙ lookup-insert_ne tid u sl w.clients ne) v.process.trace)

    -- A session that the listener accepts for a tunnel id that has no client yet, from an address
    -- that is not private and when the tun device opens: the handling makes the client and returns
    -- the new connection, the only one in its table, under its convid; the table is coherent, every
    -- other client is left, the mutex is free, and the goroutine of the tun device is started.
    pub accepted_first-Joins :
        (i : ℕ)
        → lookup tid w.clients ≡ none
        → open_tun w.process.calls (config_name out tid) ≡ some i
        → is_private (remote_addr kcp) ≡ false
        → get_conv kcp < 2 ^ 32
        → Returns
            (λ r w'.
              Joins tid kcp [] w r w'
              × ((rest : List Effect) × (w'.process.trace ≡ starts_tun tid ∷ rest)))
            (handle_accepted out tid kcp w)
    unfolding optioned lookup
    accepted_first-Joins i missing opens public small =
        let s0 : Client out = new_client out in
        let sl : Client out = record s0 { locked = true } in
        let c0 = insert tid s0 w.clients in
        let w1 : Served out = record optioned { clients = insert tid sl c0 } in
        let here : lookup tid w1.clients ≡ some sl = lookup-insert_self tid sl c0 in
        let (_, b, makes, same) =
          Returns-done (create_tun-opens out tid i options.server_tun_ip w1.process opens) in
        let st : Client out = with_tun out tid i (out.tun_name b.calls) sl in
        let v1 : Served out = record w1 {
          clients = insert tid st w1.clients;
          process = record b { calls = b.calls + 1 };
        } in
        let ensures : ensure_client_tun out tid w1 ≡ done true v1 =
          ensure-makes out tid i sl w1 b here refl (makes ∙ ap (λ (r : Option ℕ). done r b) same) in
        let (v, conn, runs', conns', own, live, found', others', next') =
          accept_locked-eq out tid (get_conv kcp) kcp true st [] circle_new w1 v1 ensures
            (lookup-insert_self tid st w1.clients) public (inl (refl, refl, refl)) in
        let full : IsServed out w.conns (with_table out st [] circle_new) = record {
          known = λ k q e. cc e;
          named = λ t on. absurd (out.members-new t on);
          placed = λ k q e. cc e;
        } in
        Returns-eq (some w.fresh_conn) _ (accept-new w.fresh_conn _ v missing runs' found') (
          finish st circle_new w.fresh_conn conn v [] full (λ j q e. cc e) small refl conns' own
              live
              (λ u ne.
                others' u ne
                ∙ lookup-insert_ne tid u st w1.clients ne
                ∙ lookup-insert_ne tid u sl c0 ne
                ∙ lookup-insert_ne tid u s0 w.clients ne)
              (starts_tun tid ∷ v.process.trace),
          (v.process.trace, refl),
        )
