-- ===== src/Server/Disconnected.antt =====
-- server_disconnect_session_by_convid as a whole, and the LINKDOWN message that leads to it.
use ratbond.Server.Disconnect.{server_close_matching, server_disconnect_by_convid}
use ratbond.Server.Invariant.{IsServed, Drops}
use ratbond.Server.Closing.{server_close_matching-Drops}
use ratbond.Server.State.{ClientConnection, client_entries, update_conn, Served, Client}
use ratbond.Server.Reader.{server_on_message, server_read_round}
use ratbond.Base.{
  ℕ, ◌+◌, ◌^◌, ◌<◌, ◌≡◌, refl, sym, ◌∙◌, inl, inr, Bool, true, false, ◌&&◌, none, some, ◌∷◌, arith,
  ◌==◌, if◌then◌else◌, Option-cases, length, Dict, lookup, insert, keys, Elem-keys, done, Returns,
  Returns-done, lookup-insert_self, lookup-insert_ne, Returns-eq, mem, Elem-mem,
}
use ratbond.Outside.{Outside, received}
use ratbond.Packet.Wire.{linkdown_message, server_sort, is_linkdown, server_sort-linkdown_message}
use ratbond.Client.State.{u64, read_deadline}
use ratbond.Client.Reader.{dead_state}

module _ (out : Outside) where
  open out use {range, range-Elem, kcp_state, kcp_read, now}

  server_disconnect-eq :
      (tid d : ℕ) (s t : Client out) (w u : Served out)
      → lookup tid w.clients ≡ some s
      → s.locked ≡ false
      → let held : Served out = record w {
        clients = insert tid (record s { locked = true }) w.clients;
        process = record w.process { calls = w.process.calls + 1 };
      } in
        server_close_matching out tid d (range w.process.calls (keys (client_entries s))) held
          ≡ done tt u
        → lookup tid u.clients ≡ some t
        → server_disconnect_by_convid out tid d w
          ≡ done tt (record u { clients = insert tid (record t { locked = false }) u.clients })
  unfolding server_disconnect_by_convid
  server_disconnect-eq tid d s t w u e free runs' after =
      ground (arith, lookup-insert_self tid (record s { locked = true }) w.clients)

  locked-IsServed :
      (h : ℕ → ClientConnection) (s : Client out) (b : Bool)
      → IsServed out h s
      → IsServed out h (record s { locked = b })
  locked-IsServed h s b c = record { known = c.known; named = c.named; placed = c.placed }

  every_key :
      (n d : ℕ) (m : Dict ℕ) (j : ℕ)
      → (if mem j (range n (keys m)) && j == d then none else lookup j m)
        ≡ (if j == d then none else lookup j m)
  every_key n d m j = elim (Option-cases (lookup j m)) [
    | inl gone ↦ rw gone (ground arith)
    | inr (p, here) ↦
        rw (Elem-mem j (range n (keys m)) ((range-Elem n (keys m) j).1 (Elem-keys j p m here)))
  ]

  -- server_disconnect_session_by_convid, on a client that exists, is coherent and whose mutex is
  -- free, returns; it takes the connection with that convid from the table and the circle, if there
  -- is one, leaves every other entry, every other client and every connection as they are, keeps the
  -- table coherent and frees the mutex.
  pub server_disconnect-Drops :
      (tid d : ℕ) (s : Client out) (w : Served out)
      → lookup tid w.clients ≡ some s
      → s.locked ≡ false
      → IsServed out w.conns s
      → Returns
          (λ _ w'. Drops out tid (λ j. j == d) s w w')
          (server_disconnect_by_convid out tid d w)
  server_disconnect-Drops tid d s w e free c =
      let sl : Client out = record s { locked = true } in
      let held : Served out = record w {
        clients = insert tid sl w.clients;
        process = record w.process { calls = w.process.calls + 1 };
      } in
      let (_, u, runs', m) = Returns-done (
        server_close_matching-Drops out tid d (range w.process.calls (keys (client_entries s))) sl
          held (lookup-insert_self tid sl w.clients) (locked-IsServed w.conns s true c)) in
      Returns-eq tt _ (server_disconnect-eq tid d s m.client w u e free runs' m.found) (record {
        client = record m.client { locked = false };
        found = lookup-insert_self tid _ u.clients;
        others = λ t ne.
            lookup-insert_ne tid t _ u.clients ne
            ∙ m.others t ne
            ∙ lookup-insert_ne tid t sl w.clients ne;
        lock_kept = sym free;
        base_kept = m.base_kept;
        conns_kept = m.conns_kept;
        fresh_kept = m.fresh_kept;
        table = λ j. m.table j ∙ every_key w.process.calls d (client_entries s) j;
        coherent = locked-IsServed u.conns m.client false m.coherent;
      })

  module _ (tid convid p kcp d : ℕ) (s : Client out) (w : Served out) where
    -- The world once the LINKDOWN message is read and counted.
    abbrev pub linkdown_read : Served out
    linkdown_read =
        let c = w.conns p in
        record w {
          conns = update_conn w.conns p (record c {
            rxcounter = u64 (c.rxcounter + 1);
            rxbytes = u64 (c.rxbytes + 3);
            last_hello = now (w.process.calls + 1 + 1);
          });
          process = record w.process {
            calls = w.process.calls + 1 + 1 + 1;
            trace = read_deadline kcp 5000 ∷ w.process.trace;
          };
        }

    linkdown_read-eq :
        (u : Served out)
        → lookup tid w.clients ≡ some s
        → (kcp_state w.process.calls == dead_state) ≡ false
        → kcp_read (w.process.calls + 1) ≡ received (linkdown_message d)
        → server_sort (linkdown_message d) ≡ is_linkdown d
        → length (linkdown_message d) ≡ 3
        → d < 2 ^ 32
        → server_disconnect_by_convid out tid d linkdown_read ≡ done tt u
        → server_read_round out tid convid p kcp w ≡ done true u
    unfolding server_read_round server_on_message
    linkdown_read-eq u found alive reads sorts three small drops = ground arith

    counted-IsServed : IsServed out w.conns s → IsServed out linkdown_read.conns s
    unfolding update_conn
    counted-IsServed c = record {
      known = λ k q e. ground (arith, c.known k q e);
      named = c.named;
      placed = c.placed;
    }

    -- When the server reads, on a session that is not dead, the LINKDOWN message that the client
    -- sends for a convid below 2^16, and the client's table is coherent and its mutex free, the
    -- round returns and goes on, and exactly the connection with that convid has left the table.
    pub linkdown-Drops :
        lookup tid w.clients ≡ some s
        → s.locked ≡ false
        → IsServed out w.conns s
        → (kcp_state w.process.calls == dead_state) ≡ false
        → kcp_read (w.process.calls + 1) ≡ received (linkdown_message d)
        → d < 2 ^ 16
        → Returns
            (λ b w'. (b ≡ true) × Drops out tid (λ j. j == d) s linkdown_read w')
            (server_read_round out tid convid p kcp w)
    linkdown-Drops found free c alive reads small =
        let (_, u, drops, m) =
          Returns-done
            (server_disconnect-Drops tid d s linkdown_read found free (counted-IsServed c)) in
        Returns-eq true u
          (linkdown_read-eq u found alive reads ((server_sort-linkdown_message d).1.1 small)
            (unfold linkdown_message in refl) (omega arith) drops)
          (refl, m)
