-- ===== src/Server/Forward.antt =====
-- server_handle_tun: a packet read from the tun device leaves by a connection of the table.
use ratbond.Server.Choose.{server_choose}
use ratbond.Server.Tunnel.{server_dispatch, server_tun_round}
use ratbond.Server.Invariant.{IsServed}
use ratbond.Server.State.{ClientConnection, client_entries, update_conn, Served, Client}
use ratbond.Base.{
  ℕ, ◌+◌, ◌^◌, ◌<◌, ◌≡◌, ap, ◌∙◌, inl, inr, true, false, some, List, ◌∷◌, ◌++◌, arith, ◌==◌,
  Option-cases, length, Text, decimal, atoi, atoi-decimal, lookup, insert, done, lookup-insert_self,
}
use ratbond.Outside.{Outside, written}
use ratbond.Packet.Flow.{extract_dst}
use ratbond.Client.State.{RatSession, kcp_writes, write_deadline, u32, u64}
use ratbond.Client.Disconnect.{write_deadline_ms}
use ratbond.Client.Reader.{dead_state}

module _ (out : Outside) where
  open out use {kcp_state, kcp_write, tun_read, parse_header, options, circle_get}

  -- The world after `packet` went out by `p`, with the mutex taken and released on the way.
  abbrev pub served : ℕ → ℕ → Client out → RatSession → List ℕ → Served out → Served out
  served tid p s session packet w =
      let c = w.conns p in
      record w {
        clients =
            insert tid (record s { locked = false })
              (insert tid (record s { locked = true }) w.clients);
        conns = update_conn w.conns p (record c {
          txcounter = u64 (c.txcounter + 1);
          txbytes = u64 (c.txbytes + length packet);
        });
        process = record w.process {
          calls = w.process.calls + 1 + 1;
          trace =
              kcp_writes session.kcp packet
              ∷ write_deadline session.kcp write_deadline_ms
              ∷ w.process.trace;
        };
      }

  server_dispatch-sent :
      (tid k p : ℕ) (s : Client out) (session : RatSession) (packet : List ℕ) (w : Served out)
      → lookup tid w.clients ≡ some s
      → s.locked ≡ false
      → lookup k (client_entries s) ≡ some p
      → (w.conns p).session ≡ some session
      → (kcp_state w.process.calls == dead_state) ≡ false
      → kcp_write (w.process.calls + 1) ≡ written
      → server_dispatch out tid (some k) packet w ≡ done tt (served tid p s session packet w)
  unfolding server_dispatch
  server_dispatch-sent tid k p s session packet w found free here live alive writes =
      ground (arith, lookup-insert_self tid (record s { locked = true }) w.clients)

  server_tun_round-eq :
      (tid k i : ℕ) (s : Client out) (stale packet : List ℕ) (w w' : Served out)
      → lookup tid w.clients ≡ some s
      → s.iface ≡ some i
      → tun_read w.process.calls ≡ some packet
      → let v : Served out = record w {
        process = record w.process { calls = w.process.calls + 1 };
      } in
        server_choose out tid (some (packet ++ stale, length packet)) v ≡ done (some k) v
        → server_dispatch out tid (some k) packet v ≡ done tt w'
        → server_tun_round out tid stale w ≡ done true w'
  unfolding server_tun_round
  server_tun_round-eq tid k i s stale packet w w' found tun reads chooses sends = ground arith

  server_hashed-eq :
      (tid k : ℕ) (s : Client out) (circle : out.Circle) (key t : Text) (packet : List ℕ) (len : ℕ)
      (w : Served out)
      → lookup tid w.clients ≡ some s
      → s.consistent ≡ some circle
      → extract_dst parse_header packet len ≡ some key
      → options.use_consistent_hashing ≡ true
      → circle_get key circle ≡ some t
      → atoi t ≡ some k
      → server_choose out tid (some (packet, len)) w ≡ done (some (u32 k)) w
  unfolding server_choose
  server_hashed-eq tid k s circle key t packet len w found ec ek on got number = ground arith

  -- Of a circle that agrees with a table that is not empty, Get returns a name of the table.
  owner-served :
      (h : ℕ → ClientConnection) (s : Client out) (circle : out.Circle) (key : Text) (j q : ℕ)
      → IsServed out h s
      → s.consistent ≡ some circle
      → lookup j (client_entries s) ≡ some q
      → (t : Text) × (k : ℕ) × (p : ℕ) × (circle_get key circle ≡ some t)
        × (lookup k (client_entries s) ≡ some p)
        × (atoi t ≡ some k)
        × (u32 k ≡ k)
  owner-served h s circle key j q c ec there = elim (Option-cases (circle_get key circle)) [
    | inl fails ↦
        absurd (out.get_fails key (decimal j) circle fails (rw ec at (c.placed j q there)))
    | inr (t, got) ↦
        let (k, p, e, here) = c.named t (rw ec (out.members-get key t circle got)) in
        let small : k < 2 ^ 32 = (c.known k p here).2 in
        (t, k, p, got, here, rw e (atoi-decimal k), omega arith)
  ]

  -- Every connection of the table has a session whose link is up and takes the next write.
  abbrev pub IsUp : Client out → Served out → Type 0
  IsUp s w =
      (k p : ℕ)
      → lookup k (client_entries s) ≡ some p
      → (session : RatSession) × ((w.conns p).session ≡ some session)
        × ((kcp_state w.process.calls == dead_state) ≡ false)
        × (kcp_write (w.process.calls + 1) ≡ written)

  -- With consistent hashing, a coherent table that is not empty and whose links are up, and a free
  -- mutex, a packet with a flow key that the server reads from the client's tun device leaves whole
  -- by the session of one connection of the table: it is not dropped, and the mutex is free again.
  pub server_tun_round-sent :
      (tid i j q : ℕ) (s : Client out) (circle : out.Circle) (key : Text) (stale packet : List ℕ)
      (w : Served out)
      → lookup tid w.clients ≡ some s
      → s.locked ≡ false
      → IsServed out w.conns s
      → s.iface ≡ some i
      → s.consistent ≡ some circle
      → lookup j (client_entries s) ≡ some q
      → options.use_consistent_hashing ≡ true
      → tun_read w.process.calls ≡ some packet
      → extract_dst parse_header (packet ++ stale) (length packet) ≡ some key
      → let v : Served out = record w {
        process = record w.process { calls = w.process.calls + 1 };
      } in
        IsUp s v
        → (k : ℕ) × (p : ℕ) × (session : RatSession) × (lookup k (client_entries s) ≡ some p)
          × ((w.conns p).session ≡ some session)
          × (server_tun_round out tid stale w ≡ done true (served tid p s session packet v))
  server_tun_round-sent tid i j q s circle key stale packet w found free c tun ec there on reads ek
        up =
      let v : Served out = record w {
        process = record w.process { calls = w.process.calls + 1 };
      } in
      let (t, k, p, got, here, number, small) = owner-served w.conns s circle key j q c ec there in
      let (session, live, alive, writes) = up k p here in
      (
        k,
        p,
        session,
        here,
        live,
        server_tun_round-eq tid k i s stale packet w _ found tun reads
            (server_hashed-eq tid k s circle key t (packet ++ stale) (length packet) v found ec ek
                on got number
              ∙ ap (λ (x : ℕ). done (some x) v) small)
            (server_dispatch-sent tid k p s session packet v found free here live alive writes),
      )
