-- ===== src/Client/Forward.antt =====
-- client_handle_tun: a packet read from the tun device leaves by a connection of the table.
use ratbond.Client.Choose.{choose}
use ratbond.Client.Invariant.{IsCoherent}
use ratbond.Client.Scheduler.{Chooses, choose_consistent}
use ratbond.Packet.Flow.{extract_src}
use ratbond.Base.{
  ℕ, ◌+◌, ◌<◌, ◌≡◌, ap, ◌∙◌, true, false, Option, none, some, List, ◌∷◌, ◌++◌, arith, ◌==◌, length,
  Text, lookup, insert, done, Returns-done, lookup-insert_self,
}
use ratbond.Outside.{Outside, written}
use ratbond.Client.State.{
  RatSession, kcp_writes, write_deadline, entries, update, u64, State, Server,
}
use ratbond.Client.Disconnect.{write_deadline_ms}
use ratbond.Client.Reader.{dead_state}
use ratbond.Client.Tunnel.{dispatch_packet, tun_round}

module _ (out : Outside) where
  open out use {kcp_state, kcp_write, tun_read, parse_header, options}

  -- The world after `packet` went out by `p`, with the mutex taken and released on the way.
  abbrev pub sent : ℕ → ℕ → Server out → RatSession → List ℕ → State out → State out
  sent tid p s session packet w =
      let c = w.heap p in
      record w {
        servers =
            insert tid (record s { locked = false })
              (insert tid (record s { locked = true }) w.servers);
        heap = update w.heap p (record c {
          txcounter = u64 (c.txcounter + 1);
          txbytes = u64 (c.txbytes + length packet);
        });
        calls = w.calls + 1 + 1;
        trace =
            kcp_writes session.kcp packet ∷ write_deadline session.kcp write_deadline_ms ∷ w.trace;
      }

  dispatch_packet-sent :
      (tid k p : ℕ) (s : Server out) (session : RatSession) (packet : List ℕ) (w : State out)
      → lookup tid w.servers ≡ some s
      → s.locked ≡ false
      → lookup k (entries s) ≡ some p
      → 0 < k
      → (w.heap p).session ≡ some session
      → (kcp_state w.calls == dead_state) ≡ false
      → kcp_write (w.calls + 1) ≡ written
      → dispatch_packet out tid (some k) packet w ≡ done tt (sent tid p s session packet w)
  unfolding dispatch_packet
  dispatch_packet-sent tid k p s session packet w found free here pos live alive writes =
      ground (arith, lookup-insert_self tid (record s { locked = true }) w.servers)

  tun_round-eq :
      (tid k i : ℕ) (s : Server out) (stale packet : List ℕ) (w w' : State out)
      → lookup tid w.servers ≡ some s
      → s.iface ≡ some i
      → tun_read w.calls ≡ some packet
      → let v : State out = record w { calls = w.calls + 1 } in
        choose out tid (some (packet ++ stale, length packet)) v ≡ done (some k) v
        → dispatch_packet out tid (some k) packet v ≡ done tt w'
        → tun_round out tid stale w ≡ done true w'
  unfolding tun_round
  tun_round-eq tid k i s stale packet w w' found tun reads picks sends = ground arith

  -- Every connection of the table has a session whose link is up and takes the next write.
  abbrev pub IsHealthy : Server out → State out → Type 0
  IsHealthy s w =
      (k p : ℕ)
      → lookup k (entries s) ≡ some p
      → (session : RatSession) × ((w.heap p).session ≡ some session)
        × ((kcp_state w.calls == dead_state) ≡ false)
        × (kcp_write (w.calls + 1) ≡ written)

  -- With consistent hashing, a coherent table that is not empty and whose links are up, and a free
  -- mutex, a packet with a flow key that is read from the tun device leaves whole by the session
  -- of one connection of the table: it is not dropped, and the mutex is free again.
  pub tun_round-sent :
      (tid i j q : ℕ) (s : Server out) (circle : out.Circle) (key : Text) (stale packet : List ℕ)
      (w : State out)
      → lookup tid w.servers ≡ some s
      → s.locked ≡ false
      → IsCoherent out w.heap s
      → s.iface ≡ some i
      → s.consistent ≡ some circle
      → lookup j (entries s) ≡ some q
      → options.use_consistent_hashing ≡ true
      → tun_read w.calls ≡ some packet
      → extract_src parse_header (packet ++ stale) (length packet) ≡ some key
      → let v : State out = record w { calls = w.calls + 1 } in
        IsHealthy s v
        → (k : ℕ) × (p : ℕ) × (session : RatSession) × (lookup k (entries s) ≡ some p)
          × ((w.heap p).session ≡ some session)
          × (tun_round out tid stale w ≡ done true (sent tid p s session packet v))
  tun_round-sent tid i j q s circle key stale packet w found free c tun ec there on reads ek
        healthy =
      let v : State out = record w { calls = w.calls + 1 } in
      let (r, v', e, post) = Returns-done (
        choose_consistent out tid s v key circle (packet ++ stale) (length packet) found c ec ek
          on) in
      finish r e post.0 post.1
    where
      finish :
          (r : Option ℕ) {v' : State out}
          → choose out tid
              (some (packet ++ stale, length packet))
              (record w { calls = w.calls + 1 })
            ≡ done r v'
          → Chooses out tid s (record w { calls = w.calls + 1 }) r
          → v' ≡ record w { calls = w.calls + 1 }
          → (k : ℕ) × (p : ℕ) × (session : RatSession) × (lookup k (entries s) ≡ some p)
            × ((w.heap p).session ≡ some session)
            × (tun_round out tid stale w
                ≡ done true (sent tid p s session packet (record w { calls = w.calls + 1 })))
      finish none e empty same = cc (empty j, there)
      finish (some k) e (p, here) same =
          let (session, live, alive, writes) = healthy k p here in
          (
            k,
            p,
            session,
            here,
            live,
            tun_round-eq tid k i s stale packet w _ found tun reads (e ∙ ap (done (some k)) same) (
                dispatch_packet-sent tid k p s session packet _ found free here (c.known k p here).3
                  live alive writes),
          )
