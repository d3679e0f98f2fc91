-- ===== src/Server/Age.antt =====
-- The read loop and the pings of the server: what reaches the tun device, and who is closed.
use ratbond.Server.Ping.{ping_client_one, update_client_bandwidth}
use ratbond.Server.Disconnect.{server_disconnect_by_convid}
use ratbond.Server.Invariant.{IsServed, Drops}
use ratbond.Server.State.{client_entries, update_conn, Served, Client}
use ratbond.Server.Disconnected.{server_disconnect-Drops}
use ratbond.Server.Reader.{server_on_message, server_read_round}
use native.Mathlib.Decide.{dec_lt}
use ratbond.Base.{
  ℕ, ◌+◌, ◌-◌, ◌≤◌, ◌<◌, ◌≡◌, refl, ap, ◌≢◌, ◌⊎◌, inl, inr, true, false, some, List, ◌∷◌, arith,
  ◌==◌, if◌then◌else◌, ==_iff, ==_refl, length, lookup, done, ◌>>◌, pure, Returns, Returns-eq,
  Returns-same,
}
use ratbond.Outside.{Outside, received}
use ratbond.Packet.Wire.{server_sort, is_frame, sort_frames}
use ratbond.Client.State.{u64, tun_writes, read_deadline, RatSession, starts_hello}
use ratbond.Client.Reader.{dead_state}
use ratbond.Client.Ping.{max_hello}

module _ (out : Outside) where
  open out use {kcp_state, kcp_read, tun_write, now}

  module _ (tid convid p kcp i b : ℕ) (rest : List ℕ) (s : Client out) (w : Served out) where
    abbrev message : List ℕ
    message = b ∷ rest

    -- The world once a frame is read, counted and handed to the tun device.
    abbrev pub frame_written : Served out
    frame_written =
        let c = w.conns p in
        record w {
          conns = update_conn w.conns p (record c {
            rxcounter = u64 (c.rxcounter + 1);
            rxbytes = u64 (c.rxbytes + length message);
            last_hello = now (w.process.calls + 1 + 1);
          });
          process = record w.process {
            calls = w.process.calls + 1 + 1 + 1 + 1;
            trace = tun_writes i message ∷ read_deadline kcp 5000 ∷ w.process.trace;
          };
        }

    -- On a session that is not dead, a message whose first byte is not zero goes to the client's tun
    -- device whole and once, and counts as a hello. If the device takes it the goroutine goes on; if not, it ends
    -- with what disconnecting its own convid does.
    pub server_read_round-frame :
        lookup tid w.clients ≡ some s
        → s.iface ≡ some i
        → (kcp_state w.process.calls == dead_state) ≡ false
        → kcp_read (w.process.calls + 1) ≡ received message
        → b ≢ 0
        → server_read_round out tid convid p kcp w ≡ (
            if tun_write (w.process.calls + 1 + 1 + 1)
            then done true frame_written
            else (do server_disconnect_by_convid out tid convid; pure false) frame_written)
    unfolding server_read_round server_on_message
    server_read_round-frame found tun alive reads frame =
        let sorts : server_sort (b ∷ rest) ≡ is_frame (b ∷ rest) = (sort_frames b rest frame).1 in
        ground arith

  module _ (tid k p : ℕ) (s : Client out) (w : Served out) where
    -- A connection of a coherent table whose last hello is more than five seconds old leaves the
    -- table, if the mutex is free: the ping returns, that one connection has left the table, every other one
    -- and every other client is left, the table is coherent and the mutex is free.
    ping_client-stale :
        lookup tid w.clients ≡ some s
        → s.locked ≡ false
        → s.base_convid ≡ tid
        → IsServed out w.conns s
        → lookup k (client_entries s) ≡ some p
        → max_hello < now w.process.calls - (w.conns p).last_hello
        → Returns
            (λ _ w'.
              Drops out tid
                (λ j. j == k)
                s
                (record w { process = record w.process { calls = w.process.calls + 1 } })
                w')
            (ping_client_one out tid k w)
    unfolding ping_client_one
    ping_client-stale found free base c here old =
        let v : Served out = record w {
          process = record w.process { calls = w.process.calls + 1 };
        } in
        let own : (w.conns p).convid ≡ k = (c.known k p here).0 in
        Returns-same {o' = server_disconnect_by_convid out tid k v} (ground arith)
          (server_disconnect-Drops out tid k s v found free c)

    -- A younger connection with a session stays.
    ping_client-fresh :
        (session : RatSession)
        → lookup tid w.clients ≡ some s
        → lookup k (client_entries s) ≡ some p
        → (w.conns p).session ≡ some session
        → now w.process.calls - (w.conns p).last_hello ≤ max_hello
        → ping_client_one out tid k w
          ≡ done tt (record w {
            conns =
                update_conn w.conns p
                  (update_client_bandwidth out (now w.process.calls) (w.conns p));
            process = record w.process {
              calls = w.process.calls + 1;
              trace = starts_hello s.base_convid p ∷ w.process.trace;
            };
          })
    unfolding ping_client_one
    ping_client-fresh session found here live young = ground arith

    -- A connection that was pinged: its byte counts start again, a hello was started on it, and every
    -- client and every other connection is as before.
    pub record ClientPings (w' : Served out) : Type 0 where
      pub clients_kept : w'.clients ≡ w.clients
      pub sent_again : (w'.conns p).txbytes ≡ 0
      pub received_again : (w'.conns p).rxbytes ≡ 0
      pub session_kept : (w'.conns p).session ≡ (w.conns p).session
      pub hello_kept : (w'.conns p).last_hello ≡ (w.conns p).last_hello
      pub rest_kept : (q : ℕ) → q ≢ p → w'.conns q ≡ w.conns q
      pub greeted : w'.process.trace ≡ starts_hello tid p ∷ w.process.trace

    client_pinged :
        s.base_convid ≡ tid
        → ClientPings (record w {
          conns =
              update_conn w.conns p (update_client_bandwidth out (now w.process.calls) (w.conns p));
          process = record w.process {
            calls = w.process.calls + 1;
            trace = starts_hello s.base_convid p ∷ w.process.trace;
          };
        })
    unfolding update_conn update_client_bandwidth
    client_pinged base = record {
      clients_kept = refl;
      sent_again = ground (arith, ==_refl p);
      received_again = ground (arith, ==_refl p);
      session_kept = ground (arith, ==_refl p);
      hello_kept = ground (arith, ==_refl p);
      rest_kept = λ q ne. ground (arith, ==_iff p q);
      greeted = ap (λ b. starts_hello b p ∷ w.process.trace) base;
    }

    -- server_send_client_pings on a connection with a session, of a coherent table whose mutex is
    -- free. If its last hello is more than five seconds old, the ping returns, and exactly this
    -- connection has left the table, every other client is left, the table is coherent and the mutex
    -- is free. If not, the ping returns, every client is as before, a hello was started on the
    -- connection, its byte counts are 0, its session and last hello are kept, and so is every other
    -- connection.
    pub ping_client-by_age :
        (session : RatSession)
        → lookup tid w.clients ≡ some s
        → s.locked ≡ false
        → s.base_convid ≡ tid
        → IsServed out w.conns s
        → lookup k (client_entries s) ≡ some p
        → (w.conns p).session ≡ some session
        → ((max_hello < now w.process.calls - (w.conns p).last_hello)
            × Returns
                (λ _ w'.
                  Drops out tid
                    (λ j. j == k)
                    s
                    (record w { process = record w.process { calls = w.process.calls + 1 } })
                    w')
                (ping_client_one out tid k w))
          ⊎ ((now w.process.calls - (w.conns p).last_hello ≤ max_hello)
              × Returns (λ _ w'. ClientPings w') (ping_client_one out tid k w))
    ping_client-by_age session found free base c here live =
        elim (dec_lt max_hello (now w.process.calls - (w.conns p).last_hello)) [
          | yes old ↦ inl (old, ping_client-stale found free base c here old)
          | no recent ↦
              let young : now w.process.calls - (w.conns p).last_hello ≤ max_hello =
                omega (arith, recent) in
              inr (
                young,
                Returns-eq tt _ (ping_client-fresh session found here live young)
                    (client_pinged base),
              )
        ]
