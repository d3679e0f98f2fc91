-- ===== src/Client/Receive.antt =====
-- client_handle_kcp: what a round does with a message, and what closes a silent connection.
use ratbond.Base.{ℕ, ◌+◌, ◌≡◌, ◌≢◌, false, some, List, ◌∷◌, arith, ◌==◌, length, lookup, done}
use ratbond.Outside.{Outside, received}
use ratbond.Packet.Wire.{client_sort, is_frame, hello, sort_frames}
use ratbond.Client.State.{
  ServerConnection, RatSession, tun_writes, read_deadline, update, u64, State, Server,
}
use ratbond.Client.Reader.{read_round, goes_on, dead_state}

module _ (out : Outside) (tid p t i : ℕ) (s : Server out) (session : RatSession)
    (w : State out) where
  open out use {kcp_state, kcp_read, now}

  -- The connection after a message of `n` bytes, received at time `at`.
  abbrev pub counted : ℕ → ℕ → ServerConnection
  counted n at =
      let c = w.heap p in
      record c { rxcounter = u64 (c.rxcounter + 1); rxbytes = u64 (c.rxbytes + n); last_hello = at }

  -- With a session that is not dead and a tun device, a message whose first byte is not zero goes to the tun device, whole and once; it counts as a hello, and the
  -- round's count of timeouts starts again.
  pub read_round-frame :
      (b : ℕ) (rest : List ℕ)
      → let message = b ∷ rest in
        (w.heap p).session ≡ some session
        → lookup tid w.servers ≡ some s
        → s.iface ≡ some i
        → (kcp_state w.calls == dead_state) ≡ false
        → kcp_read (w.calls + 1) ≡ received message
        → b ≢ 0
        → read_round out tid p t w
          ≡ done (goes_on 0) (record w {
            heap = update w.heap p (counted (length message) (now (w.calls + 1 + 1)));
            calls = w.calls + 1 + 1 + 1 + 1;
            trace = tun_writes i message ∷ read_deadline session.kcp 5000 ∷ w.trace;
          })
  unfolding read_round
  read_round-frame b rest live found tun alive reads frame =
      let sorts : client_sort (b ∷ rest) ≡ is_frame (b ∷ rest) = (sort_frames b rest frame).0 in
      ground arith

  -- With a session that is not dead, the HELLO message never reaches the tun device; it too is counted and renews the hello.
  pub read_round-hello :
      (w.heap p).session ≡ some session
      → (kcp_state w.calls == dead_state) ≡ false
      → kcp_read (w.calls + 1) ≡ received hello
      → read_round out tid p t w
        ≡ done (goes_on 0) (record w {
          heap =
              update
                (update w.heap p (counted 40 (now (w.calls + 1 + 1))))
                p
                (counted 40 (now (w.calls + 1 + 1 + 1)));
          calls = w.calls + 1 + 1 + 1 + 1;
          trace = read_deadline session.kcp 5000 ∷ w.trace;
        })
  unfolding read_round hello update
  read_round-hello live alive reads = ground arith
