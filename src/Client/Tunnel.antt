-- ===== src/Client/Tunnel.antt =====
-- main.go: client_handle_tun, one round of its loop.
use ratbond.Base.{
  ℕ, ◌+◌, Bool, true, false, Option, none, some, List, ◌++◌, ◌==◌, if◌then◌else◌, length, lookup, M,
  ◌>>=◌, ◌>>◌, pure,
}
use ratbond.Outside.{Outside, written, timed_out, failed}
use ratbond.Client.State.{
  sleeps, entries, u64, State, load, store, read_server, emit, next_call, lock, unlock,
  session_write, session_state, set_write_deadline,
}
use ratbond.Client.Choose.{choose}
use ratbond.Client.Disconnect.{disconnect_by_convid, write_deadline_ms}
use ratbond.Client.Reader.{dead_state}

module _ (out : Outside) where
  open out use {tun_read}

  -- connection.session.Write(packet[:n]) and the counters; a timeout drops the packet, any other
  -- error closes the connection.
  unfoldable pub forward : ℕ → ℕ → List ℕ → M (State out) (Unit {0})
  unfolding session_write set_write_deadline disconnect_by_convid
  forward tid p packet = do
    c ← load out p
    set_write_deadline out c.session write_deadline_ms
    result ← session_write out c.session packet
    d ← load out p
    elim result [
      | timed_out ↦ store out p (record d { txtimeouts = u64 (d.txtimeouts + 1) })
      | failed ↦ do s ← read_server out tid; disconnect_by_convid out s.base_convid d.convid
      | written ↦ store out p (record d {
        txcounter = u64 (d.txcounter + 1);
        txbytes = u64 (d.txbytes + length packet);
      })
    ]

  -- client_disconnect_session_by_convid for a connection whose link is dead
  unfoldable pub close_dead : ℕ → ℕ → M (State out) (Unit {0})
  unfolding disconnect_by_convid
  close_dead tid p = do
    s ← read_server out tid
    c ← load out p
    disconnect_by_convid out s.base_convid c.convid

  -- The packet goes to the chosen connection, unless its link is dead.
  unfoldable pub send_to : ℕ → ℕ → List ℕ → M (State out) (Unit {0})
  unfolding forward session_state close_dead
  send_to tid p packet = do
    c ← load out p
    elim c.session [
      | none ↦ emit out (sleeps 100)
      | some session ↦ do
        kcpstate ← session_state out (some session)
        if kcpstate == dead_state then close_dead tid p else forward tid p packet
    ]

  unfoldable pub dispatch_packet : ℕ → Option ℕ → List ℕ → M (State out) (Unit {0})
  unfolding send_to lock unlock
  dispatch_packet tid none packet = emit out (sleeps 1000)
  dispatch_packet tid (some k) packet = if k == 0 then emit out (sleeps 1000) else do
    lock out tid
    s ← read_server out tid
    unlock out tid
    elim (lookup k (entries s)) [ none ↦ pure tt | some p ↦ send_to tid p packet ]

  -- One round. The buffer still holds the end of earlier, longer packets behind the `n` bytes read;
  -- the flow key is read from the whole of it. Says whether the goroutine goes on.
  unfoldable pub tun_round : ℕ → List ℕ → M (State out) Bool
  tun_round tid stale = do
    s ← read_server out tid
    elim s.iface [
      | none ↦ pure false
      | some i ↦ do
        n ← next_call out
        elim (tun_read n) [
          | none ↦ pure false
          | some packet ↦ do
            chosen ← choose out tid (some (packet ++ stale, length packet))
            dispatch_packet tid chosen packet
            pure true
        ]
    ]
