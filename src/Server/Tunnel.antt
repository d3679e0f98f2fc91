-- ===== src/Server/Tunnel.antt =====
-- main.go: server_handle_tun, one round of its loop.
use ratbond.Server.Choose.{server_choose}
use ratbond.Server.Disconnect.{server_disconnect_by_convid}
use ratbond.Server.State.{
  client_entries, Served, process, load_conn, store_conn, read_client, lock_client, unlock_client,
}
use ratbond.Base.{
  ℕ, ◌+◌, Bool, true, false, Option, none, some, List, ◌++◌, ◌==◌, if◌then◌else◌, length, lookup,
  panic, M, ◌>>=◌, ◌>>◌, pure, stop,
}
use ratbond.Outside.{Outside, written, timed_out, failed}
use ratbond.Client.State.{
  sleeps, u64, emit, next_call, session_write, session_state, set_write_deadline,
}
use ratbond.Client.Disconnect.{write_deadline_ms}
use ratbond.Client.Reader.{dead_state}

module _ (out : Outside) where
  open out use {tun_read}

  -- The write and the counters; a timeout drops the packet, any other error closes the connection.
  unfoldable pub server_forward : ℕ → ℕ → List ℕ → M (Served out) (Unit {0})
  unfolding session_write set_write_deadline server_disconnect_by_convid
  server_forward tid p packet = do
    c ← load_conn out p
    process out (set_write_deadline out c.session write_deadline_ms)
    result ← process out (session_write out c.session packet)
    d ← load_conn out p
    elim result [
      | timed_out ↦ store_conn out p (record d { txtimeouts = u64 (d.txtimeouts + 1) })
      | failed ↦ do s ← read_client out tid; server_disconnect_by_convid out s.base_convid d.convid
      | written ↦ store_conn out p (record d {
        txcounter = u64 (d.txcounter + 1);
        txbytes = u64 (d.txbytes + length packet);
      })
    ]

  unfoldable pub server_close_dead : ℕ → ℕ → M (Served out) (Unit {0})
  unfolding server_disconnect_by_convid
  server_close_dead tid p = do
    s ← read_client out tid
    c ← load_conn out p
    server_disconnect_by_convid out s.base_convid c.convid

  unfoldable pub server_send_to : ℕ → ℕ → List ℕ → M (Served out) (Unit {0})
  unfolding server_forward session_state server_close_dead
  server_send_to tid p packet = do
    c ← load_conn out p
    elim c.session [
      | none ↦ process out (emit out (sleeps 10))
      | some session ↦ do
        kcpstate ← process out (session_state out (some session))
        if kcpstate == dead_state then server_close_dead tid p else server_forward tid p packet
    ]

  unfoldable pub server_dispatch : ℕ → Option ℕ → List ℕ → M (Served out) (Unit {0})
  unfolding server_send_to lock_client unlock_client
  server_dispatch tid none packet = process out (emit out (sleeps 10))
  server_dispatch tid (some k) packet = do
    lock_client out tid
    s ← read_client out tid
    unlock_client out tid
    elim (lookup k (client_entries s)) [
      | none ↦ process out (emit out (sleeps 10))
      | some p ↦ server_send_to tid p packet
    ]

  -- One round, as on the client; but a read error of the tun device is l.Panicf.
  unfoldable pub server_tun_round : ℕ → List ℕ → M (Served out) Bool
  server_tun_round tid stale = do
    s ← read_client out tid
    elim s.iface [
      | none ↦ pure false
      | some i ↦ do
        n ← process out (next_call out)
        elim (tun_read n) [
          | none ↦ stop panic
          | some packet ↦ do
            chosen ← server_choose out tid (some (packet ++ stale, length packet))
            server_dispatch tid chosen packet
            pure true
        ]
    ]
