-- ===== src/Server/Reader.antt =====
-- main.go: server_accept_conn, one round of its read loop, and server_send_hello.
use ratbond.Server.Disconnect.{server_disconnect_by_convid}
use ratbond.Server.State.{Served, process, load_conn, store_conn, read_client}
use ratbond.Base.{
  ℕ, ◌+◌, Bool, true, false, none, some, List, ◌==◌, if◌then◌else◌, length, M, ◌>>=◌, ◌>>◌, pure,
}
use ratbond.Outside.{Outside, received, read_timed_out, read_failed, written, timed_out, failed}
use ratbond.Packet.Wire.{is_hello, is_linkdown, is_frame, server_sort, hello}
use ratbond.Client.State.{
  tun_writes, read_deadline, emit, next_call, u32, u64, session_write, session_state,
  set_write_deadline,
}
use ratbond.Client.Reader.{dead_state}

module _ (out : Outside) where
  open out use {now, kcp_state, kcp_read, tun_write}

  -- server_disconnect_session_by_convid, and the goroutine returns: `false`.
  unfoldable pub drop_session : ℕ → ℕ → M (Served out) Bool
  unfolding server_disconnect_by_convid
  drop_session tid convid = do server_disconnect_by_convid out tid convid; pure false

  -- client.iface.Write(message[:n]), unless there is no interface; an error ends the connection.
  unfoldable pub server_write_tun : ℕ → ℕ → List ℕ → M (Served out) Bool
  unfolding drop_session
  server_write_tun tid convid frame = do
    s ← read_client out tid
    elim s.iface [
      | none ↦ pure true
      | some i ↦ do
        process out (emit out (tun_writes i frame))
        n ← process out (next_call out)
        if tun_write n then pure true else drop_session tid convid
    ]

  unfoldable pub server_on_message : ℕ → ℕ → ℕ → List ℕ → M (Served out) Bool
  unfolding server_write_tun server_sort server_disconnect_by_convid
  server_on_message tid convid p message = do
    n ← process out (next_call out)
    c ← load_conn out p
    store_conn out p (record c {
      rxcounter = u64 (c.rxcounter + 1);
      rxbytes = u64 (c.rxbytes + length message);
      last_hello = now n;
    })
    elim (server_sort message) [
      | is_hello ↦ do
        m ← process out (next_call out)
        d ← load_conn out p
        store_conn out p (record d { last_hello = now m })
        pure true
      | is_linkdown k ↦ do server_disconnect_by_convid out tid (u32 k); pure true
      | is_frame frame ↦ server_write_tun tid convid frame
    ]

  -- One round on the session `kcp` of the connection `p`. Says whether the goroutine goes on.
  unfoldable pub server_read_round : ℕ → ℕ → ℕ → ℕ → M (Served out) Bool
  unfolding drop_session server_on_message
  server_read_round tid convid p kcp = do
    n ← process out (next_call out)
    s ← read_client out tid
    if kcp_state n == dead_state then drop_session s.base_convid convid else do
      process out (emit out (read_deadline kcp 5000))
      m ← process out (next_call out)
      elim (kcp_read m) [
        | read_failed ↦ drop_session tid convid
        | received message ↦ server_on_message tid convid p message
        | read_timed_out ↦ do
          c ← load_conn out p
          store_conn out p (record c { rxtimeouts = u64 (c.rxtimeouts + 1) })
          pure true
      ]

  unfoldable pub server_send_hello : ℕ → M (Served out) (Unit {0})
  unfolding session_write set_write_deadline session_state
  server_send_hello p = do
    c ← load_conn out p
    process out (set_write_deadline out c.session 3000)
    result ← process out (session_write out c.session hello)
    elim result [
      | written ↦ pure tt
      | failed ↦ pure tt
      | timed_out ↦ do
        kcpstate ← process out (session_state out c.session)
        d ← load_conn out p
        store_conn out p (record d { txtimeouts = u64 (d.txtimeouts + 1) })
    ]
