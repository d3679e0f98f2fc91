-- ===== src/Client/Reader.antt =====
-- main.go: client_handle_kcp, one round of its inner loop, and client_send_hello.
use ratbond.Base.{
  ℕ, ◌+◌, ◌||◌, none, some, List, ltb, ◌==◌, if◌then◌else◌, length, M, ◌>>=◌, ◌>>◌, pure,
}
use ratbond.Outside.{Outside, written, timed_out, failed, received, read_timed_out, read_failed}
use ratbond.Packet.Wire.{hello, client_sort, is_hello, is_linkdown, is_frame}
use ratbond.Client.State.{
  tun_writes, u64, State, load, store, read_server, emit, next_call, session_write, session_read,
  session_state, set_read_deadline, set_write_deadline,
}
use ratbond.Client.Disconnect.{disconnect_by_convid}

-- const g_client_max_rxtimeouts, and the state that kcp-go gives a dead link
abbrev pub max_rxtimeouts : ℕ
max_rxtimeouts = 20

abbrev pub dead_state : ℕ
dead_state = 0xFFFFFFFF

-- How a round ends: the goroutine returns, or it goes on with its own count of timeouts.
pub data Round : Type 0 where
  returned : Round
  goes_on : ℕ → Round

module _ (out : Outside) where
  open out use {now, tun_write}

  -- client_disconnect_session_by_convid, and the goroutine returns.
  unfoldable pub give_up : ℕ → ℕ → M (State out) Round
  unfolding disconnect_by_convid
  give_up tid p = do
    s ← read_server out tid
    c ← load out p
    disconnect_by_convid out s.base_convid c.convid
    pure returned

  -- server.iface.Write(message[:n]), unless there is no interface; its error is only logged.
  unfoldable pub write_tun : ℕ → List ℕ → M (State out) (Unit {0})
  write_tun tid frame = do
    s ← read_server out tid
    elim s.iface [
      | none ↦ pure tt
      | some i ↦ do emit out (tun_writes i frame); n ← next_call out; pure tt
    ]

  unfoldable pub on_timeout : ℕ → ℕ → ℕ → M (State out) Round
  on_timeout tid p rxtimeouts = do
    c ← load out p
    store out p (record c { rxtimeouts = u64 (c.rxtimeouts + 1) })
    if ltb max_rxtimeouts (u64 (c.rxtimeouts + 1)) || ltb max_rxtimeouts (rxtimeouts + 1)
        then give_up tid p
        else pure (goes_on (rxtimeouts + 1))

  unfoldable pub on_message : ℕ → ℕ → List ℕ → M (State out) Round
  unfolding write_tun client_sort
  on_message tid p message = do
    n ← next_call out
    c ← load out p
    store out p (record c {
      rxcounter = u64 (c.rxcounter + 1);
      rxbytes = u64 (c.rxbytes + length message);
      last_hello = now n;
    })
    elim (client_sort message) [
      | is_hello ↦ do
        m ← next_call out
        d ← load out p
        store out p (record d { last_hello = now m })
        pure (goes_on 0)
      | is_linkdown k ↦ pure (goes_on 0)
      | is_frame frame ↦ do write_tun tid frame; pure (goes_on 0)
    ]

  -- One round: the checks of the session and its state, the read, and what comes of it.
  unfoldable pub read_round : ℕ → ℕ → ℕ → M (State out) Round
  unfolding give_up on_timeout on_message session_state session_read set_read_deadline
  read_round tid p rxtimeouts = do
    c ← load out p
    elim c.session [
      | none ↦ pure returned
      | some session ↦ do
        kcpstate ← session_state out (some session)
        if kcpstate == dead_state then give_up tid p else do
          set_read_deadline out (some session) 5000
          result ← session_read out (some session)
          elim result [
            | read_timed_out ↦ on_timeout tid p rxtimeouts
            | read_failed ↦ give_up tid p
            | received message ↦ on_message tid p message
          ]
    ]

  -- client_send_hello; the goroutine is started with the convid of the server.
  unfoldable pub send_hello : ℕ → ℕ → M (State out) (Unit {0})
  unfolding session_write set_write_deadline session_state disconnect_by_convid
  send_hello base_convid p = do
    c ← load out p
    set_write_deadline out c.session 6000
    result ← session_write out c.session hello
    elim result [
      | written ↦ pure tt
      | failed ↦ pure tt
      | timed_out ↦ do
        kcpstate ← session_state out c.session
        d ← load out p
        store out p (record d { txtimeouts = u64 (d.txtimeouts + 1) })
        disconnect_by_convid out base_convid d.convid
    ]
