-- ===== src/Server/Sound/Rounds.antt =====
-- The rounds of the server's goroutines.
use ratbond.Outside.{
  Outside, Written, written, timed_out, failed, Received, received, read_timed_out, read_failed,
}
use ratbond.Packet.Wire.{hello, server_sort, Incoming, is_hello, is_linkdown, is_frame}
use ratbond.Client.Sound.{none_held, Quietly}
use ratbond.Client.Sound.Steps.{
  next_call-Quietly, traced-Quietly, session_state-Quietly, set_write_deadline-Quietly,
  session_write-Quietly,
}
use ratbond.Client.State.{
  State, Effect, RatSession, next_call, emit, session_state, session_write, set_write_deadline, u32,
  u64, tun_writes, read_deadline,
}
use ratbond.Client.Reader.{dead_state}
use ratbond.Server.Disconnect.{server_disconnect_by_convid}
use ratbond.Server.State.{ClientConnection, process, load_conn, store_conn, read_client}
use ratbond.Server.Sound.{Alike, if-Steadily, option-Steadily}
use ratbond.Server.Reader.{
  drop_session, server_write_tun, server_on_message, server_read_round, server_send_hello,
}
use ratbond.Server.Sound.Locks.{disconnect-Steadily}
use ratbond.Server.Sound.Steps.{
  pure-Calmly, process-Calmly, load-Calmly, read_client-Calmly, change-Calmly, Steady, calm, seq,
  change_then,
}
use ratbond.Base.{ℕ, ◌+◌, ◌≡◌, refl, true, false, Option, List, ◌==◌, length, M, ◌>>=◌, ◌>>◌, pure}

pub changed-Alike : (c d : ClientConnection) → d.convid ≡ c.convid → d.alive ≡ c.alive → Alike c d
changed-Alike c d a b = record { convid_kept = a; alive_kept = b }

module _ (out : Outside) where
  -- A part of the process that is quiet.
  pub part : {A : Type 0} (m : M (State out) A) → Quietly out m → Steady out (process out m)
  part m q = calm out (process out m) (process-Calmly out m q)

  pub called : Steady out (process out (next_call out))
  called = part (next_call out) (next_call-Quietly out)

  pub traced : (e : Effect) → Steady out (process out (emit out e))
  traced e = part (emit out e) (traced-Quietly out e)

  pub value : {A : Type 0} (a : A) → Steady out (pure a)
  value a = calm out (pure a) (pure-Calmly out a)

  pub client_at : (tid : ℕ) → Steady out (read_client out tid)
  client_at tid = calm out (read_client out tid) (read_client-Calmly out tid)

  pub conn_at : (p : ℕ) → Steady out (load_conn out p)
  conn_at p = calm out (load_conn out p) (load-Calmly out p)

  drop-Steadily : (tid k : ℕ) → Steady out (drop_session out tid k)
  unfolding drop_session
  drop-Steadily tid k =
      seq out (server_disconnect_by_convid out tid k) _ (disconnect-Steadily out tid k)
        λ _. value false

  write_tun-Steadily : (tid k : ℕ) (frame : List ℕ) → Steady out (server_write_tun out tid k frame)
  unfolding server_write_tun
  write_tun-Steadily tid k frame = seq out (read_client out tid) _ (client_at tid) λ s.
      option-Steadily out none_held none_held s.iface _ _ (value true) λ i.
        seq out (process out (emit out (tun_writes i frame))) _ (traced (tun_writes i frame)) λ _.
          seq out (process out (next_call out)) _ called λ n.
            if-Steadily out none_held none_held (out.tun_write n) _ _ (value true)
              (drop-Steadily tid k)

  sorted-Steadily :
      (tid k p : ℕ) (x : Incoming)
      → Steady out (elim x [
        | is_hello ↦ do
          m ← process out (next_call out)
          d ← load_conn out p
          store_conn out p (record d { last_hello = out.now m })
          pure true
        | is_linkdown j ↦ do server_disconnect_by_convid out tid (u32 j); pure true
        | is_frame frame ↦ server_write_tun out tid k frame
      ])
  sorted-Steadily tid k p is_hello = seq out (process out (next_call out)) _ called λ m.
      change_then out p (λ d. record d { last_hello = out.now m }) _
        (λ c. changed-Alike c _ refl refl) λ _. value true
  sorted-Steadily tid k p (is_linkdown j) =
      seq out (server_disconnect_by_convid out tid (u32 j)) _ (disconnect-Steadily out tid (u32 j))
        λ _. value true
  sorted-Steadily tid k p (is_frame frame) = write_tun-Steadily tid k frame

  on_message-Steadily :
      (tid k p : ℕ) (message : List ℕ) → Steady out (server_on_message out tid k p message)
  unfolding server_on_message
  on_message-Steadily tid k p message = seq out (process out (next_call out)) _ called λ n.
      change_then out p
        (λ c. record c {
          rxcounter = u64 (c.rxcounter + 1);
          rxbytes = u64 (c.rxbytes + length message);
          last_hello = out.now n;
        })
        _ (λ c. changed-Alike c _ refl refl) λ _. sorted-Steadily tid k p (server_sort message)

  read-Steadily :
      (tid k p : ℕ) (r : Received)
      → Steady out (elim r [
        | read_failed ↦ drop_session out tid k
        | received message ↦ server_on_message out tid k p message
        | read_timed_out ↦ do
          c ← load_conn out p
          store_conn out p (record c { rxtimeouts = u64 (c.rxtimeouts + 1) })
          pure true
      ])
  read-Steadily tid k p read_failed = drop-Steadily tid k
  read-Steadily tid k p (received message) = on_message-Steadily tid k p message
  read-Steadily tid k p read_timed_out =
      change_then out p (λ c. record c { rxtimeouts = u64 (c.rxtimeouts + 1) }) _
        (λ c. changed-Alike c _ refl refl) λ _. value true

  pub server_read_round-Steadily :
      (tid k p kcp : ℕ) → Steady out (server_read_round out tid k p kcp)
  unfolding server_read_round
  server_read_round-Steadily tid k p kcp = seq out (process out (next_call out)) _ called λ n.
      seq out (read_client out tid) _ (client_at tid) λ s.
        if-Steadily out none_held none_held (out.kcp_state n == dead_state) _ _
          (drop-Steadily s.base_convid k)
          (seq out (process out (emit out (read_deadline kcp 5000))) _
            (traced (read_deadline kcp 5000))
            λ _.
              seq out (process out (next_call out)) _ called
                λ m. read-Steadily tid k p (out.kcp_read m))

  hello-Steadily :
      (p : ℕ) (session : Option RatSession) (r : Written)
      → Steady out (elim r [
        | written ↦ pure tt
        | failed ↦ pure tt
        | timed_out ↦ do
          kcpstate ← process out (session_state out session)
          d ← load_conn out p
          store_conn out p (record d { txtimeouts = u64 (d.txtimeouts + 1) })
      ])
  hello-Steadily p session written = value tt
  hello-Steadily p session failed = value tt
  hello-Steadily p session timed_out =
      seq out (process out (session_state out session)) _
        (part (session_state out session) (session_state-Quietly out session))
        λ _. calm out _ (
          change-Calmly out p (λ d. record d { txtimeouts = u64 (d.txtimeouts + 1) })
            (λ c. changed-Alike c _ refl refl))

  pub server_send_hello-Steadily : (p : ℕ) → Steady out (server_send_hello out p)
  unfolding server_send_hello
  server_send_hello-Steadily p = seq out (load_conn out p) _ (conn_at p) λ c.
      seq out (process out (set_write_deadline out c.session 3000)) _
        (part (set_write_deadline out c.session 3000)
          (set_write_deadline-Quietly out c.session 3000))
        λ _.
          seq out (process out (session_write out c.session hello)) _
            (part (session_write out c.session hello) (session_write-Quietly out c.session hello))
            λ r. hello-Steadily p c.session r
