-- ===== src/Server/Sound/Serving.antt =====
-- The rounds of server_handle_tun and of server_send_client_pings.
use ratbond.Outside.{Outside, Written, written, timed_out, failed}
use ratbond.Client.Ping.{max_hello}
use ratbond.Client.Disconnect.{write_deadline_ms}
use ratbond.Client.State.{
  emit, next_call, session_write, session_state, set_write_deadline, u64, sleeps, RatSession,
  starts_hello,
}
use ratbond.Client.Sound.{none_held, one_held, Safe}
use ratbond.Client.Sound.Steps.{
  session_state-Quietly, set_write_deadline-Quietly, session_write-Quietly,
}
use ratbond.Client.Reader.{dead_state}
use ratbond.Server.Tunnel.{
  server_forward, server_close_dead, server_send_to, server_dispatch, server_tun_round,
}
use ratbond.Server.Ping.{
  update_client_bandwidth, ping_client_one, ping_client_connections, ping_client, ping_clients,
  send_client_pings,
}
use ratbond.Server.Choose.{server_choose}
use ratbond.Server.Disconnect.{server_disconnect_by_convid}
use ratbond.Server.State.{
  client_entries, update_conn, Served, process, load_conn, store_conn, read_client, lock_client,
  unlock_client, range_convids,
}
use ratbond.Server.Sound.{
  IsSteady, Steadily, Steadily-bind, Calmly-Steadily, calm-IsSteady, if-Steadily, option-Steadily,
}
use ratbond.Server.Sound.Steps.{
  stop-Calmly, read_client-Calmly, change-Calmly, changed_conn, Steady, calm, seq,
}
use ratbond.Server.Sound.Locks.{
  unlock-Steadily, lock-Steadily, disconnect-Steadily, range-Calmly, choose-Steadily,
}
use ratbond.Server.Sound.Rounds.{changed-Alike, part, called, traced, value, client_at, conn_at}
use ratbond.Base.{
  ℕ, ◌+◌, ◌-◌, refl, Bool, true, false, Option, none, some, List, [], ◌∷◌, ◌++◌, ltb, ◌==◌,
  if◌then◌else◌, length, lookup, keys, panic, ◌>>=◌, ◌>>◌, pure,
}

module _ (out : Outside) where
  forwarded-Steadily :
      (tid p n : ℕ) (r : Written)
      → Steady out (do
        d ← load_conn out p
        elim r [
          | timed_out ↦ store_conn out p (record d { txtimeouts = u64 (d.txtimeouts + 1) })
          | failed ↦ do
            s ← read_client out tid
            server_disconnect_by_convid out s.base_convid d.convid
          | written ↦
              store_conn out p
                (record d { txcounter = u64 (d.txcounter + 1); txbytes = u64 (d.txbytes + n) })
        ])
  forwarded-Steadily tid p n timed_out = calm out _ (
      change-Calmly out p (λ d. record d { txtimeouts = u64 (d.txtimeouts + 1) })
        (λ c. changed-Alike c _ refl refl))
  forwarded-Steadily tid p n written = calm out _ (
      change-Calmly out p
        (λ d. record d { txcounter = u64 (d.txcounter + 1); txbytes = u64 (d.txbytes + n) })
        (λ c. changed-Alike c _ refl refl))
  forwarded-Steadily tid p n failed = seq out (load_conn out p) _ (conn_at out p) λ d.
      seq out (read_client out tid) _ (client_at out tid)
        λ s. disconnect-Steadily out s.base_convid d.convid

  forward-Steadily : (tid p : ℕ) (packet : List ℕ) → Steady out (server_forward out tid p packet)
  unfolding server_forward
  forward-Steadily tid p packet = seq out (load_conn out p) _ (conn_at out p) λ c.
      seq out (process out (set_write_deadline out c.session write_deadline_ms)) _
        (part out (set_write_deadline out c.session write_deadline_ms)
          (set_write_deadline-Quietly out c.session write_deadline_ms))
        λ _.
          seq out (process out (session_write out c.session packet)) _
            (part out (session_write out c.session packet)
              (session_write-Quietly out c.session packet))
            λ r. forwarded-Steadily tid p (length packet) r

  close_dead-Steadily : (tid p : ℕ) → Steady out (server_close_dead out tid p)
  unfolding server_close_dead
  close_dead-Steadily tid p = seq out (read_client out tid) _ (client_at out tid) λ s.
      seq out (load_conn out p) _ (conn_at out p)
        λ c. disconnect-Steadily out s.base_convid c.convid

  send_to-Steadily : (tid p : ℕ) (packet : List ℕ) → Steady out (server_send_to out tid p packet)
  unfolding server_send_to
  send_to-Steadily tid p packet = seq out (load_conn out p) _ (conn_at out p) λ c.
      option-Steadily out none_held none_held c.session _ _ (traced out (sleeps 10)) λ session.
        seq out (process out (session_state out (some session))) _
          (part out (session_state out (some session)) (session_state-Quietly out (some session)))
          λ kcpstate.
            if-Steadily out none_held none_held (kcpstate == dead_state) _ _
              (close_dead-Steadily tid p) (forward-Steadily tid p packet)

  dispatch-Steadily :
      (tid : ℕ) (chosen : Option ℕ) (packet : List ℕ)
      → Steady out (server_dispatch out tid chosen packet)
  unfolding server_dispatch
  dispatch-Steadily tid none packet = traced out (sleeps 10)
  dispatch-Steadily tid (some k) packet =
      Steadily-bind out none_held (one_held tid) none_held (lock_client out tid) _
        (lock-Steadily out tid)
        λ _.
          Steadily-bind out (one_held tid) (one_held tid) none_held (read_client out tid) _
            (Calmly-Steadily out (one_held tid) _ (read_client-Calmly out tid))
            λ s.
              Steadily-bind out (one_held tid) none_held none_held (unlock_client out tid) _
                (unlock-Steadily out tid)
                λ _.
                  option-Steadily out none_held none_held (lookup k (client_entries s)) _ _
                    (traced out (sleeps 10)) λ p. send_to-Steadily tid p packet

  pub server_tun_round-Steadily :
      (tid : ℕ) (stale : List ℕ) → Steady out (server_tun_round out tid stale)
  unfolding server_tun_round
  server_tun_round-Steadily tid stale = seq out (read_client out tid) _ (client_at out tid) λ s.
      option-Steadily out none_held none_held s.iface _ _ (value out false) λ i.
        seq out (process out (next_call out)) _ (called out) λ n.
          option-Steadily out none_held none_held (out.tun_read n) _ _
            (calm out _ (stop-Calmly out _ panic (λ e. cc e)))
            λ packet.
              seq out (server_choose out tid (some (packet ++ stale, length packet))) _
                (choose-Steadily out tid (some (packet ++ stale, length packet)))
                λ chosen.
                  seq out (server_dispatch out tid chosen packet) _
                    (dispatch-Steadily tid chosen packet) λ _. value out true

  -- A connection whose last hello is recent: a hello may be started, and the rates change.
  kept-Safe :
      (base t p : ℕ) (o : Option RatSession) (w : Served out)
      → IsSteady out none_held w
      → Safe
          (λ _ v. IsSteady out none_held v)
          ((do
            elim o [ none ↦ pure tt | some x ↦ process out (emit out (starts_hello base p)) ]
            store_conn out p (update_client_bandwidth out t (w.conns p)))
            w)
  unfolding update_client_bandwidth
  kept-Safe base t p none w steady =
      let d = update_client_bandwidth out t (w.conns p) in
      let v : Served out = record w { conns = update_conn w.conns p d } in
      calm-IsSteady out none_held w v
        (changed_conn out p d w (changed-Alike (w.conns p) d refl refl)) steady
  kept-Safe base t p (some x) w steady =
      let d = update_client_bandwidth out t (w.conns p) in
      let u : Served out = record w {
        process = record w.process { trace = starts_hello base p ∷ w.process.trace };
      } in
      let v : Served out = record u { conns = update_conn w.conns p d } in
      calm-IsSteady out none_held u v
        (changed_conn out p d u (changed-Alike (w.conns p) d refl refl)) steady

  aged-Safe :
      (late : Bool) (base t p : ℕ) (w : Served out)
      → IsSteady out none_held w
      → Safe
          (λ _ v. IsSteady out none_held v)
          ((if late then server_disconnect_by_convid out base (w.conns p).convid else do
            elim (w.conns p).session [
              | none ↦ pure tt
              | some x ↦ process out (emit out (starts_hello base p))
            ]
            store_conn out p (update_client_bandwidth out t (w.conns p)))
            w)
  unfolding Steadily
  aged-Safe true base t p w steady = disconnect-Steadily out base (w.conns p).convid w steady
  aged-Safe false base t p w steady = kept-Safe base t p (w.conns p).session w steady

  aged-Steadily :
      (base t p : ℕ)
      → Steady out (do
        c ← load_conn out p
        if ltb max_hello (t - c.last_hello)
            then server_disconnect_by_convid out base c.convid
            else do
              elim c.session [
                | none ↦ pure tt
                | some x ↦ process out (emit out (starts_hello base p))
              ]
              store_conn out p (update_client_bandwidth out t c))
  unfolding Steadily
  aged-Steadily base t p w steady =
      aged-Safe (ltb max_hello (t - (w.conns p).last_hello)) base t p w steady

  ping_client_one-Steadily : (tid k : ℕ) → Steady out (ping_client_one out tid k)
  unfolding ping_client_one
  ping_client_one-Steadily tid k = seq out (read_client out tid) _ (client_at out tid) λ s.
      option-Steadily out none_held none_held (lookup k (client_entries s)) _ _ (value out tt) λ p.
        seq out (process out (next_call out)) _ (called out)
          λ n. aged-Steadily s.base_convid (out.now n) p

  ping_connections-Steadily :
      (tid : ℕ) (ks : List ℕ) → Steady out (ping_client_connections out tid ks)
  unfolding ping_client_connections
  ping_connections-Steadily tid [] = value out tt
  ping_connections-Steadily tid (k ∷ ks) =
      seq out (ping_client_one out tid k) _ (ping_client_one-Steadily tid k)
        λ _. ping_connections-Steadily tid ks

  ping_clients-Steadily : (tids : List ℕ) → Steady out (ping_clients out tids)
  unfolding ping_clients ping_client
  ping_clients-Steadily [] = value out tt
  ping_clients-Steadily (tid ∷ tids) =
      seq out (ping_client out tid) _
        (seq out (range_convids out tid) _ (calm out _ (range-Calmly out tid))
          λ ks. ping_connections-Steadily tid ks)
        λ _. ping_clients-Steadily tids

  pub send_client_pings-Steadily : Steady out (send_client_pings out)
  unfolding send_client_pings Steadily
  send_client_pings-Steadily w steady =
      let v : Served out = record w {
        process = record w.process { calls = w.process.calls + 1 };
      } in
      ping_clients-Steadily (out.range w.process.calls (keys w.clients)) v steady
