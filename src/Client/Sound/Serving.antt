-- ===== src/Client/Sound/Serving.antt =====
-- The rounds of client_handle_tun and of client_send_server_pings.
use ratbond.Outside.{Outside, Written, written, timed_out, failed}
use ratbond.Client.Ping.{
  update_bandwidth, max_hello, ping_one, ping_connections, ping_server, ping_servers,
  send_server_pings,
}
use ratbond.Client.Choose.{choose}
use ratbond.Client.Disconnect.{write_deadline_ms, disconnect_by_convid}
use ratbond.Client.Tunnel.{forward, send_to, dispatch_packet, tun_round, close_dead}
use ratbond.Client.State.{
  entries, load, store, read_server, emit, next_call, lock, unlock, session_write, session_state,
  set_write_deadline, u64, sleeps, RatSession, starts_hello, update, State, range_keys,
}
use ratbond.Client.Sound.{
  none_held, one_held, Quietly, Soundly-bind, Quietly-Soundly, if-Soundly, option-Soundly, Safe,
  IsSound, Soundly, Quietly-bind, quiet-IsSound,
}
use ratbond.Client.Reader.{dead_state}
use ratbond.Client.Sound.Locks.{unlock-Soundly, lock-Soundly}
use ratbond.Client.Sound.Rounds.{changed-Same, Steady, quiet, seq, load-Quietly}
use ratbond.Client.Sound.Losing.{disconnect_by_convid-Soundly, choose-Soundly}
use ratbond.Client.Sound.Steps.{
  pure-Quietly, traced-Quietly, next_call-Quietly, read_server-Quietly, change-Quietly,
  session_state-Quietly, set_write_deadline-Quietly, session_write-Quietly,
}
use ratbond.Client.Quiet.{update-Same}
use ratbond.Client.Invariant.{Same-refl}
use ratbond.Base.{
  ℕ, ◌+◌, ◌-◌, refl, Bool, true, false, Option, none, some, List, [], ◌∷◌, ◌++◌, ltb, ◌==◌,
  if◌then◌else◌, length, lookup, keys, ◌>>=◌, ◌>>◌, pure,
}

module _ (out : Outside) where
  forwarded-Soundly :
      (tid p n : ℕ) (r : Written)
      → Steady out (do
        d ← load out p
        elim r [
          | timed_out ↦ store out p (record d { txtimeouts = u64 (d.txtimeouts + 1) })
          | failed ↦ do s ← read_server out tid; disconnect_by_convid out s.base_convid d.convid
          | written ↦
              store out p
                (record d { txcounter = u64 (d.txcounter + 1); txbytes = u64 (d.txbytes + n) })
        ])
  forwarded-Soundly tid p n timed_out = quiet out _ (
      change-Quietly out p (λ d. record d { txtimeouts = u64 (d.txtimeouts + 1) })
        (λ c. changed-Same c _ refl refl refl refl))
  forwarded-Soundly tid p n written = quiet out _ (
      change-Quietly out p
        (λ d. record d { txcounter = u64 (d.txcounter + 1); txbytes = u64 (d.txbytes + n) })
        (λ c. changed-Same c _ refl refl refl refl))
  forwarded-Soundly tid p n failed = seq out (load out p) _ (quiet out _ (load-Quietly out p)) λ d.
      seq out (read_server out tid) _ (quiet out _ (read_server-Quietly out tid))
        λ s. disconnect_by_convid-Soundly out s.base_convid d.convid

  forward-Soundly : (tid p : ℕ) (packet : List ℕ) → Steady out (forward out tid p packet)
  unfolding forward
  forward-Soundly tid p packet = seq out (load out p) _ (quiet out _ (load-Quietly out p)) λ c.
      seq out (set_write_deadline out c.session write_deadline_ms) _
        (quiet out _ (set_write_deadline-Quietly out c.session write_deadline_ms))
        λ _.
          seq out (session_write out c.session packet) _
            (quiet out _ (session_write-Quietly out c.session packet))
            λ r. forwarded-Soundly tid p (length packet) r

  close_dead-Soundly : (tid p : ℕ) → Steady out (close_dead out tid p)
  unfolding close_dead
  close_dead-Soundly tid p =
      seq out (read_server out tid) _ (quiet out _ (read_server-Quietly out tid)) λ s.
        seq out (load out p) _ (quiet out _ (load-Quietly out p))
          λ c. disconnect_by_convid-Soundly out s.base_convid c.convid

  send_to-Soundly : (tid p : ℕ) (packet : List ℕ) → Steady out (send_to out tid p packet)
  unfolding send_to
  send_to-Soundly tid p packet = seq out (load out p) _ (quiet out _ (load-Quietly out p)) λ c.
      option-Soundly out none_held none_held c.session _ _
        (quiet out _ (traced-Quietly out (sleeps 100)))
        λ session.
          seq out (session_state out (some session)) _
            (quiet out _ (session_state-Quietly out (some session)))
            λ kcpstate.
              if-Soundly out none_held none_held (kcpstate == dead_state) _ _
                (close_dead-Soundly tid p) (forward-Soundly tid p packet)

  dispatch_packet-Soundly :
      (tid : ℕ) (chosen : Option ℕ) (packet : List ℕ)
      → Steady out (dispatch_packet out tid chosen packet)
  unfolding dispatch_packet
  dispatch_packet-Soundly tid none packet = quiet out _ (traced-Quietly out (sleeps 1000))
  dispatch_packet-Soundly tid (some k) packet =
      if-Soundly out none_held none_held (k == 0) _ _
        (quiet out _ (traced-Quietly out (sleeps 1000)))
        (Soundly-bind out none_held (one_held tid) none_held (lock out tid) _ (lock-Soundly out tid)
          λ _.
            Soundly-bind out (one_held tid) (one_held tid) none_held (read_server out tid) _
              (Quietly-Soundly out (one_held tid) _ (read_server-Quietly out tid))
              λ s.
                Soundly-bind out (one_held tid) none_held none_held (unlock out tid) _
                  (unlock-Soundly out tid)
                  λ _.
                    option-Soundly out none_held none_held (lookup k (entries s)) _ _
                      (quiet out _ (pure-Quietly out tt)) λ p. send_to-Soundly tid p packet)

  pub tun_round-Soundly : (tid : ℕ) (stale : List ℕ) → Steady out (tun_round out tid stale)
  unfolding tun_round
  tun_round-Soundly tid stale =
      seq out (read_server out tid) _ (quiet out _ (read_server-Quietly out tid)) λ s.
        option-Soundly out none_held none_held s.iface _ _ (quiet out _ (pure-Quietly out false))
          λ i. seq out (next_call out) _ (quiet out _ (next_call-Quietly out)) λ n.
            option-Soundly out none_held none_held (out.tun_read n) _ _
              (quiet out _ (pure-Quietly out false))
              λ packet.
                seq out (choose out tid (some (packet ++ stale, length packet))) _
                  (choose-Soundly out tid (some (packet ++ stale, length packet)))
                  λ chosen.
                    seq out (dispatch_packet out tid chosen packet) _
                      (dispatch_packet-Soundly tid chosen packet)
                      λ _. quiet out _ (pure-Quietly out true)

  -- A connection whose last hello is recent: a hello may be started, and the rates change.
  kept-Safe :
      (base t p : ℕ) (o : Option RatSession) (w : State out)
      → IsSound out none_held w
      → Safe
          (λ _ v. IsSound out none_held v)
          ((do
            elim o [ none ↦ pure tt | some x ↦ emit out (starts_hello base p) ]
            store out p (update_bandwidth out t (w.heap p)))
            w)
  unfolding update_bandwidth
  kept-Safe base t p none w sound =
      let d = update_bandwidth out t (w.heap p) in
      let v : State out = record w { heap = update w.heap p d } in
      quiet-IsSound out none_held w v
        (record {
          servers_kept = refl;
          heap_same = update-Same w.heap p d (changed-Same (w.heap p) d refl refl refl refl);
          fresh_kept = refl;
        })
        sound
  kept-Safe base t p (some x) w sound =
      let d = update_bandwidth out t (w.heap p) in
      let v : State out = record w {
        heap = update w.heap p d;
        trace = starts_hello base p ∷ w.trace;
      } in
      quiet-IsSound out none_held w v
        (record {
          servers_kept = refl;
          heap_same = update-Same w.heap p d (changed-Same (w.heap p) d refl refl refl refl);
          fresh_kept = refl;
        })
        sound

  aged-Safe :
      (late : Bool) (base t p : ℕ) (w : State out)
      → IsSound out none_held w
      → Safe
          (λ _ v. IsSound out none_held v)
          ((if late then disconnect_by_convid out base (w.heap p).convid else do
            elim (w.heap p).session [ none ↦ pure tt | some x ↦ emit out (starts_hello base p) ]
            store out p (update_bandwidth out t (w.heap p)))
            w)
  unfolding Soundly
  aged-Safe true base t p w sound = disconnect_by_convid-Soundly out base (w.heap p).convid w sound
  aged-Safe false base t p w sound = kept-Safe base t p (w.heap p).session w sound

  aged-Soundly :
      (base t p : ℕ)
      → Steady out (do
        c ← load out p
        if ltb max_hello (t - c.last_hello) then disconnect_by_convid out base c.convid else do
          elim c.session [ none ↦ pure tt | some x ↦ emit out (starts_hello base p) ]
          store out p (update_bandwidth out t c))
  unfolding Soundly
  aged-Soundly base t p w sound =
      aged-Safe (ltb max_hello (t - (w.heap p).last_hello)) base t p w sound

  ping_one-Soundly : (tid k : ℕ) → Steady out (ping_one out tid k)
  unfolding ping_one
  ping_one-Soundly tid k =
      seq out (read_server out tid) _ (quiet out _ (read_server-Quietly out tid)) λ s.
        option-Soundly out none_held none_held (lookup k (entries s)) _ _
          (quiet out _ (pure-Quietly out tt))
          λ p.
            seq out (next_call out) _ (quiet out _ (next_call-Quietly out))
              λ n. aged-Soundly s.base_convid (out.now n) p

  ping_connections-Soundly : (tid : ℕ) (ks : List ℕ) → Steady out (ping_connections out tid ks)
  unfolding ping_connections
  ping_connections-Soundly tid [] = quiet out _ (pure-Quietly out tt)
  ping_connections-Soundly tid (k ∷ ks) =
      seq out (ping_one out tid k) _ (ping_one-Soundly tid k) λ _. ping_connections-Soundly tid ks

  range_keys-Quietly : (tid : ℕ) → Quietly out (range_keys out tid)
  unfolding range_keys
  range_keys-Quietly tid =
      Quietly-bind out (read_server out tid) _ (read_server-Quietly out tid) λ s.
        Quietly-bind out (next_call out) _ (next_call-Quietly out)
          λ n. pure-Quietly out (out.range n (keys (entries s)))

  ping_servers-Soundly : (tids : List ℕ) → Steady out (ping_servers out tids)
  unfolding ping_servers ping_server
  ping_servers-Soundly [] = quiet out _ (pure-Quietly out tt)
  ping_servers-Soundly (tid ∷ tids) =
      seq out (ping_server out tid) _
        (seq out (range_keys out tid) _ (quiet out _ (range_keys-Quietly tid))
          λ ks. ping_connections-Soundly tid ks)
        λ _. ping_servers-Soundly tids

  pub send_server_pings-Soundly : Steady out (send_server_pings out)
  unfolding send_server_pings Soundly
  send_server_pings-Soundly w sound =
      let v : State out = record w { calls = w.calls + 1 } in
      ping_servers-Soundly (out.range w.calls (keys w.servers)) v (
        quiet-IsSound out none_held w v
          (record { servers_kept = refl; heap_same = λ q. Same-refl _; fresh_kept = refl }) sound)
