-- ===== src/Client/Sound/Rounds.antt =====
-- The rounds of the client's goroutines, and the checks of its main loop.
use ratbond.Outside.{
  Outside, Written, written, timed_out, failed, Received, received, read_timed_out, read_failed,
}
use ratbond.Packet.Wire.{hello, client_sort, Incoming, is_hello, is_linkdown, is_frame}
use ratbond.Client.Disconnect.{disconnect_by_convid}
use ratbond.Client.Quiet.{update-Same}
use ratbond.Client.Invariant.{Same}
use ratbond.Client.State.{
  ServerConnection, update, State, load, store, read_server, emit, next_call, session_write,
  session_read, session_state, set_read_deadline, set_write_deadline, tun_writes, u64, RatSession,
}
use ratbond.Client.Sound.{
  none_held, Soundly, Quietly, Soundly-bind, IsQuiet-refl, Quietly-bind, quiet-IsSound,
  Quietly-Soundly, option-Quietly, if-Soundly, option-Soundly,
}
use ratbond.Client.Reader.{
  dead_state, returned, goes_on, give_up, write_tun, on_timeout, on_message, read_round, send_hello,
  max_rxtimeouts,
}
use ratbond.Client.Sound.Losing.{disconnect_by_convid-Soundly}
use ratbond.Client.Sound.Steps.{
  pure-Quietly, traced-Quietly, next_call-Quietly, read_server-Quietly, session_state-Quietly,
  session_read-Quietly, set_read_deadline-Quietly, set_write_deadline-Quietly,
  session_write-Quietly,
}
use ratbond.Base.{
  ℕ, ◌+◌, ◌≡◌, refl, ◌||◌, Option, some, List, ltb, ◌==◌, length, M, ◌>>=◌, ◌>>◌, pure,
}

-- The counters may change, and so may the session and the times.
pub changed-Same :
    (c d : ServerConnection)
    → d.convid ≡ c.convid
    → d.alive ≡ c.alive
    → d.src_address ≡ c.src_address
    → d.ifname ≡ c.ifname
    → Same c d
changed-Same c d a b e f = record { convid_kept = a; alive_kept = b; src_kept = e; ifname_kept = f }

module _ (out : Outside) where
  abbrev pub Steady : {A : Type 0} → M (State out) A → Type 0
  Steady m = Soundly out none_held none_held m

  pub quiet : {A : Type 0} (m : M (State out) A) → Quietly out m → Steady m
  quiet m q = Quietly-Soundly out none_held m q

  pub seq :
      {A B : Type 0} (m : M (State out) A) (k : A → M (State out) B)
      → Steady m
      → ((a : A) → Steady (k a))
      → Steady (do a ← m; k a)
  seq m k hm hk = Soundly-bind out none_held none_held none_held m k hm hk

  pub load-Quietly : (p : ℕ) → Quietly out (load out p)
  unfolding Quietly
  load-Quietly p w = IsQuiet-refl out w

  give_up-Soundly : (tid p : ℕ) → Steady (give_up out tid p)
  unfolding give_up
  give_up-Soundly tid p = seq (read_server out tid) _ (quiet _ (read_server-Quietly out tid)) λ s.
      seq (load out p) _ (quiet _ (load-Quietly p)) λ c.
        seq (disconnect_by_convid out s.base_convid c.convid) _
          (disconnect_by_convid-Soundly out s.base_convid c.convid)
          λ _. quiet _ (pure-Quietly out returned)

  write_tun-Quietly : (tid : ℕ) (frame : List ℕ) → Quietly out (write_tun out tid frame)
  unfolding write_tun
  write_tun-Quietly tid frame =
      Quietly-bind out (read_server out tid) _ (read_server-Quietly out tid) λ s.
        option-Quietly out s.iface _ _ (pure-Quietly out tt) λ i.
          Quietly-bind out (emit out (tun_writes i frame)) _ (traced-Quietly out _)
            λ _. Quietly-bind out (next_call out) _ (next_call-Quietly out) λ _. pure-Quietly out tt

  -- A change of a connection's counters, and what follows.
  pub change_then :
      {A : Type 0} (p : ℕ) (f : ServerConnection → ServerConnection)
      (rest : ServerConnection → M (State out) A)
      → ((c : ServerConnection) → Same c (f c))
      → ((c : ServerConnection) → Steady (rest c))
      → Steady (do c ← load out p; store out p (f c); rest c)
  unfolding Soundly
  change_then p f rest same hr w sound =
      let v : State out = record w { heap = update w.heap p (f (w.heap p)) } in
      hr (w.heap p) v (
        quiet-IsSound out none_held w v
          (record {
            servers_kept = refl;
            heap_same = update-Same w.heap p (f (w.heap p)) (same (w.heap p));
            fresh_kept = refl;
          })
          sound)

  sorted-Soundly :
      (tid p : ℕ) (x : Incoming)
      → Steady (elim x [
        | is_hello ↦ do
          m ← next_call out
          d ← load out p
          store out p (record d { last_hello = out.now m })
          pure (goes_on 0)
        | is_linkdown k ↦ pure (goes_on 0)
        | is_frame frame ↦ do write_tun out tid frame; pure (goes_on 0)
      ])
  sorted-Soundly tid p is_hello = seq (next_call out) _ (quiet _ (next_call-Quietly out)) λ m.
      change_then p (λ d. record d { last_hello = out.now m }) _
        (λ c. changed-Same c _ refl refl refl refl) λ _. quiet _ (pure-Quietly out (goes_on 0))
  sorted-Soundly tid p (is_linkdown k) = quiet _ (pure-Quietly out (goes_on 0))
  sorted-Soundly tid p (is_frame frame) =
      seq (write_tun out tid frame) _ (quiet _ (write_tun-Quietly tid frame))
        λ _. quiet _ (pure-Quietly out (goes_on 0))

  on_message-Soundly : (tid p : ℕ) (message : List ℕ) → Steady (on_message out tid p message)
  unfolding on_message
  on_message-Soundly tid p message = seq (next_call out) _ (quiet _ (next_call-Quietly out)) λ n.
      change_then p
        (λ c. record c {
          rxcounter = u64 (c.rxcounter + 1);
          rxbytes = u64 (c.rxbytes + length message);
          last_hello = out.now n;
        })
        _ (λ c. changed-Same c _ refl refl refl refl)
        λ _. sorted-Soundly tid p (client_sort message)

  on_timeout-Soundly : (tid p n : ℕ) → Steady (on_timeout out tid p n)
  unfolding on_timeout
  on_timeout-Soundly tid p n =
      change_then p (λ c. record c { rxtimeouts = u64 (c.rxtimeouts + 1) }) _
        (λ c. changed-Same c _ refl refl refl refl)
        λ c.
          if-Soundly out none_held none_held
            (ltb max_rxtimeouts (u64 (c.rxtimeouts + 1)) || ltb max_rxtimeouts (n + 1)) _ _
            (give_up-Soundly tid p) (quiet _ (pure-Quietly out (goes_on (n + 1))))

  read-Soundly :
      (tid p n : ℕ) (r : Received)
      → Steady (elim r [
        | read_timed_out ↦ on_timeout out tid p n
        | read_failed ↦ give_up out tid p
        | received message ↦ on_message out tid p message
      ])
  read-Soundly tid p n read_timed_out = on_timeout-Soundly tid p n
  read-Soundly tid p n read_failed = give_up-Soundly tid p
  read-Soundly tid p n (received message) = on_message-Soundly tid p message

  pub read_round-Soundly : (tid p n : ℕ) → Steady (read_round out tid p n)
  unfolding read_round
  read_round-Soundly tid p n = seq (load out p) _ (quiet _ (load-Quietly p)) λ c.
      option-Soundly out none_held none_held c.session _ _ (quiet _ (pure-Quietly out returned))
        λ session.
          seq (session_state out (some session)) _
            (quiet _ (session_state-Quietly out (some session)))
            λ kcpstate.
              if-Soundly out none_held none_held (kcpstate == dead_state) _ _
                (give_up-Soundly tid p)
                (seq (set_read_deadline out (some session) 5000) _
                  (quiet _ (set_read_deadline-Quietly out (some session) 5000))
                  λ _.
                    seq (session_read out (some session)) _
                      (quiet _ (session_read-Quietly out (some session)))
                      λ r. read-Soundly tid p n r)

  hello-Soundly :
      (base p : ℕ) (session : Option RatSession) (r : Written)
      → Steady (elim r [
        | written ↦ pure tt
        | failed ↦ pure tt
        | timed_out ↦ do
          kcpstate ← session_state out session
          d ← load out p
          store out p (record d { txtimeouts = u64 (d.txtimeouts + 1) })
          disconnect_by_convid out base d.convid
      ])
  hello-Soundly base p session written = quiet _ (pure-Quietly out tt)
  hello-Soundly base p session failed = quiet _ (pure-Quietly out tt)
  hello-Soundly base p session timed_out =
      seq (session_state out session) _ (quiet _ (session_state-Quietly out session)) λ _.
        change_then p (λ d. record d { txtimeouts = u64 (d.txtimeouts + 1) }) _
          (λ c. changed-Same c _ refl refl refl refl)
          λ d. disconnect_by_convid-Soundly out base d.convid

  pub send_hello-Soundly : (base p : ℕ) → Steady (send_hello out base p)
  unfolding send_hello
  send_hello-Soundly base p = seq (load out p) _ (quiet _ (load-Quietly p)) λ c.
      seq (set_write_deadline out c.session 6000) _
        (quiet _ (set_write_deadline-Quietly out c.session 6000))
        λ _.
          seq (session_write out c.session hello) _
            (quiet _ (session_write-Quietly out c.session hello))
            λ r. hello-Soundly base p c.session r
