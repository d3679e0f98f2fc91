-- ===== src/Client/Sound/Steps.antt =====
-- The steps of the client that touch no table: calls of the outside, effects, and the counters of
-- a connection.
use ratbond.Outside.{Outside}
use ratbond.Network.Wan.{get_wan_ip, wan_ip_from, ask_wan_ip}
use ratbond.Network.Interfaces.{get_ip_addr}
use ratbond.Network.Netlink.{link_name}
use ratbond.Packet.Flow.{extract_src}
use ratbond.Client.Choose.{choose_hashed}
use ratbond.Client.Opening.{config_name, run, configure_tun, create_tun}
use ratbond.Client.Quiet.{update-Same, IsQuiet}
use ratbond.Client.Connect.{tun_name_of}
use ratbond.Client.Invariant.{Same, Same-refl}
use ratbond.Client.Sound.{
  Returns-Safe, Safe-same, Quietly, IsQuiet-refl, Quietly-bind, if-Quietly, option-Quietly,
}
use ratbond.Base.{
  ℕ, refl, ◌≢◌, inl, inr, Option, none, some, List, [], ◌∷◌, ◌++◌, arith, Option-cases, Text, codes,
  lookup, Fault, nil_deref, index_range, deadlock, done, fault, M, ◌>>=◌, pure, stop,
  Returns-weaken,
}
use ratbond.Client.State.{
  Effect, RatSession, read_deadline, ServerConnection, State, load, store, read_server, emit,
  next_call, session_write, session_read, session_state, set_read_deadline, set_write_deadline,
}
use ratbond.Client.Staying.{
  Silently, run-Silently, configure_tun-Silently, session_write-Silently,
  set_write_deadline-Silently,
}

module _ (out : Outside) where
  open out use {kcp_state}

  pub pure-Quietly : {A : Type 0} (a : A) → Quietly out (pure a)
  unfolding Quietly
  pure-Quietly a w = IsQuiet-refl out w

  pub stop-Quietly : (A : Type 0) (e : Fault) → e ≢ deadlock → Quietly out {A = A} (stop e)
  unfolding Quietly
  stop-Quietly A e ne w = ne

  pub traced-Quietly : (e : Effect) → Quietly out (emit out e)
  unfolding Quietly
  traced-Quietly e w = record {
    servers_kept = refl;
    heap_same = λ q. Same-refl _;
    fresh_kept = refl;
  }

  pub next_call-Quietly : Quietly out (next_call out)
  unfolding Quietly
  next_call-Quietly w = record {
    servers_kept = refl;
    heap_same = λ q. Same-refl _;
    fresh_kept = refl;
  }

  pub read_server-Quietly : (tid : ℕ) → Quietly out (read_server out tid)
  unfolding Quietly
  read_server-Quietly tid w = elim (Option-cases (lookup tid w.servers)) [
    | inl gone ↦
        Safe-same (λ _ v. IsQuiet out w v) (read_server out tid w) (fault nil_deref w)
          (ground arith) (λ e. cc e)
    | inr (s, found) ↦
        Safe-same (λ _ v. IsQuiet out w v) (read_server out tid w) (done s w) (ground arith)
          (IsQuiet-refl out w)
  ]

  -- A change of a connection's counters.
  pub change-Quietly :
      (p : ℕ) (f : ServerConnection → ServerConnection)
      → ((c : ServerConnection) → Same c (f c))
      → Quietly out (do c ← load out p; store out p (f c))
  unfolding Quietly
  change-Quietly p f same w = record {
    servers_kept = refl;
    heap_same = update-Same w.heap p (f (w.heap p)) (same (w.heap p));
    fresh_kept = refl;
  }

  pub Silently-Quietly : {A : Type 0} (m : M (State out) A) → Silently out m → Quietly out m
  unfolding Quietly
  Silently-Quietly m silent w = Returns-Safe (
      Returns-weaken (silent w) λ _ v q. record {
        servers_kept = q.servers_kept;
        heap_same = λ i. rw q.heap_kept (Same-refl _);
        fresh_kept = q.fresh_kept;
      })

  pub session_state-Quietly : (s : Option RatSession) → Quietly out (session_state out s)
  unfolding session_state
  session_state-Quietly none = pure-Quietly 0
  session_state-Quietly (some s) =
      Quietly-bind out (next_call out) (λ n. pure (kcp_state n)) next_call-Quietly
        λ n. pure-Quietly (kcp_state n)

  pub session_read-Quietly : (s : Option RatSession) → Quietly out (session_read out s)
  unfolding session_read
  session_read-Quietly none = pure-Quietly _
  session_read-Quietly (some s) =
      Quietly-bind out (next_call out) (λ n. pure (out.kcp_read n)) next_call-Quietly
        λ n. pure-Quietly (out.kcp_read n)

  pub set_read_deadline-Quietly :
      (s : Option RatSession) (ms : ℕ) → Quietly out (set_read_deadline out s ms)
  unfolding set_read_deadline
  set_read_deadline-Quietly none ms = pure-Quietly tt
  set_read_deadline-Quietly (some s) ms = traced-Quietly (read_deadline s.kcp ms)

  pub set_write_deadline-Quietly :
      (s : Option RatSession) (ms : ℕ) → Quietly out (set_write_deadline out s ms)
  set_write_deadline-Quietly s ms =
      Silently-Quietly (set_write_deadline out s ms) (set_write_deadline-Silently out s ms)

  pub session_write-Quietly :
      (s : Option RatSession) (b : List ℕ) → Quietly out (session_write out s b)
  session_write-Quietly s b =
      Silently-Quietly (session_write out s b) (session_write-Silently out s b)

  pub run-Quietly : (command : List Text) → Quietly out (run out command)
  run-Quietly command = Silently-Quietly (run out command) (run-Silently out command)

  pub link_name-Quietly : (index : ℕ) → Quietly out (link_name out index)
  unfolding link_name
  link_name-Quietly index = Quietly-bind out (next_call out) _ next_call-Quietly λ n.
      option-Quietly out (out.interface_by_index n index) _ _ (stop-Quietly _ nil_deref (λ e. cc e))
        λ name. pure-Quietly name

  ask_wan_ip-Quietly : (ip : Text) → Quietly out (ask_wan_ip out ip)
  unfolding ask_wan_ip
  ask_wan_ip-Quietly ip =
      if-Quietly out (out.resolves (ip ++ codes ":0")) _ _
        (Quietly-bind out (next_call out) _ next_call-Quietly λ n. pure-Quietly _)
        (pure-Quietly none)

  wan_ip_from-Quietly : (ips : List Text) → Quietly out (wan_ip_from out ips)
  unfolding wan_ip_from
  wan_ip_from-Quietly [] = stop-Quietly _ index_range (λ e. cc e)
  wan_ip_from-Quietly (ip ∷ ips) = ask_wan_ip-Quietly ip

  pub get_wan_ip-Quietly : (ifname : Text) → Quietly out (get_wan_ip out ifname)
  unfolding get_wan_ip
  get_wan_ip-Quietly ifname = Quietly-bind out (next_call out) _ next_call-Quietly λ n.
      option-Quietly out (get_ip_addr ifname (out.interfaces n)) _ _ (pure-Quietly none)
        λ ips. wan_ip_from-Quietly ips

  pub create_tun-Quietly : (tid : ℕ) (ip : Text) → Quietly out (create_tun out tid ip)
  unfolding create_tun
  create_tun-Quietly tid ip = Quietly-bind out (next_call out) _ next_call-Quietly λ n.
      option-Quietly out (out.open_tun n (config_name out tid)) _ _ (pure-Quietly none) λ i.
        Quietly-bind out (configure_tun out (out.tun_name i) ip) _
          (Silently-Quietly (configure_tun out (out.tun_name i) ip)
            (configure_tun-Silently out (out.tun_name i) ip))
          λ _. pure-Quietly (some i)

  pub tun_name_of-Quietly : (made : Option ℕ) → Quietly out (tun_name_of out made)
  unfolding tun_name_of
  tun_name_of-Quietly (some i) =
      Quietly-bind out (next_call out) _ next_call-Quietly λ n. pure-Quietly _
  tun_name_of-Quietly none = Quietly-bind out (next_call out) _ next_call-Quietly λ n.
      option-Quietly out out.nil_tun_name _ _ (stop-Quietly _ nil_deref (λ e. cc e))
        λ t. pure-Quietly t

  pub choose_hashed-Quietly :
      (tid : ℕ) (packet : List ℕ) (len : ℕ) → Quietly out (choose_hashed out tid packet len)
  unfolding choose_hashed
  choose_hashed-Quietly tid packet len =
      Quietly-bind out (read_server out tid) _ (read_server-Quietly tid) λ s.
        Quietly-bind out _ _
          (option-Quietly out (extract_src out.parse_header packet len) _ _
            (stop-Quietly _ nil_deref (λ e. cc e)) λ t. pure-Quietly t)
          λ key.
            Quietly-bind out _ _
              (option-Quietly out s.consistent _ _ (stop-Quietly _ nil_deref (λ e. cc e))
                λ c. pure-Quietly c)
              λ circle. pure-Quietly _
