-- ===== src/Client/Sound/Connect.antt =====
-- client_connect_server and client_check_paths, each as a whole.
use ratbond.Outside.{Outside}
use ratbond.Packet.Wire.{hello}
use ratbond.Client.Disconnect.{write_deadline_ms}
use ratbond.Client.Opening.{runthing, create_tun}
use ratbond.Client.Connect.{
  fit_route, check_paths, tun_name_of, make_tun, ensure_tun, ensure_map, start_connection,
}
use ratbond.Client.Invariant.{names}
use ratbond.Client.State.{
  ServerConnection, entries, State, Server, load, read_server, write_server, emit, lock, unlock,
  session_write, set_write_deadline, starts_reader, starts_tun,
}
use ratbond.Client.Sound.{
  Safe-same, none_held, one_held, IsTunnel, IsSound, Soundly, Soundly-bind, Quietly-Soundly,
  if-Soundly, option-Soundly, Safe,
}
use ratbond.Client.Completing.{fit_route-Silently}
use ratbond.Client.Staying.{runthing-Silently}
use ratbond.Client.Sound.Locks.{write-IsSound, fields-IsTunnel, unlock-Soundly, lock-Soundly}
use ratbond.Client.Sound.Rounds.{Steady, quiet, seq, load-Quietly}
use ratbond.Client.Sound.Steps.{
  pure-Quietly, traced-Quietly, read_server-Quietly, Silently-Quietly, set_write_deadline-Quietly,
  session_write-Quietly, create_tun-Quietly, tun_name_of-Quietly,
}
use ratbond.Base.{
  ℕ, ◌≡◌, refl, ◌≢◌, inl, inr, Bool, true, false, some, [], ◌∷◌, arith, if◌then◌else◌, Option-cases,
  Elem, Text, codes, lookup, insert, nil_deref, done, fault, M, ◌>>=◌, ◌>>◌, pure, contains_text,
}

empty-lookup : (k p : ℕ) → lookup {V = ℕ} k [] ≢ some p
unfolding lookup
empty-lookup k p e = cc

module _ (out : Outside) where
  -- A server that is read, changed and written back, and what follows.
  rewrite_then-Soundly :
      {A : Type 0} (before after last : ℕ → Bool) (tid : ℕ) (f : Server out → Server out)
      (rest : M (State out) A)
      → ((t : ℕ) → t ≢ tid → after t ≡ before t)
      → ((s : Server out) (h : ℕ → ServerConnection) (n : ℕ)
          → IsTunnel out (before tid) h n s
          → IsTunnel out (after tid) h n (f s))
      → Soundly out after last rest
      → Soundly out before last (do s ← read_server out tid; write_server out tid (f s); rest)
  unfolding Soundly
  rewrite_then-Soundly before after last tid f rest others new hr w sound =
      elim (Option-cases (lookup tid w.servers)) [
        | inl gone ↦
            Safe-same (λ _ u. IsSound out last u) _ (fault nil_deref w) (ground arith) (λ e. cc e)
        | inr (s, found) ↦
            let v : State out = record w { servers = insert tid (f s) w.servers } in
            Safe-same (λ _ u. IsSound out last u) _ (rest v) (ground arith)
              (hr v (
                write-IsSound out before after tid (f s) w others
                  (new s w.heap w.fresh (sound tid s found)) sound))
      ]

  -- A server with no entries and a circle with no names.
  pub empty-IsTunnel :
      (b : Bool) (h : ℕ → ServerConnection) (n : ℕ) (s : Server out)
      → s.locked ≡ b
      → entries s ≡ []
      → ((t : Text) → ¬ Elem t (names out s.consistent))
      → IsTunnel out b h n s
  empty-IsTunnel b h n s lock' no_entry no_name = record {
    lock_is = lock';
    coherent = record {
      known = λ k p e. absurd (empty-lookup k p (rw no_entry at e));
      named = λ t on. absurd (no_name t on);
      placed = λ k p e. absurd (empty-lookup k p (rw no_entry at e));
    };
    below = λ k p e. absurd (empty-lookup k p (rw no_entry at e));
  }

  abbrev HeldSteady : {A : Type 0} → ℕ → M (State out) A → Type 0
  HeldSteady tid m = Soundly out (one_held tid) (one_held tid) m

  make_tun-Soundly : (tid : ℕ) → HeldSteady tid (make_tun out tid)
  unfolding make_tun
  make_tun-Soundly tid =
      Soundly-bind out (one_held tid) (one_held tid) (one_held tid)
        (create_tun out tid out.options.client_tun_ip) _
        (Quietly-Soundly out (one_held tid) _
          (create_tun-Quietly out tid out.options.client_tun_ip))
        λ made.
          Soundly-bind out (one_held tid) (one_held tid) (one_held tid) (tun_name_of out made) _
            (Quietly-Soundly out (one_held tid) _ (tun_name_of-Quietly out made))
            λ name.
              rewrite_then-Soundly (one_held tid) (one_held tid) (one_held tid) tid
                (λ t. record t {
                  iface = made;
                  my_tun_ip = out.options.client_tun_ip;
                  remote_tun_ip = out.options.server_tun_ip;
                  ifname = name;
                  base_convid = tid;
                })
                (pure true) (λ t ne. refl)
                (λ s h n tunnel.
                  fields-IsTunnel out (one_held tid tid) (one_held tid tid) h n s _ refl refl
                    tunnel.lock_is tunnel)
                (Quietly-Soundly out (one_held tid) _ (pure-Quietly out true))

  pub ensure_tun-Soundly : (tid : ℕ) → HeldSteady tid (ensure_tun out tid)
  unfolding ensure_tun
  ensure_tun-Soundly tid =
      Soundly-bind out (one_held tid) (one_held tid) (one_held tid) (read_server out tid) _
        (Quietly-Soundly out (one_held tid) _ (read_server-Quietly out tid))
        λ s.
          option-Soundly out (one_held tid) (one_held tid) s.iface _ _ (make_tun-Soundly tid)
            λ i. Quietly-Soundly out (one_held tid) _ (pure-Quietly out false)

  pub ensure_map-Soundly : (tid : ℕ) → HeldSteady tid (ensure_map out tid)
  unfolding ensure_map Soundly
  ensure_map-Soundly tid w sound = elim (Option-cases (lookup tid w.servers)) [
    | inl gone ↦
        Safe-same (λ _ u. IsSound out (one_held tid) u) _ (fault nil_deref w) (ground arith)
          (λ e. cc e)
    | inr (s, found) ↦ elim (Option-cases s.connections) [
      | inr (m, there) ↦
          Safe-same (λ _ v. IsSound out (one_held tid) v) _ (done tt w) (ground arith) sound
      | inl no_map ↦
          let t : Server out = record s {
            connections = some [];
            consistent = some out.circle_new;
          } in
          let v : State out = record w { servers = insert tid t w.servers } in
          Safe-same (λ _ u. IsSound out (one_held tid) u) _ (done tt v) (ground arith)
            (write-IsSound out (one_held tid) (one_held tid) tid t w (λ u ne. refl)
              (empty-IsTunnel (one_held tid tid) w.heap w.fresh t (sound tid s found).lock_is refl
                out.members-new)
              sound)
    ]
  ]

  fitted-Soundly :
      (tid : ℕ) (s : Server out)
      → Soundly out (one_held tid) none_held (do
        check ←
            runthing out
              (codes "ip" ∷ codes "route" ∷ codes "show" ∷ codes "match" ∷ codes "0.0.0.0" ∷ [])
        fit_route out (entries s) (contains_text check s.remote_tun_ip) s.remote_tun_ip
        unlock out tid)
  fitted-Soundly tid s =
      let ask = codes "ip" ∷ codes "route" ∷ codes "show" ∷ codes "match" ∷ codes "0.0.0.0" ∷ [] in
      Soundly-bind out (one_held tid) (one_held tid) none_held (runthing out ask) _
        (Quietly-Soundly out (one_held tid) _ (Silently-Quietly out _ (runthing-Silently out ask)))
        λ check.
          let routed = contains_text check s.remote_tun_ip in
          Soundly-bind out (one_held tid) (one_held tid) none_held
            (fit_route out (entries s) routed s.remote_tun_ip) _
            (Quietly-Soundly out (one_held tid) _
              (Silently-Quietly out _ (fit_route-Silently out (entries s) routed s.remote_tun_ip)))
            λ _. unlock-Soundly out tid

  routed-Safe :
      (tid : ℕ) (s : Server out) (w : State out)
      → IsSound out none_held w
      → Safe
          (λ _ v. IsSound out none_held v)
          ((do
            lock out tid
            check ←
                runthing out
                  (codes "ip" ∷ codes "route" ∷ codes "show" ∷ codes "match" ∷ codes "0.0.0.0" ∷ [])
            fit_route out (entries s) (contains_text check s.remote_tun_ip) s.remote_tun_ip
            unlock out tid)
            w)
  unfolding Soundly
  routed-Safe tid s w sound =
      Soundly-bind out none_held (one_held tid) none_held (lock out tid) _ (lock-Soundly out tid)
        (λ _. fitted-Soundly tid s) w sound

  pub check_paths-Soundly : Steady out (check_paths out)
  unfolding check_paths Soundly
  check_paths-Soundly w sound =
      let tid = out.options.tunnel_id in
      elim (Option-cases (lookup tid w.servers)) [
        | inl gone ↦ Safe-same (λ _ v. IsSound out none_held v) _ (done tt w) (ground arith) sound
        | inr (s, found) ↦
            Safe-same (λ _ v. IsSound out none_held v) _
              ((do
                lock out tid
                check ← runthing out (
                    codes "ip"
                    ∷ codes "route"
                    ∷ codes "show"
                    ∷ codes "match"
                    ∷ codes "0.0.0.0"
                    ∷ [])
                fit_route out (entries s) (contains_text check s.remote_tun_ip) s.remote_tun_ip
                unlock out tid)
                w)
              (ground arith) (routed-Safe tid s w sound)
      ]

  pub start_connection-Soundly :
      (tid p : ℕ) (spawn_tun : Bool) → Steady out (start_connection out tid p spawn_tun)
  unfolding start_connection
  start_connection-Soundly tid p spawn_tun =
      seq out (load out p) _ (quiet out _ (load-Quietly out p)) λ c.
        seq out (set_write_deadline out c.session write_deadline_ms) _
          (quiet out _ (set_write_deadline-Quietly out c.session write_deadline_ms))
          λ _.
            seq out (session_write out c.session hello) _
              (quiet out _ (session_write-Quietly out c.session hello))
              λ _.
                seq out (emit out (starts_reader tid p)) _ (quiet out _ (traced-Quietly out _)) λ _.
                  seq out (if spawn_tun then emit out (starts_tun tid) else pure tt) _
                    (if-Soundly out none_held none_held spawn_tun _ _
                      (quiet out _ (traced-Quietly out (starts_tun tid)))
                      (quiet out _ (pure-Quietly out tt)))
                    λ _. check_paths-Soundly
