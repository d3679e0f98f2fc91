-- ===== src/Client/Completing.antt =====
-- client_connect_server as a whole, from the route that came up to the entry in the table.
use ratbond.Base.{
  ℕ, Bool, true, false, Option, [], ◌∷◌, arith, if◌then◌else◌, Text, codes, Dict, M, ◌>>=◌, ◌>>◌,
  pure, Returns, Returns-bind, Returns-weaken, Returns-same, contains_text,
}
use ratbond.Outside.{Outside}
use ratbond.Client.State.{
  State, entries, lock, unlock, emit, starts_reader, starts_tun, session_write, set_write_deadline,
}
use ratbond.Client.Opening.{runthing}
use ratbond.Client.Connect.{start_connection, check_paths, fit_route, change_route}
use ratbond.Client.Disconnect.{write_deadline_ms}
use ratbond.Client.Staying.{
  Silently, pure-Silently, run-Silently, runthing-Silently, emit-Silently, session_write-Silently,
  set_write_deadline-Silently,
}
use ratbond.Client.Standing.{IsAt, silent-IsAt, lock-IsAt, unlock-IsAt}
use ratbond.Packet.Wire.{hello}

module _ (out : Outside) where
  pub fit_route-Silently :
      (es : Dict ℕ) (routed : Bool) (via : Text) → Silently out (fit_route out es routed via)
  unfolding fit_route change_route
  fit_route-Silently [] true via = run-Silently out _
  fit_route-Silently [] false via = pure-Silently out tt
  fit_route-Silently (e ∷ es) true via = pure-Silently out tt
  fit_route-Silently (e ∷ es) false via = run-Silently out _

  module _ (old : ℕ → Option ℕ) (w0 : State out) where
    pub silent-step :
        {A : Type 0} (held : Bool) (m : M (State out) A) (tid : ℕ) (w : State out)
        → Silently out m
        → IsAt out tid old w0 true held w
        → Returns (λ _ w'. IsAt out tid old w0 true held w') (m w)
    silent-step held m tid w q at =
        Returns-weaken (q w) λ _ v r. silent-IsAt out tid old w0 true held w v r at

    check_paths-IsAt :
        (w : State out)
        → IsAt out out.options.tunnel_id old w0 true false w
        → Returns (λ _ w'. IsAt out out.options.tunnel_id old w0 true false w') (check_paths out w)
    unfolding check_paths
    check_paths-IsAt w at =
        let tid = out.options.tunnel_id in
        let s = at.server in
        let ask =
          codes "ip" ∷ codes "route" ∷ codes "show" ∷ codes "match" ∷ codes "0.0.0.0" ∷ [] in
        Returns-same
          {o' = (do
            lock out tid
            check ← runthing out ask
            fit_route out (entries s) (contains_text check s.remote_tun_ip) s.remote_tun_ip
            unlock out tid)
            w}
          (ground (arith, at.found))
          (Returns-bind (lock out tid) _ w (lock-IsAt out tid old w0 true w at) λ _ u at1.
            Returns-bind (runthing out ask) _ u
              (silent-step true (runthing out ask) tid u (runthing-Silently out ask) at1)
              λ check v at2.
                Returns-bind
                  (fit_route out (entries s) (contains_text check s.remote_tun_ip) s.remote_tun_ip)
                  _ v
                  (silent-step true _ tid v
                    (fit_route-Silently (entries s) (contains_text check s.remote_tun_ip)
                      s.remote_tun_ip)
                    at2)
                  λ _ u2 at3. unlock-IsAt out tid old w0 true true u2 at3)

    spawn-Silently :
        (tid : ℕ) (spawn_tun : Bool)
        → Silently out (if spawn_tun then emit out (starts_tun tid) else pure tt)
    spawn-Silently tid true = emit-Silently out (starts_tun tid)
    spawn-Silently tid false = pure-Silently out tt

    pub start_connection-IsAt :
        (p : ℕ) (spawn_tun : Bool) (w : State out)
        → IsAt out out.options.tunnel_id old w0 true false w
        → Returns
            (λ _ w'. IsAt out out.options.tunnel_id old w0 true false w')
            (start_connection out out.options.tunnel_id p spawn_tun w)
    unfolding start_connection
    start_connection-IsAt p spawn_tun w at =
        let tid = out.options.tunnel_id in
        let c = w.heap p in
        Returns-bind (set_write_deadline out c.session write_deadline_ms) _ w
          (silent-step false _ tid w (set_write_deadline-Silently out c.session write_deadline_ms)
            at)
          λ _ v at1.
            Returns-bind (session_write out c.session hello) _ v
              (silent-step false _ tid v (session_write-Silently out c.session hello) at1)
              λ _ u at2.
                Returns-bind (emit out (starts_reader tid p)) _ u
                  (silent-step false _ tid u (emit-Silently out (starts_reader tid p)) at2)
                  λ _ u2 at3.
                    Returns-bind (if spawn_tun then emit out (starts_tun tid) else pure tt) _ u2
                      (silent-step false _ tid u2 (spawn-Silently tid spawn_tun) at3)
                      λ _ u3 at4. check_paths-IsAt u3 at4
