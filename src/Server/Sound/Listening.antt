-- ===== src/Server/Sound/Listening.antt =====
-- server_accept_conn as a whole: the client may be new, and the mutex is taken and released.
use ratbond.Outside.{Outside}
use ratbond.Client.State.{sets_options, emit, server_options, starts_tun}
use ratbond.Client.Sound.{Safe-same, one_held, none_held}
use ratbond.Server.Accept.{accept_locked, new_client, accept_conn, handle_accepted}
use ratbond.Server.State.{Served, process, write_client, lock_client, unlock_client}
use ratbond.Server.Sound.{IsSteady, Steadily, Steadily-bind, if-Steadily, option-Steadily}
use ratbond.Server.Sound.Accepting.{accept_locked-Steadily}
use ratbond.Server.Sound.Steps.{Steady, seq, write-IsSteady}
use ratbond.Server.Sound.Locks.{unlock-Steadily, lock-Steadily}
use ratbond.Server.Sound.Rounds.{traced, value}
use ratbond.Base.{
  ℕ, ◌^◌, ◌<◌, refl, inl, inr, none, some, arith, Option-cases, lookup, insert, M, ◌>>=◌, ◌>>◌,
  pure, get,
}

module _ (out : Outside) (tid kcp : ℕ) where
  -- A client that is not known is made, and what follows.
  made_then :
      {A : Type 0} (rest : M (Served out) A)
      → Steady out rest
      → Steady out (do
        w ← get
        elim (lookup tid w.clients) [
          | none ↦ write_client out tid (new_client out)
          | some s ↦ pure tt
        ]
        rest)
  unfolding Steadily lookup
  made_then rest hr w steady = elim (Option-cases (lookup tid w.clients)) [
    | inl gone ↦
        let v : Served out = record w { clients = insert tid (new_client out) w.clients } in
        Safe-same (λ _ u. IsSteady out none_held u) _ (rest v) (ground arith)
          (hr v (
            write-IsSteady out none_held none_held tid (new_client out) w (λ u ne. refl)
              (record {
                lock_is = refl;
                coherent = record {
                  known = λ k p e. cc e;
                  named = λ t on. absurd on;
                  placed = λ k p e. cc e;
                };
                below = λ k p e. cc e;
              })
              steady))
    | inr (s, found) ↦
        Safe-same (λ _ u. IsSteady out none_held u) _ (rest w) (ground arith) (hr w steady)
  ]

  accept_conn-Steadily :
      out.get_conv kcp < 2 ^ 32 → Steady out (accept_conn out tid (out.get_conv kcp) kcp)
  unfolding accept_conn
  accept_conn-Steadily small =
      seq out (process out (emit out (sets_options kcp server_options))) _
        (traced out (sets_options kcp server_options))
        λ _. made_then _ (
          Steadily-bind out none_held (one_held tid) none_held (lock_client out tid) _
            (lock-Steadily out tid)
            λ _.
              Steadily-bind out (one_held tid) (one_held tid) none_held
                (accept_locked out tid (out.get_conv kcp) kcp) _
                (accept_locked-Steadily out tid kcp small)
                λ accepted.
                  Steadily-bind out (one_held tid) none_held none_held (unlock_client out tid) _
                    (unlock-Steadily out tid)
                    λ _.
                      option-Steadily out none_held none_held accepted.1 _ _ (value out none) λ p.
                        seq out _ _
                          (if-Steadily out none_held none_held accepted.0 _ _
                            (traced out (starts_tun tid)) (value out tt))
                          λ _. value out (some p))

  pub handle_accepted-Steadily :
      out.get_conv kcp < 2 ^ 32 → Steady out (handle_accepted out tid kcp)
  unfolding handle_accepted
  handle_accepted-Steadily small = accept_conn-Steadily small
