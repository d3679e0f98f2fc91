-- ===== src/Server/Sound/Joining.antt =====
-- server_accept_conn and the listener: a connection is made and enters the table.
use mathlib.Core.Path.{subst}
use mathlib.Core.Option.{some-injective}
use ratbond.Outside.{Outside}
use ratbond.Client.Opening.{create_tun}
use ratbond.Client.State.{next_call}
use ratbond.Client.Sound.{one_held}
use ratbond.Client.Sound.Steps.{create_tun-Quietly, next_call-Quietly}
use ratbond.Server.Accept.{ensure_client_tun}
use ratbond.Server.State.{
  ClientConnection, update_conn, Served, Client, process, read_client, write_client,
}
use ratbond.Server.Sound.{
  Alike, Alike-refl, IsClient, IsSteady, Steadily, IsClient-Alike, Calmly-Steadily, Steadily-bind,
  option-Steadily,
}
use ratbond.Server.Sound.Steps.{
  pure-Calmly, stop-Calmly, process-Calmly, read_client-Calmly, fields-IsClient, rewrite_then,
}
use ratbond.Base.{
  ℕ, ◌+◌, ◌≡◌, refl, sym, ap, ◌∙◌, inl, inr, Bool, true, false, Option, none, some, arith, ◌==◌,
  ==_iff, Bool-cases, Text, lookup, nil_deref, ◌>>=◌, ◌>>◌, pure, stop,
}

module _ (out : Outside) (tid : ℕ) where
  made-Steadily :
      (r : Option ℕ)
      → Steadily out (one_held tid) (one_held tid) (do
        n ← process out (next_call out)
        name ← elim r [
          | some i ↦ pure (out.tun_name n)
          | none ↦ elim out.nil_tun_name [ none ↦ stop nil_deref | some t ↦ pure t ]
        ]
        t ← read_client out tid
        write_client out tid (record t {
          iface = r;
          my_tun_ip = out.options.server_tun_ip;
          remote_tun_ip = out.options.client_tun_ip;
          ifname = name;
          base_convid = tid;
        })
        pure true)
  made-Steadily r =
      let held = one_held tid in
      Steadily-bind out held held held (process out (next_call out)) _
        (Calmly-Steadily out held _ (process-Calmly out (next_call out) (next_call-Quietly out)))
        λ n.
          Steadily-bind out held held held _ _
            (option-Steadily out held held r _ _
              (option-Steadily out held held out.nil_tun_name _ _
                (Calmly-Steadily out held _ (stop-Calmly out Text nil_deref (λ e. cc e)))
                λ t. Calmly-Steadily out held _ (pure-Calmly out t))
              λ i. Calmly-Steadily out held _ (pure-Calmly out (out.tun_name n)))
            λ name.
              rewrite_then out held held held tid
                (λ t. record t {
                  iface = r;
                  my_tun_ip = out.options.server_tun_ip;
                  remote_tun_ip = out.options.client_tun_ip;
                  ifname = name;
                  base_convid = tid;
                })
                (λ _. pure true) (λ t ne. refl)
                (λ s h n client.
                  fields-IsClient out (held tid) (held tid) h n s _ refl refl client.lock_is client)
                (Calmly-Steadily out held _ (pure-Calmly out true))

  pub ensure_tun-Steadily : Steadily out (one_held tid) (one_held tid) (ensure_client_tun out tid)
  unfolding ensure_client_tun
  ensure_tun-Steadily =
      let held = one_held tid in
      Steadily-bind out held held held (read_client out tid) _
        (Calmly-Steadily out held _ (read_client-Calmly out tid))
        λ s.
          option-Steadily out held held s.iface _ _
            (Steadily-bind out held held held
              (process out (create_tun out tid out.options.server_tun_ip)) _
              (Calmly-Steadily out held _ (
                process-Calmly out (create_tun out tid out.options.server_tun_ip)
                  (create_tun-Quietly out tid out.options.server_tun_ip)))
              λ r. made-Steadily r)
            λ i. Calmly-Steadily out held _ (pure-Calmly out false)

  -- A client that does not point to the connection just made.
  pub apart-IsClient :
      (b : Bool) (conn : ClientConnection) (s : Client out) (v w : Served out)
      → w.conns ≡ update_conn v.conns v.fresh_conn conn
      → w.fresh_conn ≡ v.fresh_conn + 1
      → IsClient out b v.conns v.fresh_conn s
      → IsClient out b w.conns w.fresh_conn s
  unfolding update_conn
  apart-IsClient b conn s v w conns' next' client =
      IsClient-Alike out b v.conns w.conns v.fresh_conn w.fresh_conn s
        (λ p lt.
          subst (Alike (v.conns p))
            (sym (ap (λ h. h p) conns' ∙ ground (arith, ==_iff v.fresh_conn p))) (Alike-refl _))
        (omega (arith, next')) client

  -- One more connection was made, and only the client at `tid` changed.
  pub new_conn-IsSteady :
      (held : ℕ → Bool) (t : Client out) (conn : ClientConnection) (v w : Served out)
      → w.conns ≡ update_conn v.conns v.fresh_conn conn
      → w.fresh_conn ≡ v.fresh_conn + 1
      → lookup tid w.clients ≡ some t
      → ((u : ℕ) → (u ≡ tid → ⊥) → lookup u w.clients ≡ lookup u v.clients)
      → IsClient out (held tid) w.conns w.fresh_conn t
      → IsSteady out held v
      → IsSteady out held w
  unfolding update_conn
  new_conn-IsSteady held t conn v w conns' next' found' others' new steady u s at =
      elim (Bool-cases (u == tid)) [
        | inl here ↦
            let is_t : u ≡ tid = (==_iff u tid).0 here in
            let same : s ≡ t =
              some-injective _ _ (sym at ∙ ap (λ (i : ℕ). lookup i w.clients) is_t ∙ found') in
            subst (λ (i : ℕ). IsClient out (held i) w.conns w.fresh_conn s) (sym is_t)
              (subst (IsClient out (held tid) w.conns w.fresh_conn) (sym same) new)
        | inr there ↦
            apart-IsClient (held u) conn s v w conns' next'
              (steady u s (sym (others' u (λ e. cc (there, (==_iff u tid).1 e))) ∙ at))
      ]
