-- ===== src/Server/Sound/Locks.antt =====
-- The mutex of a client, its disconnection, and the scheduler.
use ratbond.Client.Choose.{round_robin}
use ratbond.Outside.{Outside}
use ratbond.Packet.Flow.{extract_dst}
use ratbond.Client.Sound.{Safe-same, Safe-weaken, Returns-Safe, none_held, one_held}
use ratbond.Client.Sound.Steps.{next_call-Quietly}
use ratbond.Client.State.{next_call}
use ratbond.Server.Choose.{server_choose_hashed, server_choose_next, server_choose}
use ratbond.Server.Disconnect.{server_disconnect_by_convid}
use ratbond.Server.Invariant.{Drops}
use ratbond.Server.State.{
  client_entries, Served, Client, process, read_client, lock_client, unlock_client, range_convids,
}
use ratbond.Server.Sound.{
  IsSteady, Steadily, Calmly, Calmly-bind, Calmly-Steadily, Drops-IsSteady, if-Steadily,
  option-Calmly,
}
use ratbond.Server.Disconnected.{server_disconnect-Drops}
use ratbond.Server.Sound.Steps.{
  pure-Calmly, stop-Calmly, process-Calmly, read_client-Calmly, Steady, calm, seq, write-IsSteady,
  fields-IsClient, rewrite_then,
}
use ratbond.Base.{
  ℕ, ◌+◌, ◌≡◌, refl, sym, inl, inr, true, false, Option, none, some, List, arith, ◌==◌, ==_iff,
  ==_refl, Option-cases, lookup, insert, keys, nil_deref, done, fault, pure,
}

module _ (out : Outside) where
  pub unlock-Steadily : (tid : ℕ) → Steadily out (one_held tid) none_held (unlock_client out tid)
  unfolding unlock_client
  unlock-Steadily tid =
      rewrite_then out (one_held tid) none_held none_held tid (λ s. record s { locked = false })
        (λ r. pure r) (λ t ne. ground (arith, ==_iff tid t))
        (λ s h n client. fields-IsClient out (one_held tid tid) false h n s _ refl refl refl client)
        (Calmly-Steadily out none_held (pure tt) (pure-Calmly out tt))

  pub lock-Steadily : (tid : ℕ) → Steadily out none_held (one_held tid) (lock_client out tid)
  unfolding Steadily lock_client
  lock-Steadily tid w steady = elim (Option-cases (lookup tid w.clients)) [
    | inl gone ↦
        Safe-same (λ _ v. IsSteady out (one_held tid) v) (lock_client out tid w) (fault nil_deref w)
          (ground arith) (λ e. cc e)
    | inr (s, found) ↦
        let t : Client out = record s { locked = true } in
        let client = steady tid s found in
        let free : s.locked ≡ false = client.lock_is in
        Safe-same (λ _ v. IsSteady out (one_held tid) v) (lock_client out tid w)
          (done tt (record w { clients = insert tid t w.clients })) (ground arith)
          (write-IsSteady out none_held (one_held tid) tid t w
            (λ u ne. ground (arith, ==_iff tid u))
            (fields-IsClient out false (one_held tid tid) w.conns w.fresh_conn s t refl refl
              (sym (==_refl tid)) client)
            steady)
  ]

  unknown_client :
      (tid d : ℕ) (w : Served out)
      → lookup tid w.clients ≡ none
      → server_disconnect_by_convid out tid d w ≡ done tt w
  unfolding server_disconnect_by_convid
  unknown_client tid d w gone = ground arith

  pub disconnect-Steadily : (tid d : ℕ) → Steady out (server_disconnect_by_convid out tid d)
  unfolding Steadily
  disconnect-Steadily tid d w steady = elim (Option-cases (lookup tid w.clients)) [
    | inl gone ↦
        Safe-same (λ _ v. IsSteady out none_held v) _ (done tt w) (unknown_client tid d w gone)
          steady
    | inr (s, found) ↦
        let client = steady tid s found in
        Safe-weaken (λ _ v. Drops out tid (λ j. j == d) s w v) (λ _ v. IsSteady out none_held v)
          (server_disconnect_by_convid out tid d w)
          (Returns-Safe
            (server_disconnect-Drops out tid d s w found client.lock_is client.coherent))
          λ _ v m. Drops-IsSteady out tid _ s w v found m steady
  ]

  pub range-Calmly : (tid : ℕ) → Calmly out (range_convids out tid)
  unfolding range_convids
  range-Calmly tid = Calmly-bind out (read_client out tid) _ (read_client-Calmly out tid) λ s.
      Calmly-bind out (process out (next_call out)) _
        (process-Calmly out (next_call out) (next_call-Quietly out)) λ n. pure-Calmly out _

  -- The scheduler writes back the client that it read, with another last convid.
  next_write :
      (tid : ℕ) (w : Served out) (s : Client out)
      → lookup tid w.clients ≡ some s
      → let v : Served out = record w {
        process = record w.process { calls = w.process.calls + 1 };
      } in
        let k =
          round_robin
            (λ p. (w.conns p).alive)
            (client_entries s)
            s.last_convid
            0
            (out.range w.process.calls (keys (client_entries s))) in
        server_choose_next out tid w
        ≡ done k (record v { clients = insert tid (record s { last_convid = k }) v.clients })
  unfolding server_choose_next
  next_write tid w s found = ground arith

  next_unknown :
      (tid : ℕ) (w : Served out)
      → lookup tid w.clients ≡ none
      → server_choose_next out tid w ≡ fault nil_deref w
  unfolding server_choose_next
  next_unknown tid w gone = ground arith

  choose_next-Steadily : (tid : ℕ) → Steady out (server_choose_next out tid)
  unfolding Steadily
  choose_next-Steadily tid w steady = elim (Option-cases (lookup tid w.clients)) [
    | inl gone ↦
        Safe-same (λ _ v. IsSteady out none_held v) _ (fault nil_deref w) (next_unknown tid w gone)
          (λ e. cc e)
    | inr (s, found) ↦
        let v : Served out = record w {
          process = record w.process { calls = w.process.calls + 1 };
        } in
        let k =
          round_robin (λ p. (w.conns p).alive) (client_entries s) s.last_convid 0
            (out.range w.process.calls (keys (client_entries s))) in
        let t : Client out = record s { last_convid = k } in
        Safe-same (λ _ u. IsSteady out none_held u) _
          (done k (record v { clients = insert tid t v.clients })) (next_write tid w s found)
          (write-IsSteady out none_held none_held tid t v (λ u ne. refl)
            (fields-IsClient out false false w.conns w.fresh_conn s t refl refl
              (steady tid s found).lock_is (steady tid s found))
            steady)
  ]

  hashed-Calmly :
      (tid : ℕ) (packet : List ℕ) (len : ℕ) → Calmly out (server_choose_hashed out tid packet len)
  unfolding server_choose_hashed
  hashed-Calmly tid packet len =
      Calmly-bind out _ _
        (option-Calmly out (extract_dst out.parse_header packet len) _ _
          (stop-Calmly out _ nil_deref (λ e. cc e)) λ t. pure-Calmly out t)
        λ key. Calmly-bind out (read_client out tid) _ (read_client-Calmly out tid) λ s.
          Calmly-bind out _ _
            (option-Calmly out s.consistent _ _ (stop-Calmly out _ nil_deref (λ e. cc e))
              λ c. pure-Calmly out c)
            λ circle. pure-Calmly out _

  pub choose-Steadily :
      (tid : ℕ) (packet : Option (List ℕ × ℕ)) → Steady out (server_choose out tid packet)
  unfolding server_choose
  choose-Steadily tid none =
      seq out (server_choose_next out tid) _ (choose_next-Steadily tid)
        λ k. calm out _ (pure-Calmly out (some k))
  choose-Steadily tid (some (packet, len)) =
      if-Steadily out none_held none_held out.options.use_consistent_hashing _ _
        (calm out _ (hashed-Calmly tid packet len))
        (seq out (server_choose_next out tid) _ (choose_next-Steadily tid)
          λ k. calm out _ (pure-Calmly out (some k)))
