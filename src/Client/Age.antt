-- ===== src/Client/Age.antt =====
-- client_send_server_pings: what it does to a connection, by the age of its last hello.
use ratbond.Client.Ping.{max_hello, update_bandwidth, ping_one}
use ratbond.Client.Disconnect.{disconnect_by_convid}
use ratbond.Client.Invariant.{IsCoherent, Moves}
use ratbond.Client.Disconnected.{disconnect_by_convid-Moves}
use native.Mathlib.Decide.{dec_lt}
use ratbond.Base.{
  ℕ, ◌+◌, ◌-◌, ◌≤◌, ◌<◌, ◌≡◌, refl, ap, ◌≢◌, ◌⊎◌, inl, inr, false, some, ◌∷◌, arith, ◌==◌, ==_iff,
  ==_refl, lookup, done, Returns, Returns-eq, Returns-same,
}
use ratbond.Outside.{Outside}
use ratbond.Client.State.{RatSession, starts_hello, entries, update, State, Server}

module _ (out : Outside) (tid k p : ℕ) (s : Server out) (w : State out) where
  open out use {now}

  -- A connection of a coherent table whose last hello is more than five seconds old leaves the
  -- table, if the mutex is free: the ping returns, that one connection has left the table, every other one and
  -- every other tunnel is left, the table is coherent and the mutex is free.
  ping_one-stale :
      lookup tid w.servers ≡ some s
      → s.locked ≡ false
      → s.base_convid ≡ tid
      → IsCoherent out w.heap s
      → lookup k (entries s) ≡ some p
      → max_hello < now w.calls - (w.heap p).last_hello
      → Returns
          (λ _ w'. Moves out tid (λ j. j == k) s (record w { calls = w.calls + 1 }) w')
          (ping_one out tid k w)
  unfolding ping_one
  ping_one-stale found free base c here old =
      let v : State out = record w { calls = w.calls + 1 } in
      let own : (w.heap p).convid ≡ k = (c.known k p here).0 in
      Returns-same {o' = disconnect_by_convid out tid k v} (ground arith)
        (disconnect_by_convid-Moves out tid s v k found free c)

  -- A younger connection with a session stays: a hello is sent to it, its rates are computed, its
  -- byte counts start again, and nothing else changes.
  ping_one-fresh :
      (session : RatSession)
      → lookup tid w.servers ≡ some s
      → lookup k (entries s) ≡ some p
      → (w.heap p).session ≡ some session
      → now w.calls - (w.heap p).last_hello ≤ max_hello
      → ping_one out tid k w
        ≡ done tt (record w {
          heap = update w.heap p (update_bandwidth out (now w.calls) (w.heap p));
          calls = w.calls + 1;
          trace = starts_hello s.base_convid p ∷ w.trace;
        })
  unfolding ping_one
  ping_one-fresh session found here live young = ground arith

  -- A connection that was pinged: its byte counts start again, a hello was started on it, and every
  -- table and every other connection is as before.
  pub record Pings (w' : State out) : Type 0 where
    pub servers_kept : w'.servers ≡ w.servers
    pub sent_again : (w'.heap p).txbytes ≡ 0
    pub received_again : (w'.heap p).rxbytes ≡ 0
    pub session_kept : (w'.heap p).session ≡ (w.heap p).session
    pub hello_kept : (w'.heap p).last_hello ≡ (w.heap p).last_hello
    pub rest_kept : (q : ℕ) → q ≢ p → w'.heap q ≡ w.heap q
    pub greeted : w'.trace ≡ starts_hello tid p ∷ w.trace

  pinged :
      s.base_convid ≡ tid
      → Pings (record w {
        heap = update w.heap p (update_bandwidth out (now w.calls) (w.heap p));
        calls = w.calls + 1;
        trace = starts_hello s.base_convid p ∷ w.trace;
      })
  unfolding update update_bandwidth
  pinged base = record {
    servers_kept = refl;
    sent_again = ground (arith, ==_refl p);
    received_again = ground (arith, ==_refl p);
    session_kept = ground (arith, ==_refl p);
    hello_kept = ground (arith, ==_refl p);
    rest_kept = λ q ne. ground (arith, ==_iff p q);
    greeted = ap (λ b. starts_hello b p ∷ w.trace) base;
  }

  -- client_send_server_pings on a connection with a session, of a coherent table whose mutex is free.
  -- If its last hello is more than five seconds old, the ping returns, and exactly this connection
  -- has left the table, every other tunnel is left, the table is coherent and the mutex is free. If
  -- not, the ping returns, every table is as before, a hello was started on the connection, its byte
  -- counts are 0, its session and last hello are kept, and so is every other connection.
  pub ping_one-by_age :
      (session : RatSession)
      → lookup tid w.servers ≡ some s
      → s.locked ≡ false
      → s.base_convid ≡ tid
      → IsCoherent out w.heap s
      → lookup k (entries s) ≡ some p
      → (w.heap p).session ≡ some session
      → ((max_hello < now w.calls - (w.heap p).last_hello)
          × Returns
              (λ _ w'. Moves out tid (λ j. j == k) s (record w { calls = w.calls + 1 }) w')
              (ping_one out tid k w))
        ⊎ ((now w.calls - (w.heap p).last_hello ≤ max_hello)
            × Returns (λ _ w'. Pings w') (ping_one out tid k w))
  ping_one-by_age session found free base c here live =
      elim (dec_lt max_hello (now w.calls - (w.heap p).last_hello)) [
        | yes old ↦ inl (old, ping_one-stale found free base c here old)
        | no recent ↦
            let young : now w.calls - (w.heap p).last_hello ≤ max_hello = omega (arith, recent) in
            inr
              (young, Returns-eq tt _ (ping_one-fresh session found here live young) (pinged base))
      ]
