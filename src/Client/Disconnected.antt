-- ===== src/Client/Disconnected.antt =====
-- The three ways to disconnect, as a whole: the mutex, the loop over all connections, the mutex.
use ratbond.Base.{
  ℕ, ◌+◌, ◌≡◌, sym, ap, ◌∙◌, inl, inr, Bool, true, false, ◌&&◌, none, some, arith, ◌==◌,
  if◌then◌else◌, Option-cases, Text, text_eq, Dict, lookup, insert, keys, Elem-keys, nil_deref,
  done, fault, Returns, Returns-weaken, Returns-done, lookup-insert_self, lookup-insert_ne,
  Returns-eq, Returns-same, mem, Elem-mem,
}
use ratbond.Outside.{Outside}
use ratbond.Client.State.{ServerConnection, entries, State, Server}
use ratbond.Client.Invariant.{IsCoherent, Same, Moves}
use ratbond.Client.Disconnect.{
  disconnect_matching, disconnect_by_ifname, disconnect_by_src, disconnect_by_convid,
  close_matching,
}
use ratbond.Client.Matching.{hit, close_matching-Moves}

module _ (out : Outside) where
  open out use {range, range-Elem}

  disconnect-eq :
      (test : ServerConnection → Bool) (tid : ℕ) (s t : Server out) (w u : State out)
      → lookup tid w.servers ≡ some s
      → s.locked ≡ false
      → let held : State out = record w {
        servers = insert tid (record s { locked = true }) w.servers;
        calls = w.calls + 1;
      } in
        close_matching out test tid (range w.calls (keys (entries s))) held ≡ done tt u
        → lookup tid u.servers ≡ some t
        → disconnect_matching out test tid w
          ≡ done tt (record u { servers = insert tid (record t { locked = false }) u.servers })
  unfolding disconnect_matching
  disconnect-eq test tid s t w u e free runs' after =
      ground (arith, lookup-insert_self tid (record s { locked = true }) w.servers)

  locked-IsCoherent :
      (h : ℕ → ServerConnection) (s : Server out) (b : Bool)
      → IsCoherent out h s
      → IsCoherent out h (record s { locked = b })
  locked-IsCoherent h s b c = record { known = c.known; named = c.named; placed = c.placed }

  all-visited :
      (test : ServerConnection → Bool) (h : ℕ → ServerConnection) (n : ℕ) (m : Dict ℕ) (j : ℕ)
      → (mem j (range n (keys m)) && hit out test h (lookup j m)) ≡ hit out test h (lookup j m)
  all-visited test h n m j = elim (Option-cases (lookup j m)) [
    | inl gone ↦ rw gone (ground arith)
    | inr (p, here) ↦
        rw (Elem-mem j (range n (keys m)) ((range-Elem n (keys m) j).1 (Elem-keys j p m here)))
  ]

  -- A disconnection returns, with the mutex free again, and has taken from the table exactly the
  -- connections that the test names.
  pub disconnect_matching-Moves :
      (test : ServerConnection → Bool)
      (stable : (c d : ServerConnection) → Same c d → test d ≡ test c) (tid : ℕ) (s : Server out)
      (w : State out)
      → lookup tid w.servers ≡ some s
      → s.locked ≡ false
      → IsCoherent out w.heap s
      → Returns
          (λ _ w'. Moves out tid (λ j. hit out test w.heap (lookup j (entries s))) s w w')
          (disconnect_matching out test tid w)
  disconnect_matching-Moves test stable tid s w e free c =
      let sl : Server out = record s { locked = true } in
      let held : State out = record w { servers = insert tid sl w.servers; calls = w.calls + 1 } in
      let (_, u, runs', m) = Returns-done (
        close_matching-Moves out test stable tid (range w.calls (keys (entries s))) sl held
          (lookup-insert_self tid sl w.servers) (locked-IsCoherent w.heap s true c)) in
      Returns-eq tt _ (disconnect-eq test tid s m.server w u e free runs' m.found) (record {
        server = record m.server { locked = false };
        found = lookup-insert_self tid _ u.servers;
        others = λ t ne.
            lookup-insert_ne tid t _ u.servers ne
            ∙ m.others t ne
            ∙ lookup-insert_ne tid t sl w.servers ne;
        lock_kept = sym free;
        base_kept = m.base_kept;
        same = m.same;
        fresh_kept = m.fresh_kept;
        table = λ j. rw (← all-visited test w.heap w.calls (entries s) j) (m.table j);
        coherent = locked-IsCoherent u.heap m.server false m.coherent;
      })

  hit-convid :
      (d : ℕ) (h : ℕ → ServerConnection) (s : Server out) (j : ℕ)
      → IsCoherent out h s
      → (if hit out (λ c. c.convid == d) h (lookup j (entries s))
          then none
          else lookup j (entries s))
        ≡ (if j == d then none else lookup j (entries s))
  hit-convid d h s j c = elim (Option-cases (lookup j (entries s))) [
    | inl gone ↦ rw gone (ground arith)
    | inr (p, here) ↦ rw (here, (c.known j p here).0)
  ]

  module _ (tid : ℕ) (s : Server out) (w : State out) where
    -- client_disconnect_session_by_convid, on a tunnel that exists, is coherent and whose mutex is
    -- free, returns; it takes the one connection with that convid from the table, if there is one,
    -- leaves every other entry and every other tunnel, keeps the table coherent and frees the mutex.
    pub disconnect_by_convid-Moves :
        (d : ℕ)
        → lookup tid w.servers ≡ some s
        → s.locked ≡ false
        → IsCoherent out w.heap s
        → Returns (λ _ w'. Moves out tid (λ j. j == d) s w w') (disconnect_by_convid out tid d w)
    unfolding disconnect_by_convid
    disconnect_by_convid-Moves d e free c =
        Returns-weaken
          (disconnect_matching-Moves (λ c. c.convid == d)
            (λ c d' q. ap (λ (x : ℕ). x == d) q.convid_kept) tid s w e free c)
          λ _ w' m. record {
            server = m.server;
            found = m.found;
            others = m.others;
            lock_kept = m.lock_kept;
            base_kept = m.base_kept;
            same = m.same;
            fresh_kept = m.fresh_kept;
            table = λ j. m.table j ∙ hit-convid d w.heap s j c;
            coherent = m.coherent;
          }

    -- client_disconnect_session_by_src, on a tunnel that exists, is coherent and whose mutex is
    -- free, returns; it takes exactly the connections from that source address from the table, leaves
    -- every other entry and every other tunnel, keeps the table coherent and frees the mutex.
    pub disconnect_by_src-Moves :
        (src : Text)
        → lookup tid w.servers ≡ some s
        → s.locked ≡ false
        → IsCoherent out w.heap s
        → Returns
            (λ _ w'.
              Moves out tid
                (λ j. hit out (λ c. text_eq c.src_address src) w.heap (lookup j (entries s)))
                s
                w
                w')
            (disconnect_by_src out tid src w)
    unfolding disconnect_by_src
    disconnect_by_src-Moves src e free c =
        disconnect_matching-Moves (λ c. text_eq c.src_address src)
          (λ c d q. ap (λ x. text_eq x src) q.src_kept) tid s w e free c

    -- client_disconnect_session_by_ifname, on a tunnel that exists, is coherent and whose mutex is
    -- free, returns; it takes exactly the connections of that interface from the table, leaves
    -- every other entry and every other tunnel, keeps the table coherent and frees the mutex.
    pub disconnect_by_ifname-Moves :
        (ifname : Text)
        → lookup tid w.servers ≡ some s
        → s.locked ≡ false
        → IsCoherent out w.heap s
        → Returns
            (λ _ w'.
              Moves out tid
                (λ j. hit out (λ c. text_eq c.ifname ifname) w.heap (lookup j (entries s)))
                s
                w
                w')
            (disconnect_by_ifname out tid ifname w)
    unfolding disconnect_by_ifname
    disconnect_by_ifname-Moves ifname e free c =
        Returns-same {o' = disconnect_matching out (λ c. text_eq c.ifname ifname) tid w}
          (ground arith)
          (disconnect_matching-Moves (λ c. text_eq c.ifname ifname)
            (λ c d q. ap (λ x. text_eq x ifname) q.ifname_kept) tid s w e free c)

  -- For a tunnel that is not in the table, disconnecting by interface returns and changes nothing,
  -- while by source address and by convid, which also report the missing tunnel, panic on it.
  pub disconnect_unknown :
      (tid : ℕ) (t : Text) (d : ℕ) (w : State out)
      → lookup tid w.servers ≡ none
      → (disconnect_by_ifname out tid t w ≡ done tt w)
        × (disconnect_by_src out tid t w ≡ fault nil_deref w)
        × (disconnect_by_convid out tid d w ≡ fault nil_deref w)
  unfolding disconnect_by_ifname disconnect_by_src disconnect_by_convid
  disconnect_unknown tid t d w e = ground arith
