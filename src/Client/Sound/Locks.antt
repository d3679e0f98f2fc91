-- ===== src/Client/Sound/Locks.antt =====
-- Writing a server, and taking and freeing its mutex.
use ratbond.Outside.{Outside}
use ratbond.Client.State.{ServerConnection, State, Server, read_server, write_server, lock, unlock}
use ratbond.Client.Sound.{Safe-same, none_held, one_held, IsTunnel, IsSound, Soundly, subst}
use ratbond.Base.{
  ℕ, ◌≡◌, refl, sym, ◌≢◌, inl, inr, Bool, true, false, arith, ==_iff, ==_refl, Option-cases, lookup,
  insert, nil_deref, done, fault, ◌>>=◌, insert-cases,
}

module _ (out : Outside) where
  -- Another server, with what must hold of it.
  pub write-IsSound :
      (before after : ℕ → Bool) (tid : ℕ) (s : Server out) (w : State out)
      → ((t : ℕ) → t ≢ tid → after t ≡ before t)
      → IsTunnel out (after tid) w.heap w.fresh s
      → IsSound out before w
      → IsSound out after (record w { servers = insert tid s w.servers })
  write-IsSound before after tid s w others new sound t s' at =
      elim (insert-cases tid t s s' w.servers at) [
        | inl (here, same) ↦
            subst (λ (i : ℕ). IsTunnel out (after i) w.heap w.fresh s') here
              (subst (λ (x : Server out). IsTunnel out (after tid) w.heap w.fresh x) same new)
        | inr (away, there) ↦
            subst (λ (b : Bool). IsTunnel out b w.heap w.fresh s')
              (sym (others t (λ e. away (sym e)))) (sound t s' there)
      ]

  -- The same map and circle.
  pub fields-IsTunnel :
      (b b' : Bool) (h : ℕ → ServerConnection) (f : ℕ) (s t : Server out)
      → t.connections ≡ s.connections
      → t.consistent ≡ s.consistent
      → t.locked ≡ b'
      → IsTunnel out b h f s
      → IsTunnel out b' h f t
  fields-IsTunnel b b' h f s t same names' lock' tunnel = record {
    lock_is = lock';
    coherent = record {
      known = λ k p e. tunnel.coherent.known k p (rw same at e);
      named = λ name on. rw same (tunnel.coherent.named name (rw names' at on));
      placed = λ k p e. rw names' (tunnel.coherent.placed k p (rw same at e));
    };
    below = λ k p e. tunnel.below k p (rw same at e);
  }

  -- A server that is read, changed and written back.
  pub rewrite-Soundly :
      (before after : ℕ → Bool) (tid : ℕ) (f : Server out → Server out)
      → ((t : ℕ) → t ≢ tid → after t ≡ before t)
      → ((s : Server out) (h : ℕ → ServerConnection) (n : ℕ)
          → IsTunnel out (before tid) h n s
          → IsTunnel out (after tid) h n (f s))
      → Soundly out before after (do s ← read_server out tid; write_server out tid (f s))
  unfolding Soundly
  rewrite-Soundly before after tid f others new w sound =
      elim (Option-cases (lookup tid w.servers)) [
        | inl gone ↦
            Safe-same (λ _ v. IsSound out after v) _ (fault nil_deref w) (ground arith) (λ e. cc e)
        | inr (s, found) ↦
            Safe-same (λ _ v. IsSound out after v) _
              (done tt (record w { servers = insert tid (f s) w.servers })) (ground arith)
              (write-IsSound before after tid (f s) w others
                (new s w.heap w.fresh (sound tid s found)) sound)
      ]

  pub unlock-Soundly : (tid : ℕ) → Soundly out (one_held tid) none_held (unlock out tid)
  unfolding unlock
  unlock-Soundly tid =
      rewrite-Soundly (one_held tid) none_held tid (λ s. record s { locked = false })
        (λ t ne. ground (arith, ==_iff tid t))
        λ s h n tunnel. fields-IsTunnel (one_held tid tid) false h n s _ refl refl refl tunnel

  -- A mutex that is free is taken; that of no tunnel is a panic.
  pub lock-Soundly : (tid : ℕ) → Soundly out none_held (one_held tid) (lock out tid)
  unfolding Soundly lock
  lock-Soundly tid w sound = elim (Option-cases (lookup tid w.servers)) [
    | inl gone ↦
        Safe-same (λ _ v. IsSound out (one_held tid) v) (lock out tid w) (fault nil_deref w)
          (ground arith) (λ e. cc e)
    | inr (s, found) ↦
        let t : Server out = record s { locked = true } in
        let tunnel = sound tid s found in
        let free : s.locked ≡ false = tunnel.lock_is in
        Safe-same (λ _ v. IsSound out (one_held tid) v) (lock out tid w)
          (done tt (record w { servers = insert tid t w.servers })) (ground arith)
          (write-IsSound none_held (one_held tid) tid t w (λ u ne. ground (arith, ==_iff tid u))
            (fields-IsTunnel false (one_held tid tid) w.heap w.fresh s t refl refl
              (sym (==_refl tid)) tunnel)
            sound)
  ]
