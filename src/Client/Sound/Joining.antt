-- ===== src/Client/Sound/Joining.antt =====
-- The new entry that client_connect_server makes under the mutex.
use ratbond.Client.Opening.{dial}
use ratbond.Outside.{Outside, Connected, unresolved, refused, connected, Handles}
use ratbond.Client.Connect.{add_connection}
use ratbond.Client.Invariant.{IsCoherent}
use ratbond.Client.State.{ServerConnection, entries, update, State, Server}
use ratbond.Client.Sound.{
  reason, reason-Safe, one_held, IsTunnel, IsSound, Soundly, subst, some-injective, Safe-same,
}
use ratbond.Client.Adding.{added, added-IsCoherent, add_connection-eq}
use ratbond.Client.Refines.{ends}
use ratbond.Base.{
  ℕ, ◌+◌, ◌^◌, ◌≤◌, ◌<◌, ◌≡◌, refl, sym, ap, ◌∙◌, ◌≢◌, ◌⊎◌, inl, inr, Bool, true, none, some, arith,
  ◌==◌, ==_iff, Bool-cases, Option-cases, Text, lookup, insert, Fault, nil_deref, panic, deadlock,
  done, lookup-insert_self, insert-cases,
}

Connected-cases :
    (x : Connected) → (x ≡ unresolved) ⊎ ((x ≡ refused) ⊎ ((h : Handles) × (x ≡ connected h)))
Connected-cases unresolved = inl refl
Connected-cases refused = inr (inl refl)
Connected-cases (connected h) = inr (inr (h, refl))

module _ (out : Outside) where
  -- A tunnel whose connections are as before.
  apart-IsTunnel :
      (b : Bool) (h h' : ℕ → ServerConnection) (f f' : ℕ) (s : Server out)
      → ((p : ℕ) → p < f → h' p ≡ h p)
      → f ≤ f'
      → IsTunnel out b h f s
      → IsTunnel out b h' f' s
  apart-IsTunnel b h h' f f' s same up t = record {
    lock_is = t.lock_is;
    coherent = record {
      known = λ k p e. rw (same p (t.below k p e)) (t.coherent.known k p e);
      named = t.coherent.named;
      placed = t.coherent.placed;
    };
    below = λ k p e. omega (arith, t.below k p e, up);
  }

  module _ (tid k : ℕ) (s : Server out) (c : out.Circle) (w w' : State out)
      (conn : ServerConnection) (sound : IsSound out (one_held tid) w)
      (found : lookup tid w.servers ≡ some s) (circle : s.consistent ≡ some c) (pos : 0 < k)
      (small : k < 2 ^ 32) (own : conn.convid ≡ k) (live : conn.alive ≡ true)
      (heap' : w'.heap ≡ update w.heap w.fresh conn)
      (found' : lookup tid w'.servers ≡ some (added out k w.fresh s (entries s) c))
      (others' : (u : ℕ) → (u ≡ tid → ⊥) → lookup u w'.servers ≡ lookup u w.servers)
      (next' : w'.fresh ≡ w.fresh + 1) where
    new-IsTunnel :
        IsTunnel out (one_held tid tid) w'.heap w'.fresh (added out k w.fresh s (entries s) c)
    new-IsTunnel =
        let t = sound tid s found in
        record {
          lock_is = t.lock_is;
          coherent =
              subst (λ h. IsCoherent out h (added out k w.fresh s (entries s) c)) (sym heap')
                (added-IsCoherent out k w.fresh s (entries s) c w.heap conn refl circle t.coherent
                  (λ j q e same. omega (arith, t.below j q e, same)) own live small pos);
          below = λ j q e. elim (insert-cases k j w.fresh q (entries s) e) [
            | inl (here, same) ↦ omega (arith, same, next')
            | inr (away, there) ↦ omega (arith, t.below j q there, next')
          ];
        }

    off_new : (p : ℕ) → p < w.fresh → w'.heap p ≡ w.heap p
    unfolding update
    off_new p lt = ap (λ h. h p) heap' ∙ ground (arith, ==_iff w.fresh p)

    entered-IsSound : IsSound out (one_held tid) w'
    entered-IsSound t s' at = elim (Bool-cases (t == tid)) [
      | inl here ↦
          let is_t : t ≡ tid = (==_iff t tid).0 here in
          let is_new : s' ≡ added out k w.fresh s (entries s) c =
            some-injective _ _ (sym at ∙ ap (λ (i : ℕ). lookup i w'.servers) is_t ∙ found') in
          subst (λ (i : ℕ). IsTunnel out (one_held tid i) w'.heap w'.fresh s') (sym is_t)
            (subst (IsTunnel out (one_held tid tid) w'.heap w'.fresh) (sym is_new) new-IsTunnel)
      | inr there ↦
          apart-IsTunnel (one_held tid t) w.heap w'.heap w.fresh w'.fresh s' off_new
            (omega (arith, next'))
            (sound t s' (sym (others' t (λ e. cc (there, (==_iff t tid).1 e))) ∙ at))
    ]

  module _ (tid k : ℕ) (src ifname ip : Text) (s : Server out) (w : State out)
      (found : lookup tid w.servers ≡ some s) (pos : 0 < k) where
    -- A session that does not open ends the process.
    not_opened :
        (dial out src (w.calls + 1 + 1 + 1) k ≡ unresolved)
          ⊎ (dial out src (w.calls + 1 + 1 + 1) k ≡ refused)
        → (e : Fault) × (reason (add_connection out tid k src ifname ip w) ≡ some e)
          × (e ≢ deadlock)
    unfolding add_connection
    not_opened (inl no_address) = (panic, ground arith, λ e. cc e)
    not_opened (inr no_session) = (nil_deref, ground arith, λ e. cc e)

    no_circle :
        (x : Handles)
        → dial out src (w.calls + 1 + 1 + 1) k ≡ connected x
        → s.consistent ≡ none
        → reason (add_connection out tid k src ifname ip w) ≡ some nil_deref
    unfolding add_connection
    no_circle x opens none_there = ground (
      arith,
      lookup-insert_self tid
          (record s { last_convid = 0; connections = some (insert k w.fresh (entries s)) })
          w.servers,
    )

  no_tunnel :
      (tid k : ℕ) (src ifname ip : Text) (w : State out)
      → lookup tid w.servers ≡ none
      → reason (add_connection out tid k src ifname ip w) ≡ some nil_deref
  unfolding add_connection
  no_tunnel tid k src ifname ip w gone = ground arith

  pub add_connection-Soundly :
      (tid k : ℕ) (src ifname ip : Text)
      → 0 < k
      → k < 2 ^ 32
      → Soundly out (one_held tid) (one_held tid) (add_connection out tid k src ifname ip)
  unfolding Soundly
  add_connection-Soundly tid k src ifname ip pos small w sound =
      elim (Option-cases (lookup tid w.servers)) [
        | inl gone ↦ reason-Safe _ _ nil_deref (no_tunnel tid k src ifname ip w gone) (λ e. cc e)
        | inr (s, found) ↦ elim (Connected-cases (dial out src (w.calls + 1 + 1 + 1) k)) [
          | inl no_address ↦
              let (e, ends, ne) = not_opened tid k src ifname ip s w found pos (inl no_address) in
              reason-Safe _ _ e ends ne
          | inr (inl no_session) ↦
              let (e, ends, ne) = not_opened tid k src ifname ip s w found pos (inr no_session) in
              reason-Safe _ _ e ends ne
          | inr (inr (x, opens)) ↦ elim (Option-cases s.consistent) [
            | inl none_there ↦
                reason-Safe _ _ nil_deref
                  (no_circle tid k src ifname ip s w found pos x opens none_there) (λ e. cc e)
            | inr (c, circle) ↦
                let (
                  w', conn, runs', heap', own, live, session', found', others', by_src, by_if,
                  next',
                ) =
                  add_connection-eq out tid k src ifname ip s (entries s) c x w found refl circle
                    pos opens in
                Safe-same (λ _ v. IsSound out (one_held tid) v) _ (done w.fresh w') runs'
                  (entered-IsSound tid k s c w w' conn sound found circle pos small own live heap'
                    found' others' next')
          ]
        ]
      ]
