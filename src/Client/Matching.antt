-- ===== src/Client/Matching.antt =====
-- The loop over the connections closes those that the test names, in whatever order it goes.
use mathlib.Core.Path.{fun_ext}
use ratbond.Base.{
  ℕ, ◌≡◌, refl, sym, ap, ◌∙◌, inl, inr, Bool, true, false, ◌&&◌, ◌||◌, Option, none, some, List, [],
  ◌∷◌, arith, ◌==◌, if◌then◌else◌, ==_iff, Bool-cases, Option-cases, Dict, lookup, ◌>>◌, Returns,
  returns, Returns-bind, Returns-weaken, Returns-eq, Returns-same, mem,
}
use ratbond.Outside.{Outside}
use ratbond.Client.State.{ServerConnection, State, Server, entries}
use ratbond.Client.Invariant.{Same, Same-refl, IsCoherent, Moves, Moves-trans}
use ratbond.Client.Disconnect.{send_linkdown, close_connection, close_one, close_matching}
use ratbond.Client.Quiet.{send_linkdown-Moves}
use ratbond.Client.Closing.{close_connection-Moves}

module _ (out : Outside) where
  open out use {Circle, members, circle_remove}

  -- Whether the connection that a key leads to is one that the test names.
  abbrev pub hit : (ServerConnection → Bool) → (ℕ → ServerConnection) → Option ℕ → Bool
  hit test h none = false
  hit test h (some p) = test (h p)

  pub Moves-gone :
      (tid : ℕ) (f g : ℕ → Bool) (s : Server out) (w w' : State out)
      → ((j : ℕ) → f j ≡ g j)
      → Moves out tid f s w w'
      → Moves out tid g s w w'
  Moves-gone tid f g s w w' h m = rw (← fun_ext h) m

  pub Moves-refl :
      (tid : ℕ) (s : Server out) (w : State out)
      → lookup tid w.servers ≡ some s
      → IsCoherent out w.heap s
      → Moves out tid (λ _. false) s w w
  Moves-refl tid s w e v = record {
    server = s;
    found = e;
    others = λ _ _. refl;
    lock_kept = refl;
    base_kept = refl;
    same = λ p. Same-refl (w.heap p);
    fresh_kept = refl;
    table = λ _. refl;
    coherent = v;
  }

  only-hit :
      (test : ServerConnection → Bool) (h : ℕ → ServerConnection) (k j : ℕ) (m : Dict ℕ) (b : Bool)
      → hit test h (lookup k m) ≡ b
      → (k == j && hit test h (lookup j m)) ≡ (k == j && b)
  only-hit test h k j m b e = elim (Bool-cases (k == j)) [
    | inl here ↦ rw (here, ap (λ (i : ℕ). hit test h (lookup i m)) (sym ((==_iff k j).0 here)), e)
    | inr there ↦ rw there
  ]

  gone_split :
      (test : ServerConnection → Bool) (h h' : ℕ → ServerConnection) (o o' : Option ℕ)
      (here rest : Bool)
      → ((p : ℕ) → test (h' p) ≡ test (h p))
      → o' ≡ (if here && hit test h o then none else o)
      → (rest && hit test h' o' || here && hit test h o) ≡ ((here || rest) && hit test h o)
  gone_split test h h' none o' here rest same e = ground arith
  gone_split test h h' (some p) o' here rest same e = ground (arith, same p)

  module _ (test : ServerConnection → Bool)
      (stable : (c d : ServerConnection) → Same c d → test d ≡ test c) where
    close_one-Moves :
        (tid k : ℕ) (s : Server out) (w : State out)
        → lookup tid w.servers ≡ some s
        → IsCoherent out w.heap s
        → Returns
            (λ _ w'. Moves out tid (λ j. k == j && hit test w.heap (lookup j (entries s))) s w w')
            (close_one out test tid k w)
    unfolding close_one
    close_one-Moves tid k s w e v = elim (Option-cases (lookup k (entries s))) [
      | inl gone ↦ Returns-eq tt w (ground arith) (
          Moves-gone tid _ _ s w w
            (λ j.
              ground
                (arith, only-hit test w.heap k j (entries s) false (ap (hit test w.heap) gone)))
            (Moves-refl tid s w e v))
      | inr (p, here) ↦ elim (Bool-cases (test (w.heap p))) [
        | inl goes ↦
            Returns-same {o' = (do close_connection out tid p k; send_linkdown out tid k) w}
              (ground arith)
              (Returns-bind (close_connection out tid p k) _ w
                (close_connection-Moves out tid p k s w e here v)
                λ _ u m.
                  Returns-weaken (send_linkdown-Moves out tid k m.server u m.found m.coherent)
                    λ _ w' n.
                      Moves-gone tid _ _ s w w'
                        (λ j. ground (
                          arith,
                          only-hit test w.heap k j (entries s) true
                              (ap (hit test w.heap) here ∙ goes),
                        ))
                        (Moves-trans out tid _ _ s w u w' m n))
        | inr stays ↦ Returns-eq tt w (ground arith) (
            Moves-gone tid _ _ s w w
              (λ j. ground (
                arith,
                only-hit test w.heap k j (entries s) false (ap (hit test w.heap) here ∙ stays),
              ))
              (Moves-refl tid s w e v))
      ]
    ]

    pub close_matching-Moves :
        (tid : ℕ) (ks : List ℕ) (s : Server out) (w : State out)
        → lookup tid w.servers ≡ some s
        → IsCoherent out w.heap s
        → Returns
            (λ _ w'. Moves out tid (λ j. mem j ks && hit test w.heap (lookup j (entries s))) s w w')
            (close_matching out test tid ks w)
    unfolding close_matching
    close_matching-Moves tid [] s w e v = returns (Moves-refl tid s w e v)
    close_matching-Moves tid (k ∷ ks) s w e v =
        Returns-bind (close_one out test tid k) _ w (close_one-Moves tid k s w e v) λ _ u m.
          Returns-weaken (close_matching-Moves tid ks m.server u m.found m.coherent) λ _ w' n.
            Moves-gone tid _ _ s w w'
              (λ j.
                gone_split test w.heap u.heap (lookup j (entries s)) _ (k == j) (mem j ks)
                  (λ p. stable _ _ (m.same p)) (m.table j))
              (Moves-trans out tid _ _ s w u w' m n)
