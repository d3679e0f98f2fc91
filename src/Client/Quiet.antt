-- ===== src/Client/Quiet.antt =====
-- The LINKDOWN message changes counters only, whatever becomes of its write.
use mathlib.Core.Path.{subst}
use ratbond.Base.{
  ℕ, ◌+◌, ◌≡◌, refl, ◌∙◌, ◌⊎◌, inl, inr, Bool, false, Option, none, some, List, ◌∷◌, arith, ◌==◌,
  ==_iff, Bool-cases, Option-cases, lookup, Returns, returns, Returns-bind, Returns-weaken,
  Returns-eq, Returns-same,
}
use ratbond.Outside.{Outside, Written, written, timed_out, failed}
use ratbond.Packet.Wire.{linkdown_message}
use ratbond.Client.State.{
  Effect, ServerConnection, State, Server, entries, update, write_deadline, kcp_writes, u64,
}
use ratbond.Client.Choose.{choose}
use ratbond.Client.Invariant.{Same, Same-refl, Same-trans, IsCoherent, Moves, choose_next-Moves}
use ratbond.Client.Disconnect.{linkdown_by, send_by, send_linkdown, write_deadline_ms}

Written-cases : (r : Written) → (r ≡ written) ⊎ ((r ≡ timed_out) ⊎ (r ≡ failed))
Written-cases written = inl refl
Written-cases timed_out = inr (inl refl)
Written-cases failed = inr (inr refl)

pub update-Same :
    (h : ℕ → ServerConnection) (p : ℕ) (c : ServerConnection)
    → Same (h p) c
    → (q : ℕ) → Same (h q) (update h p c q)
unfolding update
update-Same h p c s q = elim (Bool-cases (p == q)) [
  | inl here ↦ rw here (subst (λ r. Same (h r) c) ((==_iff p q).0 here) s)
  | inr there ↦ rw there (Same-refl (h q))
]

module _ (out : Outside) where
  open out use {Circle, members, circle_remove}

  -- Neither the servers nor the identity of a connection change.
  pub record IsQuiet (w w' : State out) : Type 0 where
    pub servers_kept : w'.servers ≡ w.servers
    pub heap_same : (q : ℕ) → Same (w.heap q) (w'.heap q)
    pub fresh_kept : w'.fresh ≡ w.fresh

  send_by-IsQuiet : (p d : ℕ) (w : State out) → Returns (λ _ w'. IsQuiet w w') (send_by out p d w)
  unfolding send_by
  send_by-IsQuiet p d w = elim (Option-cases (w.heap p).session) [
    | inl nil ↦
        Returns-eq tt w (ground arith)
          (record { servers_kept = refl; heap_same = λ q. Same-refl _; fresh_kept = refl })
    | inr (s, live) ↦
        let sent : List Effect =
          kcp_writes s.kcp (linkdown_message d)
          ∷ write_deadline s.kcp write_deadline_ms
          ∷ w.trace in
        let v : State out = record w { calls = w.calls + 1; trace = sent } in
        let c : ServerConnection = w.heap p in
        elim (Written-cases (out.kcp_write w.calls)) [
          | inl good ↦
              let c' : ServerConnection = record c {
                txcounter = u64 (c.txcounter + 1);
                txbytes = u64 (c.txbytes + 2);
              } in
              Returns-eq tt (record v { heap = update w.heap p c' }) (ground arith)
                (record {
                  servers_kept = refl;
                  fresh_kept = refl;
                  heap_same = update-Same w.heap p c' (record {
                    convid_kept = refl;
                    alive_kept = refl;
                    src_kept = refl;
                    ifname_kept = refl;
                  });
                })
          | inr (inl late) ↦
              Returns-eq tt v (ground arith)
                (record { servers_kept = refl; heap_same = λ q. Same-refl _; fresh_kept = refl })
          | inr (inr bad) ↦
              Returns-eq tt v (ground arith)
                (record { servers_kept = refl; heap_same = λ q. Same-refl _; fresh_kept = refl })
        ]
  ]

  pub IsCoherent-Same :
      (s : Server out) (h h' : ℕ → ServerConnection)
      → ((q : ℕ) → Same (h q) (h' q))
      → IsCoherent out h s
      → IsCoherent out h' s
  IsCoherent-Same s h h' same c = record {
    known = λ k p e. ground (arith, same p, c.known k p e);
    named = c.named;
    placed = c.placed;
  }

  -- What a quiet part adds to a move is nothing.
  Moves-quiet :
      (tid : ℕ) (f : ℕ → Bool) (s : Server out) (u v w : State out)
      → Moves out tid f s u v
      → IsQuiet v w
      → Moves out tid f s u w
  Moves-quiet tid f s u v w m q = record {
    server = m.server;
    found = rw q.servers_kept m.found;
    others = λ t ne. rw q.servers_kept (m.others t ne);
    lock_kept = m.lock_kept;
    base_kept = m.base_kept;
    same = λ p. Same-trans _ _ _ (m.same p) (q.heap_same p);
    table = m.table;
    fresh_kept = q.fresh_kept ∙ m.fresh_kept;
    coherent = IsCoherent-Same m.server v.heap w.heap q.heap_same m.coherent;
  }

  linkdown_by-IsQuiet :
      (tid d : ℕ) (chosen : Option ℕ) (s : Server out) (w : State out)
      → lookup tid w.servers ≡ some s
      → Returns (λ _ w'. IsQuiet w w') (linkdown_by out tid d chosen w)
  unfolding linkdown_by
  linkdown_by-IsQuiet tid d none s w e =
      returns (record { servers_kept = refl; heap_same = λ q. Same-refl _; fresh_kept = refl })
  linkdown_by-IsQuiet tid d (some k) s w e = elim (Bool-cases (k == 0)) [
    | inl zero' ↦
        Returns-eq tt w (ground arith)
          (record { servers_kept = refl; heap_same = λ q. Same-refl _; fresh_kept = refl })
    | inr some_k ↦ elim (Option-cases (lookup k (entries s))) [
      | inl gone ↦
          Returns-eq tt w (ground arith)
            (record { servers_kept = refl; heap_same = λ q. Same-refl _; fresh_kept = refl })
      | inr (p, here) ↦ Returns-same {o' = send_by out p d w} (ground arith) (send_by-IsQuiet p d w)
    ]
  ]

  -- Telling the server that a connection went down changes no table.
  pub send_linkdown-Moves :
      (tid d : ℕ) (s : Server out) (w : State out)
      → lookup tid w.servers ≡ some s
      → IsCoherent out w.heap s
      → Returns (λ _ w'. Moves out tid (λ _. false) s w w') (send_linkdown out tid d w)
  unfolding send_linkdown
  send_linkdown-Moves tid d s w e c =
      Returns-bind (choose out tid none) (λ chosen. linkdown_by out tid d chosen) w
        (choose_next-Moves out tid s w e c)
        λ chosen v m.
          Returns-weaken (linkdown_by-IsQuiet tid d chosen m.server v m.found)
            λ _ v' q. Moves-quiet tid (λ _. false) s w v v' m q
