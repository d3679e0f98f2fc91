-- ===== src/Server/Closing.antt =====
-- server_disconnect_session_by_convid: one turn of its loop, and the loop.
use mathlib.Core.Path.{subst}
use ratbond.Server.Disconnect.{server_remove, server_close_one, server_close_matching}
use ratbond.Server.Invariant.{IsServed, Drops, Drops-none, Drops-trans}
use ratbond.Server.State.{ClientConnection, client_entries, Served, Client}
use ratbond.Base.{
  ℕ, ◌≡◌, refl, sym, ap, ◌∙◌, inl, inr, ◌&&◌, none, some, List, [], ◌∷◌, ◌++◌, arith, ◌==◌,
  if◌then◌else◌, ==_iff, Bool-cases, Option-cases, decimal, decimal_inj, Dict, lookup, insert,
  delete, lookup-delete, done, Returns, returns, Returns-bind, Returns-weaken, lookup-insert_self,
  lookup-insert_ne, Returns-eq, Returns-same, mem,
}
use ratbond.Outside.{Outside}
use ratbond.Client.State.{close_effects}
use ratbond.Client.Closing.{lookup-delete-some, delete-lookup, names-some, entries-some}

module _ (out : Outside) where
  open out use {Circle, circle_remove}

  abbrev without : ℕ → Client out → Circle → Dict ℕ → Client out
  without k s c m = record s {
    last_convid = 0;
    consistent = some (circle_remove (decimal k) c);
    connections = some (delete k m);
  }

  server_remove-eq :
      (tid p k : ℕ) (s : Client out) (c : Circle) (m : Dict ℕ) (w : Served out)
      → lookup tid w.clients ≡ some s
      → s.consistent ≡ some c
      → s.connections ≡ some m
      → (w' : Served out) × (server_remove out tid p k w ≡ done tt w')
        × (w'.conns ≡ w.conns)
        × (lookup tid w'.clients ≡ some (without k s c m))
        × ((t : ℕ) → (t ≡ tid → ⊥) → lookup t w'.clients ≡ lookup t w.clients)
        × (w'.fresh_conn ≡ w.fresh_conn)
  unfolding server_remove
  server_remove-eq tid p k s c m w e ec em =
      let s1 : Client out = record s { consistent = some (circle_remove (decimal k) c) } in
      let s2 : Client out = record s1 { last_convid = 0 } in
      let v1 = insert tid s1 w.clients in
      let v2 = insert tid s2 v1 in
      (
        record w {
          clients = insert tid (without k s c m) v2;
          process = record w.process {
            trace = close_effects (w.conns p).session ++ w.process.trace;
          };
        },
        ground (arith, lookup-insert_self tid s1 w.clients, lookup-insert_self tid s2 v1),
        refl,
        lookup-insert_self tid (without k s c m) v2,
        (λ t ne.
            lookup-insert_ne tid t (without k s c m) v2 ne
            ∙ lookup-insert_ne tid t s2 v1 ne
            ∙ lookup-insert_ne tid t s1 w.clients ne),
        refl,
      )

  without-IsServed :
      (k : ℕ) (s : Client out) (c : Circle) (m : Dict ℕ) (h : ℕ → ClientConnection)
      → s.consistent ≡ some c
      → s.connections ≡ some m
      → IsServed out h s
      → IsServed out h (without k s c m)
  without-IsServed k s c m h ec em v = record {
    known = λ j q e. v.known j q (rw em (lookup-delete-some out k j q m e).0);
    named = λ t on.
        let (other, before) = (out.members-remove (decimal k) t c).0 on in
        let (j, q, e, there) = v.named t (rw ec before) in
        (
          j,
          q,
          e,
          delete-lookup out k j q m (rw em at there) (λ same. other (e ∙ ap decimal (sym same))),
        );
    placed = λ j q e.
        let (there, ne) = lookup-delete-some out k j q m e in
        (out.members-remove (decimal k) (decimal j) c).1
          (λ same. ne (decimal_inj k j (sym same)), rw ec at (v.placed j q (rw em there)));
  }

  server_remove-Drops :
      (tid p k : ℕ) (s : Client out) (w : Served out)
      → lookup tid w.clients ≡ some s
      → lookup k (client_entries s) ≡ some p
      → IsServed out w.conns s
      → Returns (λ _ w'. Drops out tid (λ j. k == j) s w w') (server_remove out tid p k w)
  server_remove-Drops tid p k s w e here v =
      let (c, ec) = names-some out s.consistent (decimal k) (v.placed k p here) in
      let (m, em) = entries-some out s.connections k p here in
      let (w', runs', conns', found', others', fresh') = server_remove-eq tid p k s c m w e ec em in
      Returns-eq tt w' runs' (record {
        client = without k s c m;
        found = found';
        others = others';
        lock_kept = refl;
        base_kept = refl;
        conns_kept = conns';
        fresh_kept = fresh';
        table = λ j. rw em (lookup-delete k j m);
        coherent =
            subst (λ h. IsServed out h (without k s c m)) (sym conns')
              (without-IsServed k s c m w.conns ec em v);
      })

  -- At a key that is not in the table, or that is not the one asked for, there is nothing to lose.
  nothing_gone :
      (d k : ℕ) (m : Dict ℕ)
      → (k ≡ d → lookup k m ≡ none)
      → (j : ℕ) → lookup j m ≡ (if k == j && j == d then none else lookup j m)
  nothing_gone d k m h j = elim (Bool-cases (k == j && j == d)) [
    | inr stays ↦ rw stays refl
    | inl goes ↦ rw goes (
        ap (λ (i : ℕ). lookup i m) {x = j} {y = k} (ground (arith, ==_iff k j))
        ∙ h (ground (arith, ==_iff k j, ==_iff j d)))
  ]

  server_close_one-Drops :
      (tid d k : ℕ) (s : Client out) (w : Served out)
      → lookup tid w.clients ≡ some s
      → IsServed out w.conns s
      → Returns
          (λ _ w'. Drops out tid (λ j. k == j && j == d) s w w')
          (server_close_one out tid d k w)
  unfolding server_close_one
  server_close_one-Drops tid d k s w e v = elim (Option-cases (lookup k (client_entries s))) [
    | inl gone ↦
        Returns-eq tt w (ground arith)
          (Drops-none out tid _ s w e v (nothing_gone d k (client_entries s) (λ _. gone)))
    | inr (p, here) ↦
        let own : (w.conns p).convid ≡ k = (v.known k p here).0 in
        elim (Bool-cases (k == d)) [
          | inr stays ↦ Returns-eq tt w (ground arith) (
              Drops-none out tid _ s w e v
                (nothing_gone d k (client_entries s) (λ same. cc (stays, (==_iff k d).1 same))))
          | inl goes ↦ Returns-same {o' = server_remove out tid p k w} (ground arith) (
              Returns-weaken (server_remove-Drops tid p k s w e here v) λ _ w' m. record {
                client = m.client;
                found = m.found;
                others = m.others;
                lock_kept = m.lock_kept;
                base_kept = m.base_kept;
                conns_kept = m.conns_kept;
                fresh_kept = m.fresh_kept;
                table = λ j. ground (arith, m.table j, ==_iff k j, ==_iff k d, ==_iff j d);
                coherent = m.coherent;
              })
        ]
  ]

  pub server_close_matching-Drops :
      (tid d : ℕ) (ks : List ℕ) (s : Client out) (w : Served out)
      → lookup tid w.clients ≡ some s
      → IsServed out w.conns s
      → Returns
          (λ _ w'. Drops out tid (λ j. mem j ks && j == d) s w w')
          (server_close_matching out tid d ks w)
  unfolding server_close_matching
  server_close_matching-Drops tid d [] s w e v = returns (Drops-none out tid _ s w e v (λ _. refl))
  server_close_matching-Drops tid d (k ∷ ks) s w e v =
      Returns-bind (server_close_one out tid d k) _ w (server_close_one-Drops tid d k s w e v)
        λ _ u m.
          Returns-weaken (server_close_matching-Drops tid d ks m.client u m.found m.coherent)
            λ _ w' n. Drops-trans out tid _ _ _ s w u w' m n (λ j. ground arith)
