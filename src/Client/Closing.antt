-- ===== src/Client/Closing.antt =====
-- Closing one connection takes it off the map and off the circle, and touches nothing else.
use mathlib.Core.Path.{subst}
use mathlib.Core.Path.{subst}
use ratbond.Base.{
  ℕ, ◌≡◌, refl, sym, ap, ◌∙◌, ◌≢◌, Option, none, some, [], ◌++◌, arith, ◌==◌, Elem, Text, decimal,
  decimal_inj, Dict, lookup, insert, delete, lookup-delete, done, Returns, lookup-insert_self,
  lookup-insert_ne, Returns-eq,
}
use ratbond.Outside.{Outside}
use ratbond.Client.State.{ServerConnection, State, Server, entries, update, close_effects}
use ratbond.Client.Invariant.{Same, IsCoherent, Moves, names}
use ratbond.Client.Disconnect.{close_connection}
use ratbond.Client.Quiet.{IsCoherent-Same, update-Same}

module _ (out : Outside) where
  open out use {Circle, members, circle_remove}

  close_connection-eq :
      (tid p k : ℕ) (s : Server out) (c : Circle) (m : Dict ℕ) (w : State out)
      → lookup tid w.servers ≡ some s
      → s.consistent ≡ some c
      → s.connections ≡ some m
      → (w' : State out) × (close_connection out tid p k w ≡ done tt w')
        × (w'.heap ≡ update w.heap p (record (w.heap p) { session = none }))
        × (lookup tid w'.servers
            ≡ some (record s {
              last_convid = 0;
              consistent = some (circle_remove (decimal k) c);
              connections = some (delete k m);
            }))
        × ((t : ℕ) → (t ≡ tid → ⊥) → lookup t w'.servers ≡ lookup t w.servers)
        × (w'.fresh ≡ w.fresh)
  unfolding close_connection
  close_connection-eq tid p k s c m w e ec em =
      let s1 : Server out = record s { last_convid = 0 } in
      let s2 : Server out = record s1 { consistent = some (circle_remove (decimal k) c) } in
      let s3 : Server out = record s2 { connections = some (delete k m) } in
      let v1 = insert tid s1 w.servers in
      let v2 = insert tid s2 v1 in
      (
        record w {
          servers = insert tid s3 v2;
          heap = update w.heap p (record (w.heap p) { session = none });
          trace = close_effects (w.heap p).session ++ w.trace;
        },
        ground (arith, lookup-insert_self tid s1 w.servers, lookup-insert_self tid s2 v1),
        refl,
        lookup-insert_self tid s3 v2,
        (λ t ne.
            lookup-insert_ne tid t s3 v2 ne
            ∙ lookup-insert_ne tid t s2 v1 ne
            ∙ lookup-insert_ne tid t s1 w.servers ne),
        refl,
      )

  pub lookup-delete-some :
      (k j q : ℕ) (m : Dict ℕ) → lookup j (delete k m) ≡ some q → (lookup j m ≡ some q) × (k ≢ j)
  lookup-delete-some k j q m e = ground (arith, lookup-delete k j m)

  pub delete-lookup :
      (k j q : ℕ) (m : Dict ℕ) → lookup j m ≡ some q → k ≢ j → lookup j (delete k m) ≡ some q
  delete-lookup k j q m e ne = ground (arith, lookup-delete k j m)

  -- Taking one entry off the map and its name off the circle keeps the two in step.
  delete-IsCoherent :
      (k : ℕ) (s : Server out) (c : Circle) (m : Dict ℕ) (h : ℕ → ServerConnection)
      → s.consistent ≡ some c
      → s.connections ≡ some m
      → IsCoherent out h s
      → IsCoherent out h (record s {
        last_convid = 0;
        consistent = some (circle_remove (decimal k) c);
        connections = some (delete k m);
      })
  delete-IsCoherent k s c m h ec em v = record {
    known = λ j q e. v.known j q (rw em (lookup-delete-some k j q m e).0);
    named = λ t on.
        let (other, before) = (out.members-remove (decimal k) t c).0 on in
        let (j, q, e, there) = v.named t (rw ec before) in
        (
          j,
          q,
          e,
          delete-lookup k j q m (rw em at there) (λ same. other (e ∙ ap decimal (sym same))),
        );
    placed = λ j q e.
        let (there, ne) = lookup-delete-some k j q m e in
        (out.members-remove (decimal k) (decimal j) c).1
          (λ same. ne (decimal_inj k j (sym same)), rw ec at (v.placed j q (rw em there)));
  }

  pub names-some :
      (o : Option Circle) (t : Text) → Elem t (names out o) → (c : Circle) × (o ≡ some c)
  names-some none t h = absurd h
  names-some (some c) t h = (c, refl)

  pub entries-some :
      (o : Option (Dict ℕ)) (k p : ℕ)
      → lookup k (elim o [ none ↦ [] | some m ↦ m ]) ≡ some p
      → (m : Dict ℕ) × (o ≡ some m)
  unfolding lookup
  entries-some none k p h = cc
  entries-some (some m) k p h = (m, refl)

  pub close_connection-Moves :
      (tid p k : ℕ) (s : Server out) (w : State out)
      → lookup tid w.servers ≡ some s
      → lookup k (entries s) ≡ some p
      → IsCoherent out w.heap s
      → Returns (λ _ w'. Moves out tid (λ j. k == j) s w w') (close_connection out tid p k w)
  close_connection-Moves tid p k s w e here v =
      let (c, ec) = names-some s.consistent (decimal k) (v.placed k p here) in
      let (m, em) = entries-some s.connections k p here in
      let (w', runs', heap', found', others', fresh') =
        close_connection-eq tid p k s c m w e ec em in
      let same' : (q : ℕ) → Same (w.heap q) (w'.heap q) = λ q.
        subst (λ h. Same (w.heap q) (h q)) (sym heap')
          (update-Same w.heap p _
            (record { convid_kept = refl; alive_kept = refl; src_kept = refl; ifname_kept = refl })
            q) in
      Returns-eq tt w' runs' (record {
        server = record s {
          last_convid = 0;
          consistent = some (circle_remove (decimal k) c);
          connections = some (delete k m);
        };
        found = found';
        others = others';
        lock_kept = refl;
        base_kept = refl;
        same = same';
        fresh_kept = fresh';
        table = λ j. rw em (lookup-delete k j m);
        coherent =
            IsCoherent-Same out _ w.heap w'.heap same' (delete-IsCoherent k s c m w.heap ec em v);
      })
