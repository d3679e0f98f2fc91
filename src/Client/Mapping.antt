-- ===== src/Client/Mapping.antt =====
-- The map and circle of a new server.
use ratbond.Base.{
  ℕ, ◌≡◌, refl, ◌∙◌, ◌≢◌, inl, inr, Bool, true, false, Option, none, some, [], arith, Option-cases,
  Dict, lookup, insert, Returns, lookup-insert_self, lookup-insert_ne, Returns-eq,
}
use ratbond.Outside.{Outside}
use ratbond.Client.State.{State, Server}
use ratbond.Client.Connect.{ensure_map}
use ratbond.Client.Standing.{IsAt}

module _ (out : Outside) (tid : ℕ) (old : ℕ → Option ℕ) (w0 : State out) where
  open out use {Circle, circle_new, members-new}

  empty : (k p : ℕ) → lookup {V = ℕ} k [] ≢ some p
  unfolding lookup
  empty k p e = cc

  mapped-IsAt :
      (w : State out)
      → (m : IsAt out tid old w0 false true w) → m.server.connections ≡ none
      → IsAt out tid old w0 true true (record w {
        servers =
            insert tid
              (record m.server { connections = some []; consistent = some circle_new })
              w.servers;
      })
  mapped-IsAt w m no_map =
      let t : Server out = record m.server {
        connections = some [];
        consistent = some circle_new;
      } in
      record {
        server = t;
        found = lookup-insert_self tid t w.servers;
        lock_is = m.lock_is;
        table = λ k. rw no_map at (m.table k);
        coherent = record {
          known = λ k p e. absurd (empty k p e);
          named = λ name on. absurd (members-new name on);
          placed = λ k p e. absurd (empty k p e);
        };
        paired = λ d e. (circle_new, refl);
        map_made = λ e. ([], refl);
        heap_kept = m.heap_kept;
        fresh_kept = m.fresh_kept;
        others = λ u ne. lookup-insert_ne tid u t w.servers ne ∙ m.others u ne;
      }

  -- A server that has its map and is as before.
  with_map :
      (held : Bool) (w : State out) (d : Dict ℕ)
      → (m : IsAt out tid old w0 false held w) → m.server.connections ≡ some d
      → IsAt out tid old w0 true held w
  with_map held w d m there = record {
    server = m.server;
    found = m.found;
    lock_is = m.lock_is;
    table = m.table;
    coherent = m.coherent;
    paired = m.paired;
    map_made = λ e. (d, there);
    heap_kept = m.heap_kept;
    fresh_kept = m.fresh_kept;
    others = m.others;
  }

  -- A server without a map has no entries, and its circle starts empty.
  pub ensure_map-IsAt :
      (w : State out)
      → IsAt out tid old w0 false true w
      → Returns (λ _ w'. IsAt out tid old w0 true true w') (ensure_map out tid w)
  unfolding ensure_map
  ensure_map-IsAt w m = elim (Option-cases m.server.connections) [
    | inr (d, there) ↦ Returns-eq tt w (ground (arith, m.found)) (with_map true w d m there)
    | inl no_map ↦
        let t : Server out = record m.server {
          connections = some [];
          consistent = some circle_new;
        } in
        Returns-eq tt (record w { servers = insert tid t w.servers }) (ground (arith, m.found))
          (mapped-IsAt w m no_map)
  ]
