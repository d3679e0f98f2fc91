-- ===== src/Server/Invariant.antt =====
-- What holds of the server's table for a client between two operations: the map, the connections
-- and the hash circle agree.
use ratbond.Server.State.{ClientConnection, client_entries, Served, Client}
use ratbond.Base.{
  ℕ, ◌^◌, ◌<◌, ◌≡◌, refl, ◌∙◌, Bool, true, ◌||◌, none, some, arith, if◌then◌else◌, Elem, Text,
  decimal, lookup,
}
use ratbond.Outside.{Outside}
use ratbond.Client.Invariant.{names}

module _ (out : Outside) where
  -- Every entry points to a live connection with the entry's convid, a uint32, and the names on the
  -- circle are those of the entries.
  pub record IsServed (conns : ℕ → ClientConnection) (s : Client out) : Type 0 where
    pub known :
        (k p : ℕ)
        → lookup k (client_entries s) ≡ some p
        → ((conns p).convid ≡ k) × ((conns p).alive ≡ true) × (k < 2 ^ 32)
    pub named :
        (t : Text)
        → Elem t (names out s.consistent)
        → (k : ℕ) × (p : ℕ) × (t ≡ decimal k) × (lookup k (client_entries s) ≡ some p)
    pub placed :
        (k p : ℕ) → lookup k (client_entries s) ≡ some p → Elem (decimal k) (names out s.consistent)

  -- From `w` to `w'` only the client at `tid` changed, from `s`: it lost the entries that `gone`
  -- names, and it is coherent. No connection changes.
  pub record Drops (tid : ℕ) (gone : ℕ → Bool) (s : Client out) (w w' : Served out) : Type 0 where
    pub client : Client out
    pub found : lookup tid w'.clients ≡ some client
    pub others : (t : ℕ) → (t ≡ tid → ⊥) → lookup t w'.clients ≡ lookup t w.clients
    pub lock_kept : client.locked ≡ s.locked
    pub base_kept : client.base_convid ≡ s.base_convid
    pub conns_kept : w'.conns ≡ w.conns
    pub fresh_kept : w'.fresh_conn ≡ w.fresh_conn
    pub table :
        (k : ℕ)
        → lookup k (client_entries client) ≡ (if gone k then none else lookup k (client_entries s))
    pub coherent : IsServed w'.conns client

  pub Drops-none :
      (tid : ℕ) (gone : ℕ → Bool) (s : Client out) (w : Served out)
      → lookup tid w.clients ≡ some s
      → IsServed w.conns s
      → ((k : ℕ)
          → lookup k (client_entries s) ≡ (if gone k then none else lookup k (client_entries s)))
      → Drops tid gone s w w
  Drops-none tid gone s w e v none_gone = record {
    client = s;
    found = e;
    others = λ _ _. refl;
    lock_kept = refl;
    base_kept = refl;
    conns_kept = refl;
    fresh_kept = refl;
    table = none_gone;
    coherent = v;
  }

  pub Drops-trans :
      (tid : ℕ) (f g h : ℕ → Bool) (s : Client out) (u v w : Served out) (m : Drops tid f s u v)
      → Drops tid g m.client v w
      → ((k : ℕ) → h k ≡ (g k || f k))
      → Drops tid h s u w
  Drops-trans tid f g h s u v w m n both = record {
    client = n.client;
    found = n.found;
    others = λ t ne. n.others t ne ∙ m.others t ne;
    lock_kept = n.lock_kept ∙ m.lock_kept;
    base_kept = n.base_kept ∙ m.base_kept;
    conns_kept = n.conns_kept ∙ m.conns_kept;
    fresh_kept = n.fresh_kept ∙ m.fresh_kept;
    table = λ k. ground (arith, n.table k, m.table k, both k);
    coherent = n.coherent;
  }
