-- ===== src/Client/Invariant.antt =====
-- What holds of the client's table between two operations: the map, the connections on the heap
-- and the hash circle agree.
use ratbond.Base.{
  ℕ, ◌+◌, ◌^◌, ◌<◌, ◌≡◌, refl, ◌∙◌, inl, inr, Bool, true, false, ◌||◌, Option, none, some, List, [],
  ◌∷◌, arith, if◌then◌else◌, Elem, Text, decimal, Dict, lookup, insert, keys, done, Returns,
  lookup-insert_self, lookup-insert_ne, List-cases, Returns-eq,
}
use ratbond.Outside.{Outside}
use ratbond.Client.State.{ServerConnection, State, Server, entries}
use ratbond.Client.Choose.{choose_next, round_robin}

-- The fields that identify a connection, which only client_connect_server sets.
pub record Same (c d : ServerConnection) : Type 0 where
  pub convid_kept : d.convid ≡ c.convid
  pub alive_kept : d.alive ≡ c.alive
  pub src_kept : d.src_address ≡ c.src_address
  pub ifname_kept : d.ifname ≡ c.ifname

pub Same-refl : (c : ServerConnection) → Same c c
Same-refl c = record { convid_kept = refl; alive_kept = refl; src_kept = refl; ifname_kept = refl }

pub Same-trans : (c d e : ServerConnection) → Same c d → Same d e → Same c e
Same-trans c d e h k = ground arith

module _ (out : Outside) where
  open out use {Circle, members}

  abbrev pub names : Option Circle → List Text
  names none = []
  names (some c) = members c

  -- Every entry points to a live connection with the entry's convid, a uint32, and the names on the
  -- circle are those of the entries.
  pub record IsCoherent (heap : ℕ → ServerConnection) (s : Server out) : Type 0 where
    pub known :
        (k p : ℕ)
        → lookup k (entries s) ≡ some p
        → ((heap p).convid ≡ k) × ((heap p).alive ≡ true) × (k < 2 ^ 32) × (0 < k)
    pub named :
        (t : Text)
        → Elem t (names s.consistent)
        → (k : ℕ) × (p : ℕ) × (t ≡ decimal k) × (lookup k (entries s) ≡ some p)
    pub placed : (k p : ℕ) → lookup k (entries s) ≡ some p → Elem (decimal k) (names s.consistent)

  -- From `w` to `w'` only the server at `tid` changed, from `s`: it lost the entries that `gone`
  -- names, and it is coherent.
  pub record Moves (tid : ℕ) (gone : ℕ → Bool) (s : Server out) (w w' : State out) : Type 0 where
    pub server : Server out
    pub found : lookup tid w'.servers ≡ some server
    pub others : (t : ℕ) → (t ≡ tid → ⊥) → lookup t w'.servers ≡ lookup t w.servers
    pub lock_kept : server.locked ≡ s.locked
    pub base_kept : server.base_convid ≡ s.base_convid
    pub same : (p : ℕ) → Same (w.heap p) (w'.heap p)
    pub fresh_kept : w'.fresh ≡ w.fresh
    pub table :
        (k : ℕ) → lookup k (entries server) ≡ (if gone k then none else lookup k (entries s))
    pub coherent : IsCoherent w'.heap server

  pub choose_next-empty :
      (tid : ℕ) (s : Server out) (w : State out)
      → lookup tid w.servers ≡ some s
      → entries s ≡ []
      → choose_next out tid w ≡ done none w
  unfolding choose_next
  choose_next-empty tid s w e m = ground arith

  abbrev pub next_choice : Server out → State out → ℕ
  next_choice s w =
      round_robin (λ p. (w.heap p).alive) (entries s) s.last_convid 0
        (out.range w.calls (keys (entries s)))

  pub choose_next-some :
      (tid : ℕ) (s : Server out) (w : State out) (x : ℕ × ℕ) (xs : Dict ℕ)
      → lookup tid w.servers ≡ some s
      → entries s ≡ x ∷ xs
      → choose_next out tid w
        ≡ done (some (next_choice s w)) (record w {
          calls = w.calls + 1;
          servers = insert tid (record s { last_convid = next_choice s w }) w.servers;
        })
  unfolding choose_next
  choose_next-some tid s w x xs e m = ground arith

  -- The scheduler moves nothing but the last convid.
  pub choose_next-Moves :
      (tid : ℕ) (s : Server out) (w : State out)
      → lookup tid w.servers ≡ some s
      → IsCoherent w.heap s
      → Returns (λ _ w'. Moves tid (λ _. false) s w w') (choose_next out tid w)
  choose_next-Moves tid s w e c = elim (List-cases (entries s)) [
    | inl empty ↦ Returns-eq _ _ (choose_next-empty tid s w e empty) (record {
      server = s;
      found = e;
      others = λ _ _. refl;
      lock_kept = refl;
      base_kept = refl;
      same = λ p. Same-refl (w.heap p);
      fresh_kept = refl;
      table = λ _. refl;
      coherent = c;
    })
    | inr (x, xs, some_left) ↦ Returns-eq _ _ (choose_next-some tid s w x xs e some_left) (record {
      server = record s { last_convid = next_choice s w };
      found = lookup-insert_self tid _ w.servers;
      others = λ t ne. lookup-insert_ne tid t _ w.servers ne;
      lock_kept = refl;
      base_kept = refl;
      same = λ p. Same-refl (w.heap p);
      fresh_kept = refl;
      table = λ _. refl;
      coherent = record { known = c.known; named = c.named; placed = c.placed };
    })
  ]

  pub Moves-trans :
      (tid : ℕ) (f g : ℕ → Bool) (s : Server out) (u v w : State out) (m : Moves tid f s u v)
      → Moves tid g m.server v w
      → Moves tid (λ k. g k || f k) s u w
  Moves-trans tid f g s u v w m n = record {
    server = n.server;
    found = n.found;
    others = λ t ne. n.others t ne ∙ m.others t ne;
    lock_kept = n.lock_kept ∙ m.lock_kept;
    base_kept = n.base_kept ∙ m.base_kept;
    same = λ p. Same-trans _ _ _ (m.same p) (n.same p);
    fresh_kept = n.fresh_kept ∙ m.fresh_kept;
    table = λ k. ground (arith, n.table k, m.table k);
    coherent = n.coherent;
  }
