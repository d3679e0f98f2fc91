-- ===== src/Client/Standing.antt =====
-- The steps of client_connect_server around the new entry: what each leaves of the table.
use ratbond.Base.{
  ℕ, ◌+◌, ◌≡◌, refl, ◌∙◌, inl, inr, Bool, true, false, Option, some, arith, Option-cases, Text,
  Dict, lookup, insert, ◌>>=◌, ◌>>◌, pure, Returns, returns, Returns-bind, lookup-insert_self,
  lookup-insert_ne, Returns-eq, Returns-same,
}
use ratbond.Outside.{Outside}
use ratbond.Client.State.{State, Server, entries, lock, unlock, read_server, write_server}
use ratbond.Client.Opening.{config_name, create_tun}
use ratbond.Client.Connect.{ensure_tun, make_tun, tun_name_of}
use ratbond.Client.Invariant.{IsCoherent}
use ratbond.Client.Staying.{IsSilent, create_tun-opens}

module _ (out : Outside) (tid : ℕ) (old : ℕ → Option ℕ) (w0 : State out) (mapped : Bool) where
  open out use {Circle, circle_new, members-new}

  -- The tunnel is in the table with the entries `old` and this state of its mutex, it is coherent,
  -- and the rest is as in `w0`.
  pub record IsAt (held : Bool) (w : State out) : Type 0 where
    pub server : Server out
    pub found : lookup tid w.servers ≡ some server
    pub lock_is : server.locked ≡ held
    pub table : (k : ℕ) → lookup k (entries server) ≡ old k
    pub coherent : IsCoherent out w.heap server
    pub paired :
        (d : Dict ℕ) → server.connections ≡ some d → (c : Circle) × (server.consistent ≡ some c)
    pub map_made : mapped ≡ true → (d : Dict ℕ) × (server.connections ≡ some d)
    pub heap_kept : w.heap ≡ w0.heap
    pub fresh_kept : w.fresh ≡ w0.fresh
    pub others : (t : ℕ) → (t ≡ tid → ⊥) → lookup t w.servers ≡ lookup t w0.servers

  -- Another server with the same map and circle.
  pub written-IsAt :
      (held held' : Bool) (t : Server out) (w : State out)
      → (m : IsAt held w) → t.connections ≡ m.server.connections
      → t.consistent ≡ m.server.consistent
      → t.locked ≡ held'
      → IsAt held' (record w { servers = insert tid t w.servers })
  written-IsAt held held' t w m same names' lock' = record {
    server = t;
    found = lookup-insert_self tid t w.servers;
    lock_is = lock';
    table = λ k. rw same (m.table k);
    coherent = record {
      known = λ k p e. m.coherent.known k p (rw same at e);
      named = λ name on. rw same (m.coherent.named name (rw names' at on));
      placed = λ k p e. rw names' (m.coherent.placed k p (rw same at e));
    };
    paired = λ d e. rw names' (m.paired d (rw same at e));
    map_made = λ e. let (d, there) = m.map_made e in (d, same ∙ there);
    heap_kept = m.heap_kept;
    fresh_kept = m.fresh_kept;
    others = λ u ne. lookup-insert_ne tid u t w.servers ne ∙ m.others u ne;
  }

  pub silent-IsAt :
      (held : Bool) (w w' : State out) → IsSilent out w w' → IsAt held w → IsAt held w'
  silent-IsAt held w w' q m = record {
    server = m.server;
    found = rw q.servers_kept m.found;
    lock_is = m.lock_is;
    table = m.table;
    coherent = rw q.heap_kept m.coherent;
    paired = m.paired;
    map_made = m.map_made;
    heap_kept = q.heap_kept ∙ m.heap_kept;
    fresh_kept = q.fresh_kept ∙ m.fresh_kept;
    others = λ u ne. rw q.servers_kept (m.others u ne);
  }

  pub lock-IsAt : (w : State out) → IsAt false w → Returns (λ _ w'. IsAt true w') (lock out tid w)
  unfolding lock
  lock-IsAt w m =
      Returns-eq tt
        (record w { servers = insert tid (record m.server { locked = true }) w.servers })
        (ground (arith, m.found, m.lock_is))
        (written-IsAt false true (record m.server { locked = true }) w m refl refl refl)

  pub unlock-IsAt :
      (held : Bool) (w : State out)
      → IsAt held w
      → Returns (λ _ w'. IsAt false w') (unlock out tid w)
  unfolding unlock
  unlock-IsAt held w m =
      Returns-eq tt
        (record w { servers = insert tid (record m.server { locked = false }) w.servers })
        (ground (arith, m.found))
        (written-IsAt held false (record m.server { locked = false }) w m refl refl refl)

  tun_name_of-IsAt :
      (held : Bool) (i : ℕ) (w : State out)
      → IsAt held w
      → Returns (λ _ w'. IsAt held w') (tun_name_of out (some i) w)
  unfolding tun_name_of
  tun_name_of-IsAt held i w m = returns (
      silent-IsAt held w (record w { calls = w.calls + 1 })
        (record { servers_kept = refl; heap_kept = refl; fresh_kept = refl }) m)

  -- The last lines of make_tun.
  set_tun-IsAt :
      (made : Option ℕ) (name : Text) (w : State out)
      → IsAt true w
      → Returns
          (λ _ w'. IsAt true w')
          ((do
            t ← read_server out tid
            write_server out tid (record t {
              iface = made;
              my_tun_ip = out.options.client_tun_ip;
              remote_tun_ip = out.options.server_tun_ip;
              ifname = name;
              base_convid = tid;
            })
            pure true)
            w)
  set_tun-IsAt made name w m =
      let t : Server out = record m.server {
        iface = made;
        my_tun_ip = out.options.client_tun_ip;
        remote_tun_ip = out.options.server_tun_ip;
        ifname = name;
        base_convid = tid;
      } in
      Returns-eq true (record w { servers = insert tid t w.servers }) (ground (arith, m.found))
        (written-IsAt true true t w m refl refl m.lock_is)

  make_tun-IsAt :
      (w : State out)
      → ((n : ℕ) → (i : ℕ) × (out.open_tun n (config_name out tid) ≡ some i))
      → IsAt true w
      → Returns (λ _ w'. IsAt true w') (make_tun out tid w)
  unfolding make_tun
  make_tun-IsAt w opens m =
      Returns-bind (create_tun out tid out.options.client_tun_ip) _ w
        (create_tun-opens out tid out.options.client_tun_ip w opens)
        λ made v h.
          let ((i, is_i), q) = h in
          Returns-bind (tun_name_of out made) _ v
            (rw is_i (tun_name_of-IsAt true i v (silent-IsAt true w v q m)))
            λ name u k. set_tun-IsAt made name u k

  pub ensure_tun-IsAt :
      (w : State out)
      → ((n : ℕ) → (i : ℕ) × (out.open_tun n (config_name out tid) ≡ some i))
      → IsAt true w
      → Returns (λ _ w'. IsAt true w') (ensure_tun out tid w)
  unfolding ensure_tun
  ensure_tun-IsAt w opens m = elim (Option-cases m.server.iface) [
    | inl no_tun ↦
        Returns-same {o' = make_tun out tid w} (ground (arith, m.found)) (make_tun-IsAt w opens m)
    | inr (i, there) ↦ Returns-eq false w (ground (arith, m.found)) m
  ]
