-- ===== src/Client/Linking.antt =====
-- client_connect_server on a route that came up, for a tunnel that is in the table or not.
use ratbond.Client.Opening.{dial, config_name}
use mathlib.Core.Path.{subst}
use ratbond.Client.Invariant.{IsCoherent}
use ratbond.Base.{
  ℕ, ◌+◌, ◌^◌, ◌<◌, ◌≡◌, refl, sym, inl, inr, true, false, Option, none, some, List, ◌∷◌, arith,
  leb, if◌then◌else◌, Option-cases, Text, Dict, lookup, insert, ◌>>=◌, ◌>>◌, Returns, Returns-bind,
  lookup-insert_self, lookup-insert_ne, Returns-same,
}
use ratbond.Outside.{Outside, Handles, connected}
use ratbond.Client.State.{State, Server, entries, lock, unlock, read_server}
use ratbond.Client.Choose.{count_src}
use ratbond.Client.Connect.{connect_slot, ensure_tun, ensure_map, new_server, connect_server}
use ratbond.Client.Standing.{IsAt, written-IsAt, unlock-IsAt, ensure_tun-IsAt}
use ratbond.Client.Mapping.{ensure_map-IsAt}
use ratbond.Client.Connecting.{Connects}
use ratbond.Client.Connected.{connect_slot-Connects}
use ratbond.Network.Addresses.{ips_named}
use ratbond.Network.Interfaces.{Interface}

-- The entries of a tunnel that may be missing.
abbrev pub entries_at : (out : Outside) → Option (Server out) → ℕ → Option ℕ
entries_at out none k = none
entries_at out (some s) k = lookup k (entries s)

module _ (out : Outside) (src ifname : Text) (old : ℕ → Option ℕ) (w0 : State out) where
  abbrev tid : ℕ
  tid = out.options.tunnel_id

  -- From the lock on, on a tunnel in the table.
  below_limit-Connects :
      (w : State out)
      → 0 < tid
      → tid + 11 < 2 ^ 16
      → ((n : ℕ) → (i : ℕ) × (out.open_tun n (config_name out tid) ≡ some i))
      → ((n port : ℕ) → port < 2 ^ 16 → (x : Handles) × (dial out src n port ≡ connected x))
      → ((n : ℕ) (ifas : List Interface)
          → out.interfaces n ≡ some ifas
          → (ip : Text) × (rest : List (Option Text)) × (ips_named ifname ifas ≡ some ip ∷ rest))
      → ((j q : ℕ) → old j ≡ some q → q < w0.fresh)
      → (at : IsAt out tid old w0 false false w)
      → count_src w.heap (entries at.server) src < out.options.mux_max
      → Returns
          (λ _ w'. Connects out tid old src ifname w0 w')
          ((do
            lock out tid
            s ← read_server out tid
            if leb out.options.mux_max (count_src w.heap (entries s) src)
                then unlock out tid
                else do
                  spawn_tun ← ensure_tun out tid
                  ensure_map out tid
                  unlock out tid
                  connect_slot out tid src ifname spawn_tun)
            w)
  unfolding lock
  below_limit-Connects w pos small tuns opens answers below at few =
      let t : Server out = record at.server { locked = true } in
      let v : State out = record w { servers = insert tid t w.servers } in
      Returns-same
        {o' = (do
          spawn_tun ← ensure_tun out tid
          ensure_map out tid
          unlock out tid
          connect_slot out tid src ifname spawn_tun)
          v}
        (ground (arith, at.found, at.lock_is, lookup-insert_self tid t w.servers, few))
        (Returns-bind (ensure_tun out tid) _ v
          (ensure_tun-IsAt out tid old w0 false v tuns
            (written-IsAt out tid old w0 false false true t w at refl refl refl))
          λ spawn_tun u at1.
            Returns-bind (ensure_map out tid) _ u (ensure_map-IsAt out tid old w0 u at1) λ _ u1 at2.
              Returns-bind (unlock out tid) _ u1 (unlock-IsAt out tid old w0 true true u1 at2)
                λ _ u2 at3.
                  connect_slot-Connects out old src ifname w0 spawn_tun u2 pos small opens answers
                    below at3)

  -- A tunnel that is in the table.
  known-IsAt :
      (s : Server out)
      → lookup tid w0.servers ≡ some s
      → s.locked ≡ false
      → IsCoherent out w0.heap s
      → ((d : Dict ℕ) → s.connections ≡ some d → (c : out.Circle) × (s.consistent ≡ some c))
      → ((k : ℕ) → lookup k (entries s) ≡ old k)
      → (at : IsAt out tid old w0 false false w0) × (at.server ≡ s)
  known-IsAt s found free good pairs table = (
    record {
      server = s;
      found = found;
      lock_is = free;
      table = table;
      coherent = good;
      paired = pairs;
      map_made = λ e. cc;
      heap_kept = refl;
      fresh_kept = refl;
      others = λ t ne. refl;
    },
    refl,
  )

-- A tunnel that client_connect_server makes.
fresh-IsAt :
    (out : Outside) (tid : ℕ) (w : State out)
    → (at : IsAt out tid
        (λ k. none)
        w
        false
        false
        (record w { servers = insert tid (new_server out) w.servers }))
      × (at.server ≡ new_server out)
unfolding lookup
fresh-IsAt out tid w = (
  record {
    server = new_server out;
    found = lookup-insert_self tid (new_server out) w.servers;
    lock_is = refl;
    table = λ k. refl;
    coherent = record { known = λ k p e. cc; named = λ t on. absurd on; placed = λ k p e. cc };
    paired = λ d e. cc;
    map_made = λ e. cc;
    heap_kept = refl;
    fresh_kept = refl;
    others = λ t ne. lookup-insert_ne tid t (new_server out) w.servers ne;
  },
  refl,
)

-- For the program's own tunnel id, which is not 0 and at most 65524, and a limit that is not 0,
-- a default route that comes up ends in a connection: client_connect_server returns and has put
-- one entry into the first open slot from the tunnel id on, or into the twelfth when eleven are in
-- use; the entry is a new connection with that convid, with an open session, and with the source
-- address and interface of the route. The other entries, connections and tunnels are left, the
-- table is coherent and the mutex free. The tunnel is new or, when it is in the table, its mutex is
-- free, it is coherent, has a circle if it has a map, holds pointers to connections already made,
-- and is below the limit for the address. The tun device opens, sessions open for every local port
-- below 65536, and the interfaces of that name, when they can be listed, start with an IPv4 address.
pub connect_server-Connects :
    (out : Outside) (src ifname : Text) (w : State out)
    → 0 < out.options.tunnel_id
    → out.options.tunnel_id + 11 < 2 ^ 16
    → 0 < out.options.mux_max
    → ((n : ℕ) → (i : ℕ) × (out.open_tun n (config_name out out.options.tunnel_id) ≡ some i))
    → ((n port : ℕ) → port < 2 ^ 16 → (x : Handles) × (dial out src n port ≡ connected x))
    → ((n : ℕ) (ifas : List Interface)
        → out.interfaces n ≡ some ifas
        → (ip : Text) × (rest : List (Option Text)) × (ips_named ifname ifas ≡ some ip ∷ rest))
    → ((s : Server out)
        → lookup out.options.tunnel_id w.servers ≡ some s
        → (s.locked ≡ false)
          × IsCoherent out w.heap s
          × ((d : Dict ℕ) → s.connections ≡ some d → (c : out.Circle) × (s.consistent ≡ some c))
          × ((j q : ℕ) → lookup j (entries s) ≡ some q → q < w.fresh)
          × (count_src w.heap (entries s) src < out.options.mux_max))
    → Returns
        (λ _ w'.
          Connects out out.options.tunnel_id
            (entries_at out (lookup out.options.tunnel_id w.servers))
            src
            ifname
            w
            w')
        (connect_server out out.options.tunnel_id src ifname w)
unfolding connect_server count_src
connect_server-Connects out src ifname w pos small limit tuns opens answers ready =
    elim (Option-cases (lookup out.options.tunnel_id w.servers)) [
      | inl missing ↦
          let tid = out.options.tunnel_id in
          let (at, is_new) = fresh-IsAt out tid w in
          rw missing (
            below_limit-Connects out src ifname (λ k. none) w
              (record w { servers = insert tid (new_server out) w.servers }) pos small tuns opens
              answers (λ j q e. cc) at
              (subst (λ (t : Server out). count_src w.heap (entries t) src < out.options.mux_max)
                (sym is_new) limit))
      | inr (s, there) ↦
          let (free, good, pairs, below, few) = ready s there in
          let (at, is_s) =
            known-IsAt out src ifname (λ k. lookup k (entries s)) w s there free good pairs
              (λ k. refl) in
          rw there (
            below_limit-Connects out src ifname (λ k. lookup k (entries s)) w w pos small tuns opens
              answers below at
              (subst (λ (t : Server out). count_src w.heap (entries t) src < out.options.mux_max)
                (sym is_s) few))
    ]
