-- ===== src/Client/Connect.antt =====
-- main.go: client_connect_server and client_check_paths.
use ratbond.Network.Wan.{get_wan_ip}
use ratbond.Client.Opening.{runthing, run, create_tun, create_session}
use ratbond.Base.{
  ℕ, zero, suc, ◌+◌, Bool, true, false, Option, none, some, [], ◌∷◌, leb, ◌==◌, if◌then◌else◌, Text,
  codes, decimal, Dict, lookup, insert, nil_deref, deadlock, M, ◌>>=◌, ◌>>◌, pure, stop, get,
  modify, contains_text,
}
use ratbond.Outside.{Outside}
use ratbond.Packet.Wire.{hello}
use ratbond.Client.State.{
  ServerConnection, entries, u32, State, Server, emit, next_call, lock, unlock, starts_reader,
  starts_tun, load, store, read_server, write_server, session_write, set_write_deadline, on_circle,
  set_buffers,
}
use ratbond.Client.Choose.{count_src}
use ratbond.Client.Disconnect.{write_deadline_ms}

-- The loop for an open slot: the first convid from `avail` on that is not in the map, or the one
-- behind `last`. `none` means that the fuel is out.
unfoldable pub find_slot : ℕ → Dict ℕ → ℕ → ℕ → Option ℕ
find_slot zero m last avail = none
find_slot (suc fuel) m last avail =
    let next = find_slot fuel m last (u32 (avail + 1)) in
    if leb avail last
    then elim (lookup avail m) [ none ↦ some avail | some p ↦ next ]
    else some avail

-- `for avail=tunnelid; avail<=tunnelid+10; avail++` makes twelve tests at most, unless
-- tunnelid + 10 is the largest uint32.
unfoldable pub open_slot : Dict ℕ → ℕ → Option ℕ
unfolding find_slot
open_slot m tid = find_slot 12 m (u32 (tid + 10)) tid

-- The fields that client_connect_server sets in a new connection.
unfoldable pub new_connection : ℕ → ℕ → ℕ → ℕ → Text → Text → Text → ServerConnection
new_connection bw_update hello_at up_at avail src wan_ip ifname = record {
  convid = avail;
  session = none;
  ifname = ifname;
  rxloss = 0;
  txloss = 0;
  txcounter = 0;
  txbytes = 0;
  rxcounter = 0;
  rxbytes = 0;
  rxtimeouts = 0;
  txtimeouts = 0;
  priority = 0;
  last_bw_update = bw_update;
  txbandwidth = 0;
  rxbandwidth = 0;
  last_hello = hello_at;
  up_since = up_at;
  alive = true;
  src_address = src;
  wan_ip = wan_ip;
}

module _ (out : Outside) where
  open out use {
    options, Circle, circle_new, circle_add, now, connect, open_tun, tun_name, nil_tun_name, output,
  }

  -- new(serverType), with a new mutex
  abbrev pub new_server : Server out
  new_server = record {
    locked = false;
    connections = none;
    consistent = none;
    iface = none;
    base_convid = 0;
    last_convid = 0;
    ifname = [];
    my_tun_ip = [];
    remote_tun_ip = [];
  }

  -- The route that goes with the table, by whether there is one already.
  unfoldable pub change_route : Text → Text → M (State out) (Unit {0})
  unfolding run
  change_route verb via =
      run out (codes "ip" ∷ codes "route" ∷ verb ∷ codes "default" ∷ codes "via" ∷ via ∷ [])

  unfoldable pub fit_route : Dict ℕ → Bool → Text → M (State out) (Unit {0})
  unfolding change_route
  fit_route [] true via = change_route (codes "delete") via
  fit_route [] false via = pure tt
  fit_route (e ∷ es) true via = pure tt
  fit_route (e ∷ es) false via = change_route (codes "add") via

  unfoldable pub check_paths : M (State out) (Unit {0})
  unfolding runthing fit_route lock unlock
  check_paths = do
    w ← get
    let tid = options.tunnel_id
    elim (lookup tid w.servers) [
      | none ↦ pure tt
      | some s ↦ do
        lock out tid
        check ←
            runthing out
              (codes "ip" ∷ codes "route" ∷ codes "show" ∷ codes "match" ∷ codes "0.0.0.0" ∷ [])
        fit_route (entries s) (contains_text check s.remote_tun_ip) s.remote_tun_ip
        unlock out tid
    ]

  -- iface.Name(), where iface is nil if createTun failed.
  unfoldable pub tun_name_of : Option ℕ → M (State out) Text
  tun_name_of (some i) = do n ← next_call out; pure (tun_name n)
  tun_name_of none = do
    n ← next_call out
    elim nil_tun_name [ none ↦ stop nil_deref | some t ↦ pure t ]

  unfoldable pub make_tun : ℕ → M (State out) Bool
  unfolding create_tun tun_name_of
  make_tun tid = do
    made ← create_tun out tid options.client_tun_ip
    name ← tun_name_of made
    t ← read_server out tid
    write_server out tid (record t {
      iface = made;
      my_tun_ip = options.client_tun_ip;
      remote_tun_ip = options.server_tun_ip;
      ifname = name;
      base_convid = tid;
    })
    pure true

  -- The tun device of a server that has none; says whether one was made.
  unfoldable pub ensure_tun : ℕ → M (State out) Bool
  unfolding make_tun
  ensure_tun tid = do
    s ← read_server out tid
    elim s.iface [ some i ↦ pure false | none ↦ make_tun tid ]

  -- The map and the circle of a server that has none.
  unfoldable pub ensure_map : ℕ → M (State out) (Unit {0})
  ensure_map tid = do
    s ← read_server out tid
    elim s.connections [
      | some m ↦ pure tt
      | none ↦
          write_server out tid (record s { connections = some []; consistent = some circle_new })
    ]

  -- The entry, the session and the name on the circle of the new connection, under the mutex.
  unfoldable pub add_connection : ℕ → ℕ → Text → Text → Text → M (State out) ℕ
  unfolding new_connection create_session set_buffers
  add_connection tid avail src ifname ip = do
    w ← get
    let p = w.fresh
    s ← read_server out tid
    write_server out tid
        (record s { last_convid = 0; connections = some (insert avail p (entries s)) })
    bw_update ← next_call out
    hello_at ← next_call out
    up_at ← next_call out
    modify (λ v. record v { fresh = v.fresh + 1 })
    store out p (new_connection (now bw_update) (now hello_at) (now up_at) avail src ip ifname)
    session ← create_session out avail src
    set_buffers out (some session)
    c ← load out p
    store out p (record c { session = some session })
    on_circle out tid (circle_add (decimal avail))
    pure p

  -- The rest, once the mutex is free: wake the other end, start the goroutines, check the route.
  unfoldable pub start_connection : ℕ → ℕ → Bool → M (State out) (Unit {0})
  unfolding session_write set_write_deadline check_paths
  start_connection tid p spawn_tun = do
    c ← load out p
    set_write_deadline out c.session write_deadline_ms
    result ← session_write out c.session hello
    emit out (starts_reader tid p)
    if spawn_tun then emit out (starts_tun tid) else pure tt
    check_paths

  -- client_connect_server from the point where the mutex is free again.
  unfoldable pub connect_slot : ℕ → Text → Text → Bool → M (State out) (Unit {0})
  unfolding open_slot get_wan_ip add_connection start_connection lock unlock
  connect_slot tid src ifname spawn_tun = do
    s ← read_server out tid
    avail ← elim (open_slot (entries s) tid) [ none ↦ stop deadlock | some k ↦ pure k ]
    if avail == u32 (tid + 100) then pure tt else do
      found ← get_wan_ip out ifname
      lock out tid
      p ← add_connection tid avail src ifname (elim found [ none ↦ [] | some ip ↦ ip ])
      unlock out tid
      start_connection tid p spawn_tun

  unfoldable pub connect_server : ℕ → Text → Text → M (State out) (Unit {0})
  unfolding count_src ensure_tun ensure_map connect_slot lock unlock
  connect_server tid src ifname = do
    w ← get
    elim (lookup tid w.servers) [ none ↦ write_server out tid new_server | some s ↦ pure tt ]
    lock out tid
    s ← read_server out tid
    if leb options.mux_max (count_src w.heap (entries s) src) then unlock out tid else do
      spawn_tun ← ensure_tun tid
      ensure_map tid
      unlock out tid
      connect_slot tid src ifname spawn_tun
