-- ===== src/Server/Accept.antt =====
-- main.go: server_accept_conn up to its read loop, with createTun, and the body of
-- server_handle_kcp_listener.
use ratbond.Server.State.{
  ClientConnection, client_entries, Served, Client, process, store_conn, read_client, write_client,
  lock_client, unlock_client, on_client_circle,
}
use ratbond.Base.{
  ℕ, ◌+◌, Bool, true, false, Option, none, some, List, [], ◌∷◌, if◌then◌else◌, Text, decimal,
  lookup, insert, nil_deref, M, ◌>>=◌, ◌>>◌, pure, stop, get, modify,
}
use ratbond.Outside.{Outside}
use ratbond.Client.State.{
  RatSession, starts_tun, sets_options, session_options, server_options, emit, next_call,
}
use ratbond.Client.Opening.{create_tun}

-- The connection that server_accept_conn makes; the three times are those of its calls of Now.
unfoldable pub new_client_connection : ℕ → ℕ → ℕ → ℕ → RatSession → Text → ClientConnection
new_client_connection bw_update hello_at up_at convid session src_address = record {
  convid = convid;
  session = some session;
  rxloss = 0;
  txloss = 0;
  txcounter = 0;
  txbytes = 0;
  rxcounter = 0;
  rxbytes = 0;
  rxtimeouts = 0;
  txtimeouts = 0;
  priority = 0;
  last_bw_update = bw_update;
  txbandwidth = 0;
  rxbandwidth = 0;
  last_hello = hello_at;
  up_since = up_at;
  alive = true;
  src_address = src_address;
}

module _ (out : Outside) where
  open out use {
    options, circle_new, circle_add, now, tun_name, nil_tun_name, get_conv, remote_addr, is_private,
  }

  -- new(clientType), with a new mutex
  abbrev pub new_client : Client out
  new_client = record {
    locked = false;
    connections = none;
    consistent = none;
    iface = none;
    base_convid = 0;
    last_convid = 0;
    ifname = [];
    my_tun_ip = [];
    remote_tun_ip = [];
  }

  -- The tun device of a client that has none; says whether one was made. An error of createTun is
  -- only logged, and Name is called on the nil interface.
  unfoldable pub ensure_client_tun : ℕ → M (Served out) Bool
  unfolding create_tun
  ensure_client_tun tid = do
    s ← read_client out tid
    elim s.iface [
      | some i ↦ pure false
      | none ↦ do
        made ← process out (create_tun out tid options.server_tun_ip)
        n ← process out (next_call out)
        name ← elim made [
          | some i ↦ pure (tun_name n)
          | none ↦ elim nil_tun_name [ none ↦ stop nil_deref | some t ↦ pure t ]
        ]
        t ← read_client out tid
        write_client out tid (record t {
          iface = made;
          my_tun_ip = options.server_tun_ip;
          remote_tun_ip = options.client_tun_ip;
          ifname = name;
          base_convid = tid;
        })
        pure true
    ]

  -- The reset of the scheduler, and the connection with its fields; nothing points to it yet.
  unfoldable pub make_connection : ℕ → ℕ → ℕ → M (Served out) ℕ
  unfolding new_client_connection
  make_connection tid convid kcp = do
    s ← read_client out tid
    write_client out tid (record s { last_convid = 0 })
    bw_update ← process out (next_call out)
    hello_at ← process out (next_call out)
    up_at ← process out (next_call out)
    w ← get
    let p = w.fresh_conn
    let session : RatSession = record {
      convid = get_conv kcp;
      kcp = kcp;
      udp_conn = none;
      remote = none;
    }
    modify (λ v. record v { fresh_conn = v.fresh_conn + 1 })
    store_conn out p (
        new_client_connection (now bw_update) (now hello_at) (now up_at) convid session
          (remote_addr kcp))
    pure p

  -- The map and the circle of a client that has none.
  unfoldable pub ensure_client_map : ℕ → M (Served out) (Unit {0})
  ensure_client_map tid = do
    s ← read_client out tid
    elim s.connections [
      | some m ↦ pure tt
      | none ↦
          write_client out tid (record s { connections = some []; consistent = some circle_new })
    ]

  -- The entry, the options and the name on the circle.
  unfoldable pub register_connection : ℕ → ℕ → ℕ → M (Served out) (Unit {0})
  unfolding ensure_client_map
  register_connection tid p kcp = do
    ensure_client_map tid
    t ← read_client out tid
    write_client out tid
        (record t { connections = some (insert (get_conv kcp) p (client_entries t)) })
    process out (emit out (sets_options kcp session_options))
    on_client_circle out tid (circle_add (decimal (get_conv kcp)))

  -- Under the mutex: `none` when the address is private, and whether a tun device was made.
  unfoldable pub accept_locked : ℕ → ℕ → ℕ → M (Served out) (Bool × Option ℕ)
  unfolding ensure_client_tun make_connection register_connection
  accept_locked tid convid kcp = do
    spawn_tun ← ensure_client_tun tid
    p ← make_connection tid convid kcp
    if is_private (remote_addr kcp)
        then pure (spawn_tun, none)
        else do register_connection tid p kcp; pure (spawn_tun, some p)

  -- server_accept_conn up to its read loop: the connection to read from, `none` when it returns.
  unfoldable pub accept_conn : ℕ → ℕ → ℕ → M (Served out) (Option ℕ)
  unfolding accept_locked lock_client unlock_client
  accept_conn tid convid kcp = do
    process out (emit out (sets_options kcp server_options))
    w ← get
    elim (lookup tid w.clients) [ none ↦ write_client out tid new_client | some s ↦ pure tt ]
    lock_client out tid
    accepted ← accept_locked tid convid kcp
    unlock_client out tid
    elim accepted.1 [
      | none ↦ pure none
      | some p ↦ do
        if accepted.0 then process out (emit out (starts_tun tid)) else pure tt
        pure (some p)
    ]

  -- server_handle_kcp_listener, for a session that AcceptKCP returned
  unfoldable pub handle_accepted : ℕ → ℕ → M (Served out) (Option ℕ)
  unfolding accept_conn
  handle_accepted tid kcp = accept_conn tid (get_conv kcp) kcp

  -- server_handle_kcp_listener: what AcceptKCP returns one after the other, `none` for an error,
  -- which ends the loop.
  unfoldable pub handle_kcp_listener : ℕ → List (Option ℕ) → M (Served out) (Unit {0})
  unfolding handle_accepted
  handle_kcp_listener tid [] = pure tt
  handle_kcp_listener tid (none ∷ rest) = pure tt
  handle_kcp_listener tid (some kcp ∷ rest) = do
    p ← handle_accepted tid kcp
    handle_kcp_listener tid rest
