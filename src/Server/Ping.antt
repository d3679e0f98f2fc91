-- ===== src/Server/Ping.antt =====
-- main.go: server_send_client_pings.
use ratbond.Server.Disconnect.{server_disconnect_by_convid}
use ratbond.Server.State.{
  ClientConnection, client_entries, Served, process, load_conn, store_conn, read_client,
  range_convids,
}
use ratbond.Base.{
  ℕ, ◌-◌, none, some, List, [], ◌∷◌, ltb, if◌then◌else◌, lookup, keys, M, ◌>>=◌, ◌>>◌, pure, get,
}
use ratbond.Outside.{Outside}
use ratbond.Client.State.{starts_hello, emit, next_call}
use ratbond.Client.Ping.{max_hello}

module _ (out : Outside) where
  open out use {now, megabits, range}

  unfoldable pub update_client_bandwidth : ℕ → ClientConnection → ClientConnection
  update_client_bandwidth t c = record c {
    txbandwidth = megabits c.txbytes (t - c.last_bw_update);
    txbytes = 0;
    rxbandwidth = megabits c.rxbytes (t - c.last_bw_update);
    rxbytes = 0;
    last_bw_update = t;
  }

  -- One connection: it is closed when its last hello is more than five seconds old.
  unfoldable pub ping_client_one : ℕ → ℕ → M (Served out) (Unit {0})
  unfolding server_disconnect_by_convid
  ping_client_one tid k = do
    s ← read_client out tid
    elim (lookup k (client_entries s)) [
      | none ↦ pure tt
      | some p ↦ do
        n ← process out (next_call out)
        c ← load_conn out p
        if ltb max_hello (now n - c.last_hello)
            then server_disconnect_by_convid out s.base_convid c.convid
            else do
              elim c.session [
                | none ↦ pure tt
                | some x ↦ process out (emit out (starts_hello s.base_convid p))
              ]
              store_conn out p (update_client_bandwidth (now n) c)
    ]

  unfoldable pub ping_client_connections : ℕ → List ℕ → M (Served out) (Unit {0})
  unfolding ping_client_one
  ping_client_connections tid [] = pure tt
  ping_client_connections tid (k ∷ ks) = do ping_client_one tid k; ping_client_connections tid ks

  unfoldable pub ping_client : ℕ → M (Served out) (Unit {0})
  unfolding ping_client_connections range_convids
  ping_client tid = do ks ← range_convids out tid; ping_client_connections tid ks

  unfoldable pub ping_clients : List ℕ → M (Served out) (Unit {0})
  unfolding ping_client
  ping_clients [] = pure tt
  ping_clients (tid ∷ tids) = do ping_client tid; ping_clients tids

  unfoldable pub send_client_pings : M (Served out) (Unit {0})
  unfolding ping_clients
  send_client_pings = do
    n ← process out (next_call out)
    w ← get
    ping_clients (range n (keys w.clients))
