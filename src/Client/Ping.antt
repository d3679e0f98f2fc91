-- ===== src/Client/Ping.antt =====
-- main.go: client_send_server_pings.
use ratbond.Base.{
  ℕ, ◌-◌, none, some, List, [], ◌∷◌, ltb, if◌then◌else◌, lookup, keys, M, ◌>>=◌, ◌>>◌, pure, get,
}
use ratbond.Outside.{Outside}
use ratbond.Client.State.{
  ServerConnection, starts_hello, entries, State, load, store, read_server, emit, next_call,
  range_keys,
}
use ratbond.Client.Disconnect.{disconnect_by_convid}

-- const g_max_hello, in nanoseconds
abbrev pub max_hello : ℕ
max_hello = 5000000000

module _ (out : Outside) where
  open out use {now, megabits, range}

  -- The rates since the last update; `t1.Sub` of an earlier time is not negative.
  unfoldable pub update_bandwidth : ℕ → ServerConnection → ServerConnection
  update_bandwidth t c = record c {
    txbandwidth = megabits c.txbytes (t - c.last_bw_update);
    txbytes = 0;
    rxbandwidth = megabits c.rxbytes (t - c.last_bw_update);
    rxbytes = 0;
    last_bw_update = t;
  }

  -- One connection: it is closed when its last hello is more than five seconds old.
  unfoldable pub ping_one : ℕ → ℕ → M (State out) (Unit {0})
  ping_one tid k = do
    s ← read_server out tid
    elim (lookup k (entries s)) [
      | none ↦ pure tt
      | some p ↦ do
        n ← next_call out
        c ← load out p
        if ltb max_hello (now n - c.last_hello)
            then disconnect_by_convid out s.base_convid c.convid
            else do
              elim c.session [ none ↦ pure tt | some x ↦ emit out (starts_hello s.base_convid p) ]
              store out p (update_bandwidth (now n) c)
    ]

  unfoldable pub ping_connections : ℕ → List ℕ → M (State out) (Unit {0})
  unfolding ping_one
  ping_connections tid [] = pure tt
  ping_connections tid (k ∷ ks) = do ping_one tid k; ping_connections tid ks

  unfoldable pub ping_server : ℕ → M (State out) (Unit {0})
  unfolding ping_connections range_keys
  ping_server tid = do ks ← range_keys out tid; ping_connections tid ks

  unfoldable pub ping_servers : List ℕ → M (State out) (Unit {0})
  unfolding ping_server
  ping_servers [] = pure tt
  ping_servers (tid ∷ tids) = do ping_server tid; ping_servers tids

  unfoldable pub send_server_pings : M (State out) (Unit {0})
  unfolding ping_servers
  send_server_pings = do n ← next_call out; w ← get; ping_servers (range n (keys w.servers))
