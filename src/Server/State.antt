-- ===== src/Server/State.antt =====
-- main.go: clientConnection, clientType and g_client_list. The server keeps them beside what the
-- client keeps, in one process; what the client's state offers is used by `process`.
use ratbond.Base.{
  ℕ, Bool, true, false, Option, none, some, List, [], ◌==◌, if◌then◌else◌, Text, Dict, lookup,
  insert, keys, nil_deref, deadlock, done, fault, M, ◌>>=◌, pure, stop,
}
use ratbond.Outside.{Outside}
use ratbond.Client.State.{RatSession, World, State, next_call}

pub record ClientConnection : Type 0 where
  pub convid : ℕ
  pub session : Option RatSession
  pub rxloss : ℕ
  pub txloss : ℕ
  pub txcounter : ℕ
  pub txbytes : ℕ
  pub rxcounter : ℕ
  pub rxbytes : ℕ
  pub rxtimeouts : ℕ
  pub txtimeouts : ℕ
  pub priority : ℕ
  pub last_bw_update : ℕ
  pub txbandwidth : ℕ
  pub rxbandwidth : ℕ
  pub last_hello : ℕ
  pub up_since : ℕ
  pub alive : Bool
  pub src_address : Text

-- As in the client's table, `none` is a nil map, circle or interface.
pub record ClientType (C : Type 0) : Type 0 where
  pub locked : Bool
  pub connections : Option (Dict ℕ)
  pub consistent : Option C
  pub iface : Option ℕ
  pub base_convid : ℕ
  pub last_convid : ℕ
  pub ifname : Text
  pub my_tun_ip : Text
  pub remote_tun_ip : Text

-- A *clientConnection is an index into `conns`, a *clientType is named by its tunnel id.
pub record ServerWorld (C : Type 0) : Type 0 where
  pub clients : Dict (ClientType C)
  pub conns : ℕ → ClientConnection
  pub fresh_conn : ℕ
  pub process : World C

abbrev pub client_entries : {C : Type 0} → ClientType C → Dict ℕ
client_entries s = elim s.connections [ none ↦ [] | some m ↦ m ]

unfoldable pub update_conn : (ℕ → ClientConnection) → ℕ → ClientConnection → ℕ → ClientConnection
update_conn h p c q = if p == q then c else h q

module _ (out : Outside) where
  open out use {Circle, range}

  abbrev pub Served : Type 0
  Served = ServerWorld Circle

  abbrev pub Client : Type 0
  Client = ClientType Circle

  -- An operation on the parts of the process that both ends have.
  abbrev pub process : {A : Type 0} → M (State out) A → M Served A
  process m w = elim (m w.process) [
    | done a v ↦ done a (record w { process = v })
    | fault e v ↦ fault e (record w { process = v })
  ]

  abbrev pub load_conn : ℕ → M Served ClientConnection
  load_conn p w = done (w.conns p) w

  abbrev pub store_conn : ℕ → ClientConnection → M Served (Unit {0})
  store_conn p c w = done tt (record w { conns = update_conn w.conns p c })

  abbrev pub read_client : ℕ → M Served Client
  read_client tid w = elim (lookup tid w.clients) [ none ↦ fault nil_deref w | some s ↦ done s w ]

  abbrev pub write_client : ℕ → Client → M Served (Unit {0})
  write_client tid s w = done tt (record w { clients = insert tid s w.clients })

  -- client.mu.Lock() and Unlock()
  unfoldable pub lock_client : ℕ → M Served (Unit {0})
  lock_client tid = do
    s ← read_client tid
    if s.locked then stop deadlock else write_client tid (record s { locked = true })

  unfoldable pub unlock_client : ℕ → M Served (Unit {0})
  unlock_client tid = do s ← read_client tid; write_client tid (record s { locked = false })

  -- The keys of client.connections, in the order in which this `range` visits them.
  unfoldable pub range_convids : ℕ → M Served (List ℕ)
  range_convids tid = do
    s ← read_client tid
    n ← process (next_call out)
    pure (range n (keys (client_entries s)))

  abbrev pub on_client_circle : ℕ → (Circle → Circle) → M Served (Unit {0})
  on_client_circle tid f = do
    s ← read_client tid
    elim s.consistent [
      | none ↦ stop nil_deref
      | some c ↦ write_client tid (record s { consistent = some (f c) })
    ]
