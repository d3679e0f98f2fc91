-- ===== src/Client/State.antt =====
-- main.go: serverConnection, serverType, g_server_list; r_tunnel.go: RatSession and its methods.
-- A *serverConnection is an index into a heap. A *serverType is made once for a tunnel id and
-- never taken off g_server_list, so that id stands for the pointer.
pub use ratbond.Session.{
  RatSession, Effect, kcp_writes, kcp_closes, udp_closes, tun_writes, runs, sleeps, sets_options,
  sets_buffers, client_options, server_options, session_options, read_deadline, write_deadline,
  starts_reader, starts_tun, starts_hello, u32, u64,
}
unfoldable pub use ratbond.Session.{close_effects}
use ratbond.Base.{
  ℕ, ◌+◌, Bool, true, false, Option, none, some, List, [], ◌∷◌, ◌++◌, ◌==◌, if◌then◌else◌, Text,
  Dict, lookup, insert, keys, nil_deref, deadlock, done, fault, M, ◌>>=◌, ◌>>◌, pure, stop,
}
use ratbond.Outside.{Outside, Written, failed, Received, read_failed}

pub record ServerConnection : Type 0 where
  pub convid : ℕ
  pub session : Option RatSession
  pub ifname : Text
  pub rxloss : ℕ
  pub txloss : ℕ
  pub txcounter : ℕ
  pub txbytes : ℕ
  pub rxcounter : ℕ
  pub rxbytes : ℕ
  pub rxtimeouts : ℕ
  pub txtimeouts : ℕ
  pub priority : ℕ
  pub last_bw_update : ℕ
  pub txbandwidth : ℕ
  pub rxbandwidth : ℕ
  pub last_hello : ℕ
  pub up_since : ℕ
  pub alive : Bool
  pub src_address : Text
  pub wan_ip : Text

-- `locked` is the mutex; `none` is a nil map, circle or interface. No reorder buffer is ever made.
pub record ServerType (C : Type 0) : Type 0 where
  pub locked : Bool
  pub connections : Option (Dict ℕ)
  pub consistent : Option C
  pub iface : Option ℕ
  pub base_convid : ℕ
  pub last_convid : ℕ
  pub ifname : Text
  pub my_tun_ip : Text
  pub remote_tun_ip : Text

-- The globals, the heap with its next free index, the calls made so far, and the effects, the
-- newest first.
pub record World (C : Type 0) : Type 0 where
  pub servers : Dict (ServerType C)
  pub heap : ℕ → ServerConnection
  pub fresh : ℕ
  pub calls : ℕ
  pub trace : List Effect

abbrev pub entries : {C : Type 0} → ServerType C → Dict ℕ
entries s = elim s.connections [ none ↦ [] | some m ↦ m ]

unfoldable pub update : (ℕ → ServerConnection) → ℕ → ServerConnection → ℕ → ServerConnection
update h p c q = if p == q then c else h q

module _ (out : Outside) where
  open out use {Circle, range, kcp_state, kcp_write, kcp_read}

  abbrev pub State : Type 0
  State = World Circle

  abbrev pub Server : Type 0
  Server = ServerType Circle

  abbrev pub load : ℕ → M State ServerConnection
  load p w = done (w.heap p) w

  abbrev pub store : ℕ → ServerConnection → M State (Unit {0})
  store p c w = done tt (record w { heap = update w.heap p c })

  -- The fields of *server; a panic if the pointer is nil.
  abbrev pub read_server : ℕ → M State Server
  read_server tid w = elim (lookup tid w.servers) [ none ↦ fault nil_deref w | some s ↦ done s w ]

  abbrev pub write_server : ℕ → Server → M State (Unit {0})
  write_server tid s w = done tt (record w { servers = insert tid s w.servers })

  abbrev pub emit : Effect → M State (Unit {0})
  emit e w = done tt (record w { trace = e ∷ w.trace })

  -- The number of this call of the outside.
  abbrev pub next_call : M State ℕ
  next_call w = done w.calls (record w { calls = w.calls + 1 })

  -- server.mu.Lock() and Unlock(). A goroutine that locks twice never goes on.
  unfoldable pub lock : ℕ → M State (Unit {0})
  lock tid = do
    s ← read_server tid
    if s.locked then stop deadlock else write_server tid (record s { locked = true })

  unfoldable pub unlock : ℕ → M State (Unit {0})
  unlock tid = do s ← read_server tid; write_server tid (record s { locked = false })

  -- The keys of server.connections, in the order in which this `range` visits them.
  unfoldable pub range_keys : ℕ → M State (List ℕ)
  range_keys tid = do s ← read_server tid; n ← next_call; pure (range n (keys (entries s)))

  -- RatSession.Close
  unfoldable pub session_close : Option RatSession → M State (Unit {0})
  unfolding close_effects
  session_close session w = done tt (record w { trace = close_effects session ++ w.trace })

  -- RatSession.Write; a nil session is the error "nil session".
  unfoldable pub session_write : Option RatSession → List ℕ → M State Written
  session_write none b = pure failed
  session_write (some s) b = do emit (kcp_writes s.kcp b); n ← next_call; pure (kcp_write n)

  -- RatSession.Read
  unfoldable pub session_read : Option RatSession → M State Received
  session_read none = pure read_failed
  session_read (some s) = do n ← next_call; pure (kcp_read n)

  -- RatSession.GetState
  unfoldable pub session_state : Option RatSession → M State ℕ
  session_state none = pure 0
  session_state (some s) = do n ← next_call; pure (kcp_state n)

  -- RatSession.SetReadDeadline and SetWriteDeadline, in milliseconds from now
  unfoldable pub set_read_deadline : Option RatSession → ℕ → M State (Unit {0})
  set_read_deadline none ms = pure tt
  set_read_deadline (some s) ms = emit (read_deadline s.kcp ms)

  unfoldable pub set_write_deadline : Option RatSession → ℕ → M State (Unit {0})
  set_write_deadline none ms = pure tt
  set_write_deadline (some s) ms = emit (write_deadline s.kcp ms)

  -- RatSession.SetReadBuffer and SetWriteBuffer, which are called together, with one size
  unfoldable pub set_buffers : Option RatSession → M State (Unit {0})
  set_buffers none = pure tt
  set_buffers (some s) = emit (sets_buffers s.kcp)

  -- The name under which a connection is on the circle.
  abbrev pub on_circle : ℕ → (Circle → Circle) → M State (Unit {0})
  on_circle tid f = do
    s ← read_server tid
    elim s.consistent [
      | none ↦ stop nil_deref
      | some c ↦ write_server tid (record s { consistent = some (f c) })
    ]
