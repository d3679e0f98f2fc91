-- ===== src/Client/Disconnect.antt =====
-- main.go: client_close_connection, client_send_linkdown_message and the three functions that
-- disconnect: by interface, by source address, by convid.
use mathlib.Core.Option
use ratbond.Base.{
  ℕ, ◌+◌, Bool, Option, none, some, List, [], ◌∷◌, ◌==◌, if◌then◌else◌, Text, text_eq, decimal,
  lookup, delete, M, ◌>>=◌, ◌>>◌, pure, get,
}
use ratbond.Outside.{Outside, written, timed_out, failed}
use ratbond.Packet.Wire.{linkdown_message}
use ratbond.Client.State.{
  ServerConnection, State, load, store, read_server, write_server, lock, unlock, range_keys,
  session_close, session_write, set_write_deadline, on_circle, entries, u64,
}
use ratbond.Client.Choose.{choose}

-- const g_write_deadline
abbrev pub write_deadline_ms : ℕ
write_deadline_ms = 2000

module _ (out : Outside) where
  open out use {circle_remove}

  unfoldable pub close_connection : ℕ → ℕ → ℕ → M (State out) (Unit {0})
  unfolding session_close
  close_connection tid p convid = do
    c ← load out p
    session_close out c.session
    c' ← load out p
    store out p (record c' { session = none })
    s ← read_server out tid
    write_server out tid (record s { last_convid = 0 })
    on_circle out tid (circle_remove (decimal convid))
    s' ← read_server out tid
    write_server out tid (record s' { connections = Option.map (delete convid) s'.connections })

  -- The message goes out by any connection that is left; `len(b)` is that of the encoded number.
  unfoldable pub send_by : ℕ → ℕ → M (State out) (Unit {0})
  unfolding session_write set_write_deadline
  send_by p disc_convid = do
    c ← load out p
    set_write_deadline out c.session write_deadline_ms
    result ← session_write out c.session (linkdown_message disc_convid)
    c' ← load out p
    elim result [
      | written ↦
          store out p
            (record c' { txcounter = u64 (c'.txcounter + 1); txbytes = u64 (c'.txbytes + 2) })
      | timed_out ↦ pure tt
      | failed ↦ pure tt
    ]

  -- `none` and 0 stand for no connection.
  unfoldable pub linkdown_by : ℕ → ℕ → Option ℕ → M (State out) (Unit {0})
  unfolding send_by
  linkdown_by tid disc_convid none = pure tt
  linkdown_by tid disc_convid (some k) = do
    s ← read_server out tid
    if k == 0
        then pure tt
        else elim (lookup k (entries s)) [ none ↦ pure tt | some p ↦ send_by p disc_convid ]

  unfoldable pub send_linkdown : ℕ → ℕ → M (State out) (Unit {0})
  unfolding choose linkdown_by
  send_linkdown tid disc_convid = do
    chosen ← choose out tid none
    linkdown_by tid disc_convid chosen

  -- The loop that the three functions share: `test` says which connections go. A key that is no
  -- longer in the map is not visited.
  unfoldable pub close_one : (ServerConnection → Bool) → ℕ → ℕ → M (State out) (Unit {0})
  unfolding close_connection send_linkdown
  close_one test tid k = do
    s ← read_server out tid
    elim (lookup k (entries s)) [
      | none ↦ pure tt
      | some p ↦ do
        c ← load out p
        if test c then (do close_connection tid p k; send_linkdown tid k) else pure tt
    ]

  unfoldable pub close_matching : (ServerConnection → Bool) → ℕ → List ℕ → M (State out) (Unit {0})
  unfolding close_one
  close_matching test tid [] = pure tt
  close_matching test tid (k ∷ ks) = do close_one test tid k; close_matching test tid ks

  unfoldable pub disconnect_matching : (ServerConnection → Bool) → ℕ → M (State out) (Unit {0})
  unfolding close_matching lock unlock range_keys
  disconnect_matching test tid = do
    lock out tid
    ks ← range_keys out tid
    close_matching test tid ks
    unlock out tid

  -- client_disconnect_session_by_ifname returns when there is no such tunnel.
  unfoldable pub disconnect_by_ifname : ℕ → Text → M (State out) (Unit {0})
  unfolding disconnect_matching
  disconnect_by_ifname tid ifname = do
    w ← get
    elim (lookup tid w.servers) [
      | none ↦ pure tt
      | some s ↦ disconnect_matching (λ c. text_eq c.ifname ifname) tid
    ]

  -- The other two go on with the nil pointer, which locking its mutex panics on.
  unfoldable pub disconnect_by_src : ℕ → Text → M (State out) (Unit {0})
  unfolding disconnect_matching
  disconnect_by_src tid src = disconnect_matching (λ c. text_eq c.src_address src) tid

  unfoldable pub disconnect_by_convid : ℕ → ℕ → M (State out) (Unit {0})
  unfolding disconnect_matching
  disconnect_by_convid tid disc_convid = disconnect_matching (λ c. c.convid == disc_convid) tid
