-- ===== src/Server/Disconnect.antt =====
-- main.go: server_close_connection and server_disconnect_session_by_convid.
use mathlib.Core.Option
use ratbond.Server.State.{
  client_entries, Served, process, load_conn, read_client, write_client, lock_client, unlock_client,
  range_convids, on_client_circle,
}
use ratbond.Base.{
  ℕ, none, some, List, [], ◌∷◌, ◌==◌, if◌then◌else◌, decimal, lookup, delete, M, ◌>>=◌, ◌>>◌, pure,
  get,
}
use ratbond.Outside.{Outside}
use ratbond.Client.State.{session_close}

module _ (out : Outside) where
  open out use {circle_remove}

  unfoldable pub server_close_connection : ℕ → ℕ → M (Served out) (Unit {0})
  unfolding session_close
  server_close_connection tid p = do
    s ← read_client out tid
    write_client out tid (record s { last_convid = 0 })
    c ← load_conn out p
    process out (session_close out c.session)

  unfoldable pub server_remove : ℕ → ℕ → ℕ → M (Served out) (Unit {0})
  unfolding server_close_connection
  server_remove tid p k = do
    on_client_circle out tid (circle_remove (decimal k))
    server_close_connection tid p
    s ← read_client out tid
    write_client out tid (record s { connections = Option.map (delete k) s.connections })

  -- One turn of the loop. A key that is no longer in the map is not visited.
  unfoldable pub server_close_one : ℕ → ℕ → ℕ → M (Served out) (Unit {0})
  unfolding server_remove
  server_close_one tid disc_convid k = do
    s ← read_client out tid
    elim (lookup k (client_entries s)) [
      | none ↦ pure tt
      | some p ↦ do
        c ← load_conn out p
        if c.convid == disc_convid then server_remove tid p k else pure tt
    ]

  unfoldable pub server_close_matching : ℕ → ℕ → List ℕ → M (Served out) (Unit {0})
  unfolding server_close_one
  server_close_matching tid disc_convid [] = pure tt
  server_close_matching tid disc_convid (k ∷ ks) = do
    server_close_one tid disc_convid k
    server_close_matching tid disc_convid ks

  unfoldable pub server_disconnect_locked : ℕ → ℕ → M (Served out) (Unit {0})
  unfolding server_close_matching lock_client unlock_client range_convids
  server_disconnect_locked tid disc_convid = do
    lock_client out tid
    ks ← range_convids out tid
    server_close_matching tid disc_convid ks
    unlock_client out tid

  unfoldable pub server_disconnect_by_convid : ℕ → ℕ → M (Served out) (Unit {0})
  unfolding server_disconnect_locked
  server_disconnect_by_convid tid disc_convid = do
    w ← get
    elim (lookup tid w.clients) [
      | none ↦ pure tt
      | some s ↦ server_disconnect_locked tid disc_convid
    ]
