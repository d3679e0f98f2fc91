-- ===== src/Server/Choose.antt =====
-- main.go: server_choose_kcp_conn, the packet scheduler of the server.
use ratbond.Server.State.{client_entries, Served, read_client, write_client, range_convids}
use ratbond.Base.{
  ℕ, Option, none, some, List, if◌then◌else◌, atoi, nil_deref, M, ◌>>=◌, ◌>>◌, pure, stop, get,
}
use ratbond.Outside.{Outside}
use ratbond.Client.Choose.{round_robin}
use ratbond.Packet.Flow.{extract_dst}
use ratbond.Client.State.{u32}

module _ (out : Outside) where
  open out use {options, circle_get, parse_header}

  -- The consistent hashing of a packet: `none` is an error of Get or of Atoi.
  unfoldable pub server_choose_hashed : ℕ → List ℕ → ℕ → M (Served out) (Option ℕ)
  server_choose_hashed tid packet packet_len = do
    key ← elim (extract_dst parse_header packet packet_len) [
      | none ↦ stop nil_deref
      | some t ↦ pure t
    ]
    s ← read_client out tid
    circle ← elim s.consistent [ none ↦ stop nil_deref | some c ↦ pure c ]
    pure (elim (circle_get key circle) [
      | none ↦ none
      | some owner ↦ elim (atoi owner) [ none ↦ none | some n ↦ some (u32 n) ]
    ])

  -- The round robin never fails: of an empty table it chooses 0.
  unfoldable pub server_choose_next : ℕ → M (Served out) ℕ
  unfolding round_robin range_convids
  server_choose_next tid = do
    s ← read_client out tid
    ks ← range_convids out tid
    w ← get
    let chosen = round_robin (λ p. (w.conns p).alive) (client_entries s) s.last_convid 0 ks
    write_client out tid (record s { last_convid = chosen })
    pure chosen

  unfoldable pub server_choose : ℕ → Option (List ℕ × ℕ) → M (Served out) (Option ℕ)
  unfolding server_choose_hashed server_choose_next
  server_choose tid none = do k ← server_choose_next tid; pure (some k)
  server_choose tid (some (packet, len)) =
      if options.use_consistent_hashing
      then server_choose_hashed tid packet len
      else (do k ← server_choose_next tid; pure (some k))
