-- ===== src/Client/Choose.antt =====
-- main.go: client_choose_kcp_conn, the packet scheduler, and client_num_connections_by_src.
use ratbond.Base.{
  ℕ, ◌+◌, Bool, true, false, ◌&&◌, not, Option, none, some, List, [], ◌∷◌, ◌==◌, if◌then◌else◌,
  Text, text_eq, atoi, Dict, lookup, nil_deref, M, ◌>>=◌, ◌>>◌, pure, stop, get,
}
use ratbond.Outside.{Outside}
use ratbond.Packet.Flow.{extract_src}
use ratbond.Client.State.{
  ServerConnection, entries, State, read_server, write_server, range_keys, u32,
}

-- The loop of the round robin: the first connection other than the last one that is alive, or
-- else the connection visited last. A key that is no longer in the map is not visited.
unfoldable pub round_robin : (ℕ → Bool) → Dict ℕ → ℕ → ℕ → List ℕ → ℕ
round_robin alive m last some_convid [] = some_convid
round_robin alive m last some_convid (k ∷ ks) = elim (lookup k m) [
  | none ↦ round_robin alive m last some_convid ks
  | some p ↦ elim (not (k == last) && alive p) [ true ↦ k | false ↦ round_robin alive m last k ks ]
]

-- The loop of client_num_connections_by_src.
unfoldable pub count_src : (ℕ → ServerConnection) → Dict ℕ → Text → ℕ
count_src heap [] src = 0
count_src heap ((k, p) ∷ m) src =
    let rest = count_src heap m src in if text_eq (heap p).src_address src then rest + 1 else rest

module _ (out : Outside) where
  open out use {options, circle_get, parse_header}

  -- The consistent hashing of a packet: `none` is an error of Get or of Atoi.
  unfoldable pub choose_hashed : ℕ → List ℕ → ℕ → M (State out) (Option ℕ)
  choose_hashed tid packet packet_len = do
    s ← read_server out tid
    key ← elim (extract_src parse_header packet packet_len) [
      | none ↦ stop nil_deref
      | some t ↦ pure t
    ]
    circle ← elim s.consistent [ none ↦ stop nil_deref | some c ↦ pure c ]
    pure (elim (circle_get key circle) [
      | none ↦ none
      | some owner ↦ elim (atoi owner) [ none ↦ none | some n ↦ some (u32 n) ]
    ])

  unfoldable pub choose_next : ℕ → M (State out) (Option ℕ)
  unfolding round_robin range_keys
  choose_next tid = do
    s ← read_server out tid
    elim (entries s) [
      | [] ↦ pure none
      | e ∷ es ↦ do
        ks ← range_keys out tid
        w ← get
        let chosen = round_robin (λ p. (w.heap p).alive) (entries s) s.last_convid 0 ks
        write_server out tid (record s { last_convid = chosen })
        pure (some chosen)
    ]

  -- client_choose_kcp_conn. No packet is a nil pointer; `none` is an error.
  unfoldable pub choose : ℕ → Option (List ℕ × ℕ) → M (State out) (Option ℕ)
  unfolding choose_hashed choose_next
  choose tid none = choose_next tid
  choose tid (some (packet, len)) =
      if options.use_consistent_hashing then choose_hashed tid packet len else choose_next tid
