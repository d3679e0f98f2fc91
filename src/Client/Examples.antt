-- ===== src/Client/Examples.antt =====
-- The theorems about the client at concrete inputs.
use ratbond.Client.Disconnect.{disconnect_by_ifname, disconnect_by_src, disconnect_by_convid}
use ratbond.Client.Connect.{open_slot, new_connection}
use ratbond.Client.Invariant.{IsCoherent, Moves}
use ratbond.Client.State.{
  RatSession, ServerConnection, entries, u32, State, Server, tun_writes, read_deadline, update,
}
use ratbond.Client.Disconnected.{
  disconnect_by_convid-Moves, disconnect_by_src-Moves, disconnect_by_ifname-Moves,
  disconnect_unknown,
}
use ratbond.Client.Matching.{hit}
use ratbond.Client.Slots.{IsSlot, open_slot-IsSlot}
use ratbond.Client.Choose.{choose}
use ratbond.Client.Receive.{counted, read_round-frame, read_round-hello}
use ratbond.Client.Scheduler.{Chooses, choose_round_robin, choose_consistent}
use ratbond.Client.Reader.{goes_on, read_round}
use ratbond.Packet.Flow.{extract_src}
use ratbond.Packet.Wire.{client_sort, hello}
use ratbond.Client.Ping.{ping_one, max_hello}
use ratbond.Client.Tunnel.{tun_round}
use ratbond.Client.Age.{Pings, ping_one-by_age}
use ratbond.Client.Forward.{sent, tun_round-sent}
use ratbond.Base.{
  ℕ, ◌-◌, ◌≤◌, ◌<◌, ◌≡◌, refl, sym, ap, ◌≢◌, ◌⊎◌, inl, inr, true, false, none, some, List, [], ◌∷◌,
  arith, ◌==◌, codes, text_eq, decimal, hex, lookup, nil_deref, done, fault, Returns,
}
use ratbond.Outside.{Outside, received}
use ratbond.Outside.Sample.{sample, parse}

abbrev session_660 : RatSession
session_660 = record { convid = 660; kcp = 3; udp_conn = some 4; remote = none }

abbrev link_660 : ServerConnection
link_660 = record (new_connection 0 0 0 660 (codes "10.0.0.1") [] (codes "eth1")) {
  session = some session_660;
}

abbrev pub table_660 : Server sample
table_660 = record {
  locked = false;
  connections = some ((660, 0) ∷ []);
  consistent = some (decimal 660 ∷ []);
  iface = some 9;
  base_convid = 660;
  last_convid = 0;
  ifname = codes "tun0";
  my_tun_ip = codes "10.10.10.1";
  remote_tun_ip = codes "10.10.10.2";
}

abbrev pub world_660 : State sample
world_660 = record {
  servers = (660, table_660) ∷ [];
  heap = λ p. link_660;
  fresh = 1;
  calls = 0;
  trace = [];
}

pub lookup-660 : (k p : ℕ) → lookup {V = ℕ} k ((660, 0) ∷ []) ≡ some p → (k ≡ 660) × (p ≡ 0)
unfolding lookup
lookup-660 k p e = ground arith

pub table_660-IsCoherent : IsCoherent sample world_660.heap table_660
unfolding lookup new_connection
table_660-IsCoherent = record {
  known = λ k p e. (
    sym ((lookup-660 k p e).0),
    refl,
    omega (arith, (lookup-660 k p e).0),
    omega (arith, (lookup-660 k p e).0),
  );
  named = λ t on. elim on [ inl e ↦ (660, 0, e, refl) | inr none' ↦ absurd none' ];
  placed = λ k p e. inl (ap decimal ((lookup-660 k p e).0));
}

disconnect_by_convid-Moves_example :
    Returns
      (λ _ w'. Moves sample 660 (λ j. j == 660) table_660 world_660 w')
      (disconnect_by_convid sample 660 660 world_660)
unfolding lookup
disconnect_by_convid-Moves_example =
    disconnect_by_convid-Moves sample 660 table_660 world_660 660 refl refl table_660-IsCoherent

disconnect_by_src-Moves_example :
    Returns
      (λ _ w'.
        Moves sample 660
          (λ j.
            hit sample
              (λ c. text_eq c.src_address (codes "10.0.0.1"))
              world_660.heap
              (lookup j (entries table_660)))
          table_660
          world_660
          w')
      (disconnect_by_src sample 660 (codes "10.0.0.1") world_660)
unfolding lookup
disconnect_by_src-Moves_example =
    disconnect_by_src-Moves sample 660 table_660 world_660 (codes "10.0.0.1") refl refl
      table_660-IsCoherent

disconnect_by_ifname-Moves_example :
    Returns
      (λ _ w'.
        Moves sample 660
          (λ j.
            hit sample
              (λ c. text_eq c.ifname (codes "eth1"))
              world_660.heap
              (lookup j (entries table_660)))
          table_660
          world_660
          w')
      (disconnect_by_ifname sample 660 (codes "eth1") world_660)
unfolding lookup
disconnect_by_ifname-Moves_example =
    disconnect_by_ifname-Moves sample 660 table_660 world_660 (codes "eth1") refl refl
      table_660-IsCoherent

disconnect_unknown_example :
    (disconnect_by_ifname sample 661 [] world_660 ≡ done tt world_660)
    × (disconnect_by_src sample 661 [] world_660 ≡ fault nil_deref world_660)
    × (disconnect_by_convid sample 661 661 world_660 ≡ fault nil_deref world_660)
unfolding lookup
disconnect_unknown_example = disconnect_unknown sample 661 [] 661 world_660 refl

open_slot-IsSlot_example :
    (k : ℕ) × (open_slot ((660, 0) ∷ []) 660 ≡ some k)
    × IsSlot ((660, 0) ∷ []) 660 670 k
    × (k ≢ u32 760)
    × (((j : ℕ) → 660 ≤ j → j ≤ 670 → lookup {V = ℕ} j ((660, 0) ∷ []) ≢ none) → k ≡ 671)
open_slot-IsSlot_example = open_slot-IsSlot ((660, 0) ∷ []) 660 (omega arith)

abbrev world_frame : State sample
world_frame = record world_660 { calls = 7 }

-- An IPv4 packet with protocol 6 and the ports at byte 20 to 23.
abbrev tcp_packet : List ℕ
tcp_packet =
    69 ∷ 0 ∷ 0 ∷ 24 ∷ 0 ∷ 0 ∷ 0 ∷ 0 ∷ 64 ∷ 6 ∷ 0 ∷ 0 ∷ 10 ∷ 0 ∷ 0 ∷ 1 ∷ 10 ∷ 0 ∷ 0 ∷ 2 ∷ 4 ∷ 210 ∷ 0
    ∷ 80 ∷ []

abbrev reading : List ℕ → Outside
reading message = record sample { kcp_read = λ n. received message; tun_read = λ n. some message }

choose_round_robin_example :
    Returns
      (λ r w'.
        Chooses sample 660 table_660 world_660 r
        × ((k : ℕ)
            → r ≡ some k
            → (lookup 660 w'.servers ≡ some (record table_660 { last_convid = k }))
              × ((j q : ℕ) → lookup j (entries table_660) ≡ some q → j ≢ 0 → k ≢ 0)))
      (choose sample 660 none world_660)
unfolding lookup
choose_round_robin_example =
    choose_round_robin sample 660 table_660 world_660 refl table_660-IsCoherent

choose_consistent_example :
    Returns
      (λ r w'. Chooses sample 660 table_660 world_660 r × (w' ≡ world_660))
      (choose sample 660 (some (tcp_packet, 24)) world_660)
unfolding lookup extract_src parse hex decimal
choose_consistent_example =
    choose_consistent sample 660 table_660 world_660 (codes "4d2:050:2:1") (decimal 660 ∷ [])
      tcp_packet 24 refl table_660-IsCoherent refl refl refl

read_round-frame_example :
    read_round (reading (69 ∷ [])) 660 0 0 world_660
    ≡ done (goes_on 0) (record world_660 {
      heap =
          update world_660.heap 0
            (counted (reading (69 ∷ [])) 660 0 0 9 table_660 session_660 world_660 1 2);
      calls = 4;
      trace = tun_writes 9 (69 ∷ []) ∷ read_deadline 3 5000 ∷ [];
    })
unfolding lookup new_connection client_sort
read_round-frame_example =
    read_round-frame (reading (69 ∷ [])) 660 0 0 9 table_660 session_660 world_660 69 [] refl refl
      refl refl refl (λ e. cc e)

read_round-hello_example :
    read_round (reading hello) 660 0 0 world_660
    ≡ done (goes_on 0) (record world_660 {
      heap =
          update
            (update world_660.heap 0
              (counted (reading hello) 660 0 0 9 table_660 session_660 world_660 40 2))
            0
            (counted (reading hello) 660 0 0 9 table_660 session_660 world_660 40 3);
      calls = 4;
      trace = read_deadline 3 5000 ∷ [];
    })
unfolding new_connection
read_round-hello_example =
    read_round-hello (reading hello) 660 0 0 9 table_660 session_660 world_660 refl refl refl

tun_round-sent_example :
    (k : ℕ) × (p : ℕ) × (session : RatSession) × (lookup k (entries table_660) ≡ some p)
    × ((world_660.heap p).session ≡ some session)
    × (tun_round sample 660 [] world_660
        ≡ done true (sent sample 660 p table_660 session (7 ∷ []) (record world_660 { calls = 1 })))
unfolding lookup extract_src parse decimal new_connection
tun_round-sent_example =
    tun_round-sent sample 660 9 660 0 table_660 (decimal 660 ∷ []) (codes "0:0") [] (7 ∷ [])
      world_660 refl refl table_660-IsCoherent refl refl refl refl refl refl
      (λ k p e. (session_660, refl, refl, refl))

-- Six seconds later.
abbrev late : State sample
late = record world_660 { calls = 6000000000 }

ping_one-by_age_example :
    ((max_hello < sample.now late.calls - (late.heap 0).last_hello)
      × Returns
          (λ _ w'.
            Moves sample 660 (λ j. j == 660) table_660 (record late { calls = 6000000001 }) w')
          (ping_one sample 660 660 late))
    ⊎ ((sample.now late.calls - (late.heap 0).last_hello ≤ max_hello)
        × Returns (λ _ w'. Pings sample 660 660 0 table_660 late w') (ping_one sample 660 660 late))
unfolding lookup new_connection
ping_one-by_age_example =
    ping_one-by_age sample 660 660 0 table_660 late session_660 refl refl refl table_660-IsCoherent
      refl refl
