-- ===== src/Server/Examples.antt =====
-- The theorems about the server at concrete inputs.
use ratbond.Server.Accept.{new_client_connection, handle_accepted}
use ratbond.Server.Disconnect.{server_disconnect_by_convid}
use ratbond.Server.Tunnel.{server_tun_round}
use ratbond.Server.Age.{frame_written, server_read_round-frame, ClientPings, ping_client-by_age}
use ratbond.Server.Joined.{Joins, accepted-Joins, accepted_first-Joins}
use ratbond.Server.Invariant.{IsServed, Drops}
use ratbond.Server.State.{ClientConnection, client_entries, Served, Client}
use ratbond.Server.Disconnected.{server_disconnect-Drops, linkdown_read, linkdown-Drops}
use ratbond.Server.Forward.{served, server_tun_round-sent}
use ratbond.Server.Reader.{server_read_round}
use ratbond.Server.Ping.{ping_client_one}
use ratbond.Client.Ping.{max_hello}
use ratbond.Base.{
  ℕ, ◌-◌, ◌≤◌, ◌<◌, ◌≡◌, refl, sym, ap, ◌⊎◌, inl, inr, true, false, none, some, List, [], ◌∷◌,
  arith, ◌==◌, codes, decimal, lookup, done, Returns,
}
use ratbond.Outside.{Outside, received}
use ratbond.Outside.Sample.{sample, parse}
use ratbond.Packet.Flow.{extract_dst}
use ratbond.Packet.Wire.{linkdown_message, server_sort}
use ratbond.Client.State.{RatSession, State, Effect, starts_tun}
use ratbond.Client.Connect.{new_connection}

abbrev session_660 : RatSession
session_660 = record { convid = 660; kcp = 3; udp_conn = none; remote = none }

abbrev link_660 : ClientConnection
link_660 = new_client_connection 0 0 0 660 session_660 (codes "192.0.2.1:4000")

abbrev client_660 : Client sample
client_660 = record {
  locked = false;
  connections = some ((660, 0) ∷ []);
  consistent = some (decimal 660 ∷ []);
  iface = some 9;
  base_convid = 660;
  last_convid = 0;
  ifname = codes "tun0";
  my_tun_ip = codes "10.10.10.2";
  remote_tun_ip = codes "10.10.10.1";
}

abbrev process_0 : State sample
process_0 = record {
  servers = [];
  heap = λ p. new_connection 0 0 0 0 [] [] [];
  fresh = 0;
  calls = 0;
  trace = [];
}

abbrev served_660 : Served sample
served_660 = record {
  clients = (660, client_660) ∷ [];
  conns = λ p. link_660;
  fresh_conn = 1;
  process = process_0;
}

lookup-660 : (k p : ℕ) → lookup {V = ℕ} k ((660, 0) ∷ []) ≡ some p → (k ≡ 660) × (p ≡ 0)
unfolding lookup
lookup-660 k p e = ground arith

client_660-IsServed : IsServed sample served_660.conns client_660
unfolding lookup new_client_connection
client_660-IsServed = record {
  known = λ k p e. (sym (lookup-660 k p e).0, refl, omega (arith, (lookup-660 k p e).0));
  named = λ t on. elim on [ inl e ↦ (660, 0, e, refl) | inr none' ↦ absurd none' ];
  placed = λ k p e. inl (ap decimal (lookup-660 k p e).0);
}

server_disconnect-Drops_example :
    Returns
      (λ _ w'. Drops sample 660 (λ j. j == 660) client_660 served_660 w')
      (server_disconnect_by_convid sample 660 660 served_660)
unfolding lookup
server_disconnect-Drops_example =
    server_disconnect-Drops sample 660 660 client_660 served_660 refl refl client_660-IsServed

abbrev hears : List ℕ → Outside
hears message = record sample { kcp_read = λ n. received message }

linkdown-Drops_example :
    Returns
      (λ b w'.
        (b ≡ true)
        × Drops
            (hears (linkdown_message 660))
            660
            (λ j. j == 660)
            client_660
            (linkdown_read (hears (linkdown_message 660)) 660 660 0 3 660 client_660 served_660)
            w')
      (server_read_round (hears (linkdown_message 660)) 660 660 0 3 served_660)
unfolding lookup
linkdown-Drops_example =
    linkdown-Drops (hears (linkdown_message 660)) 660 660 0 3 660 client_660 served_660 refl refl
      (record {
        known = client_660-IsServed.known;
        named = client_660-IsServed.named;
        placed = client_660-IsServed.placed;
      })
      refl refl (omega arith)

accepted-Joins_example :
    Returns
      (Joins sample 660 661 (client_entries client_660) served_660)
      (handle_accepted sample 660 661 served_660)
unfolding lookup
accepted-Joins_example =
    accepted-Joins sample 660 661 served_660 9 client_660 (decimal 660 ∷ []) refl refl refl
      (inr (refl, refl)) client_660-IsServed
      (λ j q e same. omega (arith, (lookup-660 j q e).1, same)) refl (omega arith)

abbrev pub served_none : Served sample
served_none = record served_660 { clients = [] }

accepted_first-Joins_example :
    Returns
      (λ r w'.
        Joins sample 660 660 [] served_none r w'
        × ((rest : List Effect) × (w'.process.trace ≡ starts_tun 660 ∷ rest)))
      (handle_accepted sample 660 660 served_none)
unfolding lookup
accepted_first-Joins_example =
    accepted_first-Joins sample 660 660 served_none 9 refl refl refl (omega arith)

server_tun_round-sent_example :
    (k : ℕ) × (p : ℕ) × (session : RatSession) × (lookup k (client_entries client_660) ≡ some p)
    × ((served_660.conns p).session ≡ some session)
    × (server_tun_round sample 660 [] served_660
        ≡ done true (
            served sample 660 p client_660 session
              (7 ∷ [])
              (record served_660 { process = record process_0 { calls = 1 } })))
unfolding lookup extract_dst parse decimal new_client_connection
server_tun_round-sent_example =
    server_tun_round-sent sample 660 9 660 0 client_660 (decimal 660 ∷ []) (codes "0:0") [] (7 ∷ [])
      served_660 refl refl client_660-IsServed refl refl refl refl refl refl
      (λ k p e. (session_660, refl, refl, refl))

server_read_round-frame_example :
    server_read_round (hears (69 ∷ [])) 660 660 0 3 served_660
    ≡ done true (frame_written (hears (69 ∷ [])) 660 660 0 3 9 69 [] client_660 served_660)
unfolding lookup server_sort
server_read_round-frame_example =
    server_read_round-frame (hears (69 ∷ [])) 660 660 0 3 9 69 [] client_660 served_660 refl refl
      refl refl (λ e. cc e)

-- Six seconds later.
abbrev served_late : Served sample
served_late = record served_660 { process = record process_0 { calls = 6000000000 } }

ping_client-by_age_example :
    ((max_hello < sample.now served_late.process.calls - (served_late.conns 0).last_hello)
      × Returns
          (λ _ w'.
            Drops sample 660
              (λ j. j == 660)
              client_660
              (record served_660 { process = record process_0 { calls = 6000000001 } })
              w')
          (ping_client_one sample 660 660 served_late))
    ⊎ ((sample.now served_late.process.calls - (served_late.conns 0).last_hello ≤ max_hello)
        × Returns
            (λ _ w'. ClientPings sample 660 660 0 client_660 served_late w')
            (ping_client_one sample 660 660 served_late))
unfolding lookup new_client_connection
ping_client-by_age_example =
    ping_client-by_age sample 660 660 0 client_660 served_late session_660 refl refl refl
      client_660-IsServed refl refl
