-- ===== src/Print/Examples.antt =====
-- The theorem about the printed tables at concrete inputs.
use ratbond.Client.Connect.{new_connection, new_server}
use ratbond.Server.Accept.{new_client, new_client_connection}
use mathlib.Core.List.{Perm, Permᴰ}
use ratbond.Print.Pieces.{AreKnown, AreOpen}
use ratbond.Base.{
  ℕ, ◌-◌, ◌≡◌, refl, inl, inr, none, some, List, [], ◌∷◌, Text, codes, decimal, lookup, Returns,
}
use ratbond.Outside.Sample.{sample}
use ratbond.Print.Format.{Formats}
use ratbond.Print.Servers.{print_server_in}
use ratbond.Print.Clients.{print_client_in}
use ratbond.Print.Order.{print_in-Perm, IsRising, server_head, client_head}
use ratbond.Client.State.{RatSession, State, Server, entries}
use ratbond.Server.State.{Served, Client, client_entries}

abbrev plain : Formats (List Text)
plain = record {
  kcp_pointer = decimal;
  udp_pointer = λ p. codes "0xc000";
  iface_pointer = λ p. codes "0xc001";
  rate = decimal;
  seconds = λ up since. decimal (up - since);
  stamp = decimal;
  members_text = λ c. [];
  rto = λ n. 200;
  snmp = λ n. [];
}

two_orders : Perm {A = ℕ} (661 ∷ 660 ∷ []) (660 ∷ 661 ∷ [])
two_orders = ∣ Permᴰ.swap refl refl ∣₁

abbrev session_3 : RatSession
session_3 = record { convid = 660; kcp = 3; udp_conn = none; remote = none }

abbrev two_links : Server sample
two_links = record (new_server sample) { connections = some ((660, 0) ∷ (661, 1) ∷ []) }

abbrev two_clients : Client sample
two_clients = record (new_client sample) { connections = some ((660, 0) ∷ (661, 1) ∷ []) }

abbrev printed : State sample
printed = record {
  servers = [];
  heap = λ p. new_connection 0 0 0 660 [] [] [];
  fresh = 2;
  calls = 0;
  trace = [];
}

abbrev printed_clients : Served sample
printed_clients = record {
  clients = [];
  conns = λ p. new_client_connection 0 0 0 660 session_3 [];
  fresh_conn = 2;
  process = printed;
}

both_known : AreKnown (entries two_links) (661 ∷ 660 ∷ [])
unfolding lookup
both_known = λ j on. elim on [
  | inl e ↦ (1, rw e refl)
  | inr (inl e) ↦ (0, rw e refl)
  | inr (inr none') ↦ absurd none'
]

both_open : AreOpen printed_clients.conns (client_entries two_clients) (661 ∷ 660 ∷ [])
unfolding lookup new_client_connection
both_open = λ j on. elim on [
  | inl e ↦ (1, session_3, rw e refl, refl)
  | inr (inl e) ↦ (0, session_3, rw e refl, refl)
  | inr (inr none') ↦ absurd none'
]

print_in-Perm_example :
    ((print_server_in sample plain (661 ∷ 660 ∷ []) two_links 660 printed
        ≡ print_server_in sample plain (660 ∷ 661 ∷ []) two_links 660 printed)
      × Returns
          (λ t _. IsRising (server_head sample plain two_links 660) (661 ∷ 660 ∷ []) t)
          (print_server_in sample plain (661 ∷ 660 ∷ []) two_links 660 printed))
    × ((print_client_in sample plain (661 ∷ 660 ∷ []) two_clients 660 printed_clients
          ≡ print_client_in sample plain (660 ∷ 661 ∷ []) two_clients 660 printed_clients)
        × Returns
            (λ t _. IsRising (client_head sample plain two_clients 660) (661 ∷ 660 ∷ []) t)
            (print_client_in sample plain (661 ∷ 660 ∷ []) two_clients 660 printed_clients))
print_in-Perm_example =
    print_in-Perm sample plain (661 ∷ 660 ∷ []) (660 ∷ 661 ∷ []) 660 two_links printed two_clients
      printed_clients two_orders both_known both_open
