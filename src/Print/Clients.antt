-- ===== src/Print/Clients.antt =====
-- p_utils.go: printClientConnection, printClient, printClientList and printClientLoads.
use ratbond.Base.{
  ℕ, Option, none, some, List, [], ◌∷◌, ◌++◌, Text, codes, decimal, Dict, lookup, keys, nil_deref,
  M, ◌>>=◌, pure, stop, get,
}
use ratbond.Outside.{Outside}
use ratbond.Print.Format.{Formats, field, truth, print_snmp, sort_ints, print_head, entry_text}
use ratbond.Client.State.{RatSession, next_call}
use ratbond.Server.State.{
  Served, Client, ClientConnection, client_entries, process, load_conn, read_client,
}

module _ (out : Outside) (f : Formats (out.Circle)) where
  open out use {range, now, kcp_state}

  unfoldable pub client_connection_text :
      ClientConnection → RatSession → ℕ → ℕ → ℕ → ℕ → List (Text × Text) → Text
  unfolding truth print_snmp
  client_connection_text k session state rto up hello values =
      codes "{ "
      ++ (field "convid=" (decimal k.convid)
          ++ (field "kcp=" (f.kcp_pointer session.kcp)
              ++ (field "kcpstate=" (decimal state)
                  ++ (field "kcp_rto=" (decimal rto)
                      ++ (field "txcounter=" (decimal k.txcounter)
                          ++ (field "rxcounter=" (decimal k.rxcounter)
                              ++ (field "rxtimeouts=" (decimal k.rxtimeouts)
                                  ++ (field "txtimeouts=" (decimal k.txtimeouts)
                                      ++ (field "priority=" (decimal k.priority)
                                          ++ (field "txbandwidth=" (f.rate k.txbandwidth)
                                              ++ (field "rxbandwidth=" (f.rate k.rxbandwidth)
                                                  ++ (field "alive=" (truth k.alive)
                                                      ++ (field "uptime=" (f.seconds up k.up_since)
                                                          ++ (field "hello_age="
                                                            (f.seconds hello k.last_hello)
                                                            ++ (field "alive=" (truth k.alive)
                                                            ++ (field "src_address=" k.src_address
                                                            ++ (field "up_since="
                                                            (f.stamp k.up_since)
                                                            ++ (codes "last_hello="
                                                            ++ (f.stamp k.last_hello
                                                            ++ (codes "  }"
                                                            ++ print_snmp values))))))))))))))))))))

  -- k.session.kcp of a nil session is a panic.
  unfoldable pub print_client_connection : ClientConnection → M (Served out) Text
  unfolding client_connection_text
  print_client_connection k = elim k.session [
    | none ↦ stop nil_deref
    | some session ↦ do
      state ← process out (next_call out)
      rto ← process out (next_call out)
      up ← process out (next_call out)
      hello ← process out (next_call out)
      values ← process out (next_call out)
      pure (
          client_connection_text k session (kcp_state state) (f.rto rto) (now up) (now hello)
            (f.snmp values))
  ]

  unfoldable pub print_client_entry : Option ℕ → M (Served out) Text
  unfolding print_client_connection
  print_client_entry none = stop nil_deref
  print_client_entry (some p) = do c ← load_conn out p; print_client_connection c

  unfoldable pub print_client_entries : Dict ℕ → List ℕ → M (Served out) Text
  unfolding print_client_entry
  print_client_entries m [] = pure []
  print_client_entries m (k ∷ ks) = do
    here ← print_client_entry (lookup k m)
    rest ← print_client_entries m ks
    pure (entry_text k here ++ rest)

  -- printClient, with the order in which it visits the keys.
  unfoldable pub print_client_in : List ℕ → Client out → ℕ → M (Served out) Text
  unfolding print_client_entries sort_ints print_head
  print_client_in order s clientid = do
    body ← print_client_entries (client_entries s) (sort_ints order)
    pure (
        print_head "client:" clientid s.base_convid s.last_convid s.ifname (f.iface_pointer s.iface)
          s.my_tun_ip s.remote_tun_ip
        ++ (body ++ (codes "}" ++ 10 ∷ [])))

  unfoldable pub print_client : Client out → ℕ → M (Served out) Text
  unfolding print_client_in
  print_client s clientid = do
    n ← process out (next_call out)
    print_client_in (range n (keys (client_entries s))) s clientid

  unfoldable pub print_clients : List ℕ → M (Served out) Text
  unfolding print_client
  print_clients [] = pure []
  print_clients (id ∷ ids) = do
    s ← read_client out id
    here ← print_client s id
    rest ← print_clients ids
    pure (here ++ rest)

  unfoldable pub print_client_list : M (Served out) Text
  unfolding print_clients
  print_client_list = do
    n ← process out (next_call out)
    w ← get
    print_clients (range n (keys w.clients))
