-- ===== src/Print/Servers.antt =====
-- p_utils.go: printServerConnection, printServer, printServerList and printServerLoads.
use ratbond.Base.{
  ℕ, Option, none, some, List, [], ◌∷◌, ◌++◌, Text, codes, decimal, Dict, lookup, keys, nil_deref,
  M, ◌>>=◌, pure, stop, get,
}
use ratbond.Outside.{Outside}
use ratbond.Print.Format.{Formats, field, truth, print_snmp, sort_ints, print_head, entry_text}
use ratbond.Client.State.{
  State, Server, ServerConnection, RatSession, entries, read_server, load, next_call,
}

module _ (out : Outside) (f : Formats (out.Circle)) where
  open out use {range, now, kcp_state}

  -- The text of a connection with a session; `up` and `hello` are the two times asked for.
  unfoldable pub server_connection_text :
      ServerConnection → RatSession → ℕ → ℕ → ℕ → ℕ → List (Text × Text) → Text
  unfolding truth print_snmp
  server_connection_text k session state rto up hello values =
      codes "{ "
      ++ (field "convid=" (decimal k.convid)
          ++ (field "kcp=" (f.kcp_pointer session.kcp)
              ++ (field "kcpstate=" (decimal state)
                  ++ (field "kcp_rto=" (decimal rto)
                      ++ (field "udp_conn=" (f.udp_pointer session.udp_conn)
                          ++ (field "ifname=" k.ifname
                              ++ (field "txcounter=" (decimal k.txcounter)
                                  ++ (field "rxcounter=" (decimal k.rxcounter)
                                      ++ (field "rxtimeouts=" (decimal k.rxtimeouts)
                                          ++ (field "txtimeouts=" (decimal k.txtimeouts)
                                              ++ (field "priority=" (decimal k.priority)
                                                  ++ (field "txbandwidth=" (f.rate k.txbandwidth)
                                                      ++ (field "rxbandwidth="
                                                            (f.rate k.rxbandwidth)
                                                          ++ (field "uptime="
                                                            (f.seconds up k.up_since)
                                                            ++ (field "hello_age="
                                                            (f.seconds hello k.last_hello)
                                                            ++ (field "alive=" (truth k.alive)
                                                            ++ (field "src_address=" k.src_address
                                                            ++ (field "wan_ip=" k.wan_ip
                                                            ++ (field "up_since="
                                                            (f.stamp k.up_since)
                                                            ++ (codes "last_hello="
                                                            ++ (f.stamp k.last_hello
                                                            ++ (codes " }"
                                                            ++ print_snmp
                                                            values))))))))))))))))))))))

  unfoldable pub print_server_connection : ServerConnection → M (State out) Text
  unfolding server_connection_text
  print_server_connection k = elim k.session [
    | none ↦ pure (codes "session=NIL!!!")
    | some session ↦ do
      state ← next_call out
      rto ← next_call out
      up ← next_call out
      hello ← next_call out
      values ← next_call out
      pure (
          server_connection_text k session (kcp_state state) (f.rto rto) (now up) (now hello)
            (f.snmp values))
  ]

  -- k.convid of a nil pointer is a panic.
  unfoldable pub print_server_entry : Option ℕ → M (State out) Text
  unfolding print_server_connection
  print_server_entry none = stop nil_deref
  print_server_entry (some p) = do c ← load out p; print_server_connection c

  unfoldable pub print_server_entries : Dict ℕ → List ℕ → M (State out) Text
  unfolding print_server_entry
  print_server_entries m [] = pure []
  print_server_entries m (k ∷ ks) = do
    here ← print_server_entry (lookup k m)
    rest ← print_server_entries m ks
    pure (entry_text k here ++ rest)

  -- printServer, with the order in which it visits the keys.
  unfoldable pub print_server_in : List ℕ → Server out → ℕ → M (State out) Text
  unfolding print_server_entries sort_ints print_head
  print_server_in order s serverid = do
    body ← print_server_entries (entries s) (sort_ints order)
    pure (
        print_head "server:" serverid s.base_convid s.last_convid s.ifname (f.iface_pointer s.iface)
          s.my_tun_ip s.remote_tun_ip
        ++ (body ++ (codes "}" ++ 10 ∷ [])))

  unfoldable pub print_server : Server out → ℕ → M (State out) Text
  unfolding print_server_in
  print_server s serverid = do
    n ← next_call out
    print_server_in (range n (keys (entries s))) s serverid

  unfoldable pub print_servers : List ℕ → M (State out) Text
  unfolding print_server
  print_servers [] = pure []
  print_servers (id ∷ ids) = do
    s ← read_server out id
    here ← print_server s id
    rest ← print_servers ids
    pure (here ++ rest)

  unfoldable pub print_server_list : M (State out) Text
  unfolding print_servers
  print_server_list = do n ← next_call out; w ← get; print_servers (range n (keys w.servers))

  -- The loads of one tunnel; Members() of a nil circle is a panic.
  unfoldable pub print_load : ℕ → Option (out.Circle) → M (State out) Text
  print_load id none = stop nil_deref
  print_load id (some c) =
      pure (codes "members:" ++ (decimal id ++ (codes " { " ++ (f.members_text c ++ codes " }"))))

  unfoldable pub print_loads : List ℕ → M (State out) Text
  unfolding print_load
  print_loads [] = pure []
  print_loads (id ∷ ids) = do
    s ← read_server out id
    here ← print_load id s.consistent
    rest ← print_loads ids
    pure (here ++ rest)

  unfoldable pub print_server_loads : M (State out) Text
  unfolding print_loads
  print_server_loads = do n ← next_call out; w ← get; print_loads (range n (keys w.servers))
