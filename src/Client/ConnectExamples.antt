-- ===== src/Client/ConnectExamples.antt =====
-- The theorems about client_connect_server and about sequences of operations at concrete inputs.
use ratbond.Client.Choose.{count_src}
use ratbond.Client.Connect.{new_connection, connect_server}
use ratbond.Client.Invariant.{IsCoherent}
use ratbond.Client.Adding.{connect_server-full}
use ratbond.Client.Refines.{ends, remaining, link_at, run_events-Refines}
use ratbond.Base.{
  ℕ, ◌≡◌, refl, true, false, none, some, List, [], ◌∷◌, arith, codes, text_eq, lookup, insert, done,
  Returns, has_prefix, contains_text,
}
use ratbond.Network.Netlink.{is_down}
use ratbond.Client.Histories.{Event, loses_src, chooses, reports, run_events}
use ratbond.Client.State.{Server}
use ratbond.Outside.Sample.{sample}
use ratbond.Client.Examples.{table_660, world_660, table_660-IsCoherent}

connect_server-full_example :
    connect_server sample 660 (codes "10.0.0.1") (codes "eth1") world_660
    ≡ done tt (record world_660 {
      servers =
          insert 660
            (record table_660 { locked = false })
            (insert 660 (record table_660 { locked = true }) world_660.servers);
    })
unfolding lookup count_src new_connection text_eq
connect_server-full_example =
    connect_server-full sample 660 (codes "10.0.0.1") (codes "eth1") table_660 world_660 refl refl
      (omega arith)

abbrev some_events : List Event
some_events =
    chooses
    ∷ reports (record { name = codes "eth9"; oper_state = codes "down" })
    ∷ loses_src (codes "10.0.0.9")
    ∷ reports (record { name = codes "eth1"; oper_state = codes "down" })
    ∷ []

run_events-Refines_example :
    Returns
      (λ _ w'.
        (s' : Server sample) × (lookup 660 w'.servers ≡ some s')
        × (s'.locked ≡ false)
        × IsCoherent sample w'.heap s'
        × ((k : ℕ)
            → link_at sample 660 s' w' k
              ≡ remaining some_events k (link_at sample 660 table_660 world_660 k)))
      (run_events sample 660 some_events world_660)
unfolding lookup
run_events-Refines_example =
    run_events-Refines sample 660 some_events table_660 world_660 refl refl table_660-IsCoherent

-- The only link of the table is ended by the last of them.
remaining_660 : remaining some_events 660 (link_at sample 660 table_660 world_660 660) ≡ none
unfolding lookup remaining ends text_eq is_down contains_text has_prefix new_connection
remaining_660 = refl
