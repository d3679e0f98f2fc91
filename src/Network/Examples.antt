-- ===== src/Network/Examples.antt =====
-- The theorems about interfaces, links and routes at concrete inputs.
use ratbond.Network.Addresses.{get_wan_ip-answer}
use ratbond.Network.Wan.{get_wan_ip}
use ratbond.Network.Links.{loses, subscribe_ifaces-Moves, removed_route-Moves}
use ratbond.Network.Netlink.{
  LinkUpdate, del_route, RouteUpdate, subscribe_ifaces, handle_route_update,
}
use ratbond.Network.Interfaces.{first_address, addresses_of, find_address}
use ratbond.Base.{
  ◌≡◌, refl, ◌⊎◌, none, some, List, [], ◌∷◌, arith, Text, codes, text_eq, lookup, nil_deref, done,
  fault, Returns,
}
use ratbond.Outside.Sample.{sample}
use ratbond.Client.Examples.{table_660, world_660, table_660-IsCoherent}
use ratbond.Client.State.{entries, State}
use ratbond.Client.Invariant.{Moves}
use ratbond.Client.Matching.{hit}

get_wan_ip-answer_example :
    get_wan_ip sample (codes "eth1") world_660
    ≡ done (some (codes "192.0.2.9")) (record world_660 { calls = 2 })
unfolding get_wan_ip find_address addresses_of first_address text_eq
get_wan_ip-answer_example = get_wan_ip-answer sample (codes "eth1") world_660

abbrev reports : List LinkUpdate
reports =
    record { name = codes "eth1"; oper_state = codes "up" }
    ∷ record { name = codes "eth1"; oper_state = codes "down" }
    ∷ []

subscribe_ifaces-Moves_example :
    Returns
      (λ _ w'.
        Moves sample 660
          (λ j. hit sample (loses reports) world_660.heap (lookup j (entries table_660)))
          table_660
          world_660
          w')
      (subscribe_ifaces sample 660 reports world_660)
unfolding lookup
subscribe_ifaces-Moves_example =
    subscribe_ifaces-Moves sample 660 reports table_660 world_660 refl refl table_660-IsCoherent

abbrev gone_route : RouteUpdate
gone_route = record {
  kind = del_route;
  dst = codes "0.0.0.0/0";
  src = some (codes "10.0.0.1");
  table = 100;
  link_index = 4;
}

removed_route-Moves_example :
    let v : State sample = record world_660 { calls = 1 } in
    ((sample.interface_by_index 0 4 ≡ none)
      × (handle_route_update sample 660 gone_route world_660 ≡ fault nil_deref v))
    ⊎ ((name : Text) × (sample.interface_by_index 0 4 ≡ some name)
        × Returns
            (λ _ w'.
              Moves sample 660
                (λ j.
                  hit sample
                    (λ c. text_eq c.src_address (codes "10.0.0.1"))
                    world_660.heap
                    (lookup j (entries table_660)))
                table_660
                v
                w')
            (handle_route_update sample 660 gone_route world_660))
unfolding lookup text_eq
removed_route-Moves_example =
    removed_route-Moves sample 660 gone_route (codes "10.0.0.1") table_660 world_660 refl refl
      table_660-IsCoherent refl refl (λ e. omega (arith, e)) refl
