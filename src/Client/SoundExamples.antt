-- ===== src/Client/SoundExamples.antt =====
-- The theorems about reachable states, at a state that the client reaches by a route, and about two
-- calls at once.
use ratbond.Client.Examples.{world_660, table_660, table_660-IsCoherent, lookup-660}
use ratbond.Client.LinkExamples.{eth1-answers}
use mathlib.Core.Option
use ratbond.Outside.Sample.{sample}
use ratbond.Network.Netlink.{new_route, RouteUpdate}
use ratbond.Client.State.{World, entries, update}
use ratbond.Client.Sound.Reachable.{
  route_reported, run_action, client_reads, Reaches, starts, acts, reached-IsSound,
  reached-never_hangs,
}
use ratbond.Client.Sound.{none_held, IsSound}
use ratbond.Client.Overlap.{pick_slot, fill_slot}
use ratbond.Client.Standing.{IsAt}
use ratbond.Client.Overlapped.{Loses, overlapped-Loses}
use ratbond.Base.{
  ◌≡◌, refl, ◌≢◌, true, false, some, List, [], ◌∷◌, arith, Text, codes, text_eq, decimal, lookup,
  insert, keys, deadlock, done, fault, ◌>>=◌, ◌>>◌, Returns, contains_text,
}

abbrev empty_world : World (List Text)
empty_world = record world_660 { servers = []; fresh = 0 }

abbrev up_route : RouteUpdate
up_route = record {
  kind = new_route;
  dst = codes "0.0.0.0/0";
  src = some (codes "10.0.0.1");
  table = 100;
  link_index = 4;
}

abbrev linked : World (List Text)
unfolding run_action
linked = elim (run_action sample (route_reported up_route) empty_world) [
  | done a w ↦ w
  | fault e w ↦ w
]

linked_done : run_action sample (route_reported up_route) empty_world ≡ done tt linked
unfolding run_action linked text_eq lookup insert update contains_text
linked_done = refl

-- One connection is in the table.
linked_once : Option.map (λ s. keys (entries s)) (lookup 660 linked.servers) ≡ some (660 ∷ [])
unfolding linked lookup text_eq contains_text insert update
linked_once = refl

linked-Reaches : Reaches sample linked
linked-Reaches = acts (route_reported up_route) (starts {w = empty_world} refl) linked_done

reached-IsSound_example : IsSound sample none_held linked
reached-IsSound_example = reached-IsSound sample (omega arith) (omega arith) linked linked-Reaches

reached-never_hangs_example : run_action sample (client_reads 0 3) linked ≢ fault deadlock linked
reached-never_hangs_example =
    reached-never_hangs sample (omega arith) (omega arith) (client_reads 0 3) linked linked
      linked-Reaches

one_entry-IsAt : IsAt sample 660 (λ j. lookup j ((660, 0) ∷ [])) world_660 true false world_660
unfolding lookup
one_entry-IsAt = record {
  server = table_660;
  found = refl;
  lock_is = refl;
  table = λ k. refl;
  coherent = table_660-IsCoherent;
  paired = λ d e. (decimal 660 ∷ [], refl);
  map_made = λ e. ((660, 0) ∷ [], refl);
  heap_kept = refl;
  fresh_kept = refl;
  others = λ t ne. refl;
}

overlapped-Loses_example :
    Returns
      (λ _ w'.
        Loses sample 660
          (λ j. lookup j ((660, 0) ∷ []))
          (codes "10.0.0.2")
          (codes "10.0.0.3")
          world_660
          w')
      ((do
        c ← pick_slot sample 660 (codes "eth1")
        c' ← pick_slot sample 660 (codes "eth1")
        fill_slot sample 660 (codes "10.0.0.2") (codes "eth1") false c
        fill_slot sample 660 (codes "10.0.0.3") (codes "eth1") false c')
        world_660)
overlapped-Loses_example =
    overlapped-Loses sample (λ j. lookup j ((660, 0) ∷ [])) (codes "10.0.0.2") (codes "10.0.0.3")
      (codes "eth1") (codes "eth1") world_660 (omega arith) (omega arith)
      (λ n port fits. (record { kcp = n; udp = n }, refl))
      (λ n port fits. (record { kcp = n; udp = n }, refl))
      (λ j q e. omega (arith, (lookup-660 j q e).1)) false false eth1-answers eth1-answers
      one_entry-IsAt
