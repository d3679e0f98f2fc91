-- ===== src/Client/LinkExamples.antt =====
-- The theorem about client_connect_server as a whole at a concrete table.
use mathlib.Core.Option.{some-injective}
use mathlib.Core.Path.{subst}
use ratbond.Base.{
  ℕ, ◌<◌, ◌≡◌, refl, false, Option, some, List, [], ◌∷◌, arith, Text, codes, text_eq, decimal, Dict,
  lookup, Returns,
}
use ratbond.Outside.Sample.{sample}
use ratbond.Client.State.{Server, entries}
use ratbond.Client.Choose.{count_src}
use ratbond.Client.Connect.{connect_server, new_connection}
use ratbond.Client.Invariant.{IsCoherent}
use ratbond.Client.Connecting.{Connects}
use ratbond.Client.Linking.{entries_at, connect_server-Connects}
use ratbond.Client.Examples.{world_660, lookup-660, table_660-IsCoherent}
use ratbond.Network.Addresses.{ips_named}
use ratbond.Network.Interfaces.{Interface}

pub eth1-answers :
    (n : ℕ) (ifas : List Interface)
    → sample.interfaces n ≡ some ifas
    → (ip : Text) × (rest : List (Option Text)) × (ips_named (codes "eth1") ifas ≡ some ip ∷ rest)
unfolding text_eq
eth1-answers n ifas e =
    subst
      (λ l.
        (ip : Text) × (rest : List (Option Text)) × (ips_named (codes "eth1") l ≡ some ip ∷ rest))
      (some-injective _ _ e) (codes "10.0.0.1", [], refl)

table_660-ready :
    (s : Server sample)
    → lookup 660 world_660.servers ≡ some s
    → (s.locked ≡ false)
      × IsCoherent sample world_660.heap s
      × ((d : Dict ℕ) → s.connections ≡ some d → (c : List Text) × (s.consistent ≡ some c))
      × ((j q : ℕ) → lookup j (entries s) ≡ some q → q < world_660.fresh)
      × (count_src world_660.heap (entries s) (codes "10.0.0.2") < 1)
unfolding lookup count_src text_eq new_connection
table_660-ready s e =
    subst
      (λ (t : Server sample).
        (t.locked ≡ false)
        × IsCoherent sample world_660.heap t
        × ((d : Dict ℕ) → t.connections ≡ some d → (c : List Text) × (t.consistent ≡ some c))
        × ((j q : ℕ) → lookup j (entries t) ≡ some q → q < world_660.fresh)
        × (count_src world_660.heap (entries t) (codes "10.0.0.2") < 1))
      (some-injective _ _ e)
      (
        refl,
        table_660-IsCoherent,
        (λ d h. (decimal 660 ∷ [], refl)),
        (λ j q h. omega (arith, (lookup-660 j q h).1)),
        omega arith,
      )

connect_server-Connects_example :
    Returns
      (λ _ w'.
        Connects sample 660
          (entries_at sample (lookup 660 world_660.servers))
          (codes "10.0.0.2")
          (codes "eth1")
          world_660
          w')
      (connect_server sample 660 (codes "10.0.0.2") (codes "eth1") world_660)
connect_server-Connects_example =
    connect_server-Connects sample (codes "10.0.0.2") (codes "eth1") world_660 (omega arith)
      (omega arith) (omega arith) (λ n. (9, refl))
      (λ n port fits. (record { kcp = n; udp = n }, refl)) eth1-answers table_660-ready
