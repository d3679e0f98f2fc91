-- ===== src/Main/Examples.antt =====
-- The theorem about the main loops at a concrete count.
use ratbond.Main.Pings.{pings_in_time}
use ratbond.Base.{ℕ, ◌+◌, ◌*◌, ◌≤◌, ◌<◌, arith, Elem}
use ratbond.Main.Loop.{
  next_count, send_server_pings, send_client_pings, client_round, server_round, count_after,
}

pings_in_time_example :
    ((1 ≤ next_count 1450) × (next_count 1450 < 1500))
    × ((k : ℕ) × (k < 299)
        × ((k + 1) * 10000000 < 3000000000)
        × Elem send_server_pings (client_round (count_after k 1450))
        × Elem send_client_pings (server_round (count_after k 1450)))
pings_in_time_example = pings_in_time 1450 (omega arith) (omega arith)
