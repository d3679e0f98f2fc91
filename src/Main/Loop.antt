-- ===== src/Main/Loop.antt =====
-- main.go: run_client and run_server. The calls that they make are listed by name, in order.
use ratbond.Base.{ℕ, zero, suc, ◌+◌, ◌%◌, Bool, List, [], ◌∷◌, ◌==◌, if◌then◌else◌, Text, text_eq}

pub data Task : Type 0 where
  http_serve show_addresses subscribe_ifaces subscribe_routes : Task
  check_paths send_server_pings send_client_pings get_routes : Task
  print_server_list print_server_loads print_client_list print_client_loads : Task
  set_buffers handle_listener : Task

-- What a run does before its loop: it ends the process, it returns, or it goes on with a tunnel
-- name and has made these calls.
pub data Start : Type 0 where
  exits : Start
  returns_early : List Task → Start
  loops : Text → List Task → Start

-- `cli_name` is CLI.TunName, `name` is g_tunnel_name.
unfoldable pub start_client : Text → ℕ → Text → Text → Start
start_client connect_addr tunnel_id cli_name name =
    if text_eq connect_addr []
    then exits
    else if tunnel_id == 0
    then exits
    else loops (if text_eq cli_name [] then name else cli_name)
        (http_serve ∷ show_addresses ∷ subscribe_ifaces ∷ subscribe_routes ∷ [])

-- `listening` says whether createListener succeeded. The name of the tun device is not used.
pub start_server : ℕ → Bool → Text → Start
start_server tunnel_id listening name =
    if tunnel_id == 0
    then exits
    else if listening
    then loops name (http_serve ∷ set_buffers ∷ handle_listener ∷ show_addresses ∷ [])
    else returns_early (http_serve ∷ [])

-- One round takes loopcount to its successor, and back to 1 where that is a multiple of 1500.
unfoldable pub next_count : ℕ → ℕ
next_count loopcount = if (loopcount + 1) % 1500 == 0 then 1 else loopcount + 1

unfoldable pub due : ℕ → ℕ → Task → List Task → List Task
due period n task rest = if n % period == 0 then task ∷ rest else rest

-- What a round calls, by the count that it reaches.
unfoldable pub client_round : ℕ → List Task
unfolding due
client_round loopcount =
    let n = loopcount + 1 in
    due 500 n check_paths (
      due 200 n send_server_pings
        (due 1500 n print_server_list (due 1500 n print_server_loads (due 1500 n get_routes []))))

unfoldable pub server_round : ℕ → List Task
unfolding due
server_round loopcount =
    let n = loopcount + 1 in
    due 200 n send_client_pings (due 1500 n print_client_list (due 1500 n print_client_loads []))

-- The count after `k` rounds.
unfoldable pub count_after : ℕ → ℕ → ℕ
unfolding next_count
count_after zero loopcount = loopcount
count_after (suc k) loopcount = count_after k (next_count loopcount)
