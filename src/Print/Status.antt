-- ===== src/Print/Status.antt =====
-- r_http.go: the status page; p_utils.go: printClientLoads.
use ratbond.Base.{
  ℕ, Bool, true, false, Option, none, some, List, [], ◌∷◌, ◌++◌, if◌then◌else◌, Text, codes,
  text_eq, decimal, keys, nil_deref, M, ◌>>=◌, pure, stop, get,
}
use ratbond.Outside.{Outside}
use ratbond.Print.Format.{Formats}
use ratbond.Print.Servers.{print_server_list}
use ratbond.Print.Clients.{print_client_list}
use ratbond.Client.State.{next_call}
use ratbond.Server.State.{Served, process, read_client}

-- http_serve: the address that it listens on, unless there is none.
unfoldable pub http_serve : Text → Option Text
http_serve addr = if text_eq addr [] then none else some addr

module _ (out : Outside) (f : Formats (out.Circle)) where
  open out use {range}

  -- What the handler of /status writes, by g_run_client and g_run_server.
  unfoldable pub status_part : Bool → Text → M (Served out) Text → M (Served out) Text
  status_part true title print = do text ← print; pure (title ++ (10 ∷ text))
  status_part false title print = pure []

  unfoldable pub http_status : Bool → Bool → M (Served out) Text
  unfolding status_part print_server_list print_client_list
  http_status run_client run_server = do
    servers ←
        status_part run_client (codes "g_server_list: ") (process out (print_server_list out f))
    clients ← status_part run_server (codes "client_list: ") (print_client_list out f)
    pure (servers ++ clients)

  -- The loads of one tunnel; Members() of a nil circle is a panic.
  unfoldable pub print_client_load : ℕ → Option (out.Circle) → M (Served out) Text
  print_client_load id none = stop nil_deref
  print_client_load id (some c) =
      pure (codes "members:" ++ (decimal id ++ (codes " { " ++ (f.members_text c ++ codes " }"))))

  unfoldable pub print_client_loads_of : List ℕ → M (Served out) Text
  unfolding print_client_load
  print_client_loads_of [] = pure []
  print_client_loads_of (id ∷ ids) = do
    s ← read_client out id
    here ← print_client_load id s.consistent
    rest ← print_client_loads_of ids
    pure (here ++ rest)

  unfoldable pub print_client_loads : M (Served out) Text
  unfolding print_client_loads_of
  print_client_loads = do
    n ← process out (next_call out)
    w ← get
    print_client_loads_of (range n (keys w.clients))
