-- ===== src/Client/Sound/Reachable.antt =====
-- What the client's goroutines do, one after the other in any order, from the empty table on: a
-- round of a reader, a hello, a packet of the tun device, a report of the kernel, a turn of the
-- main loop.
use ratbond.Outside.{Outside}
use ratbond.Network.Netlink.{LinkUpdate, handle_link_update, RouteUpdate, handle_route_update}
use ratbond.Client.Ping.{send_server_pings}
use ratbond.Client.Tunnel.{tun_round}
use ratbond.Client.Connect.{check_paths}
use ratbond.Client.State.{State}
use ratbond.Client.Sound.{none_held, IsSound, Soundly, Safe, subst}
use ratbond.Client.Reader.{read_round, send_hello}
use ratbond.Client.Sound.Connect.{check_paths-Soundly}
use ratbond.Client.Sound.Linking.{handle_route_update-Soundly}
use ratbond.Client.Sound.Rounds.{quiet, seq, read_round-Soundly, send_hello-Soundly}
use ratbond.Client.Sound.Losing.{handle_link_update-Soundly}
use ratbond.Client.Sound.Steps.{pure-Quietly}
use ratbond.Client.Sound.Serving.{tun_round-Soundly, send_server_pings-Soundly}
use ratbond.Base.{
  ℕ, ◌+◌, ◌^◌, ◌<◌, ◌≡◌, refl, ◌≢◌, none, some, List, [], lookup, deadlock, Outcome, done, fault, M,
  ◌>>=◌, pure,
}

-- The pointers and counts are those that a goroutine holds.
pub data Action : Type 0 where
  client_reads : ℕ → ℕ → Action
  greets : ℕ → ℕ → Action
  forwards : List ℕ → Action
  link_reported : LinkUpdate → Action
  route_reported : RouteUpdate → Action
  pings checks : Action

no_entry : {V : Type 0} {s : V} → none ≢ some s
no_entry e = cc

module _ (out : Outside) where
  unfoldable pub run_action : Action → M (State out) (Unit {0})
  unfolding read_round send_hello tun_round handle_link_update handle_route_update send_server_pings
      check_paths
  run_action (client_reads p n) = do r ← read_round out out.options.tunnel_id p n; pure tt
  run_action (greets base p) = send_hello out base p
  run_action (forwards stale) = do b ← tun_round out out.options.tunnel_id stale; pure tt
  run_action (link_reported u) = handle_link_update out out.options.tunnel_id u
  run_action (route_reported u) = handle_route_update out out.options.tunnel_id u
  run_action pings = send_server_pings out
  run_action checks = check_paths out

  -- The states that the client can be in between two actions.
  pub data Reaches : State out → Type 0 where
    starts : {w : State out} → w.servers ≡ [] → Reaches w
    acts : {v w : State out} (a : Action) → Reaches v → run_action a v ≡ done tt w → Reaches w

  run_action-Soundly :
      (a : Action)
      → 0 < out.options.tunnel_id
      → out.options.tunnel_id + 11 < 2 ^ 32
      → Soundly out none_held none_held (run_action a)
  unfolding run_action
  run_action-Soundly (client_reads p n) pos small =
      seq out (read_round out out.options.tunnel_id p n) _
        (read_round-Soundly out out.options.tunnel_id p n) λ _. quiet out _ (pure-Quietly out tt)
  run_action-Soundly (greets base p) pos small = send_hello-Soundly out base p
  run_action-Soundly (forwards stale) pos small =
      seq out (tun_round out out.options.tunnel_id stale) _
        (tun_round-Soundly out out.options.tunnel_id stale) λ _. quiet out _ (pure-Quietly out tt)
  run_action-Soundly (link_reported u) pos small =
      handle_link_update-Soundly out out.options.tunnel_id u
  run_action-Soundly (route_reported u) pos small =
      handle_route_update-Soundly out out.options.tunnel_id u pos small
  run_action-Soundly pings pos small = send_server_pings-Soundly out
  run_action-Soundly checks pos small = check_paths-Soundly out

  empty-IsSound : (w : State out) → w.servers ≡ [] → IsSound out none_held w
  unfolding lookup
  empty-IsSound w none_yet t s at = absurd (no_entry (rw none_yet at at))

  after-IsSound :
      (o : Outcome (State out) (Unit {0})) (w : State out)
      → Safe (λ _ v. IsSound out none_held v) o
      → o ≡ done tt w
      → IsSound out none_held w
  after-IsSound o w safe e = subst (Safe (λ _ v. IsSound out none_held v)) e safe

  module _ (pos : 0 < out.options.tunnel_id) (small : out.options.tunnel_id + 11 < 2 ^ 32) where
    -- In every state that the client reaches between two actions, from an empty table and with a
    -- tunnel id that is not 0 and at most 2^32 - 12: every mutex is free, every entry of every table
    -- points to a live connection that was made and has the entry's convid, a uint32 other than 0,
    -- and the names on the circle are those of the entries.
    pub reached-IsSound : (w : State out) → Reaches w → IsSound out none_held w
    unfolding Soundly
    reached-IsSound w (starts none_yet) = empty-IsSound w none_yet
    reached-IsSound w (acts {v = v} a r e) =
        after-IsSound (run_action a v) w (run_action-Soundly a pos small v (reached-IsSound v r)) e

    -- No action of the client, in any state that it reaches between two actions from an empty table,
    -- stops at a mutex that is not free or in the search for an open slot, for a tunnel id that is
    -- not 0 and at most 2^32 - 12: it returns, or it ends in a panic.
    pub reached-never_hangs :
        (a : Action) (w v : State out) → Reaches w → run_action a w ≢ fault deadlock v
    unfolding Soundly
    reached-never_hangs a w v r e =
        subst (Safe (λ _ u. IsSound out none_held u)) e
          (run_action-Soundly a pos small w (reached-IsSound w r)) refl
