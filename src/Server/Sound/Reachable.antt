-- ===== src/Server/Sound/Reachable.antt =====
-- What the server's goroutines do, one after the other in any order, from the empty list on: a
-- session that the listener accepts, a round of a reader, a hello, a packet of the tun device, a
-- turn of the loop that closes what is silent.
use mathlib.Core.Path.{subst}
use ratbond.Outside.{Outside}
use ratbond.Client.Sound.{none_held, Safe}
use ratbond.Server.Accept.{handle_accepted}
use ratbond.Server.Ping.{send_client_pings}
use ratbond.Server.Reader.{server_read_round, server_send_hello}
use ratbond.Server.Tunnel.{server_tun_round}
use ratbond.Server.State.{Served}
use ratbond.Server.Sound.{IsSteady, Steadily}
use ratbond.Server.Sound.Listening.{handle_accepted-Steadily}
use ratbond.Server.Sound.Accepting.{no_entry}
use ratbond.Server.Sound.Rounds.{value, server_read_round-Steadily, server_send_hello-Steadily}
use ratbond.Server.Sound.Serving.{server_tun_round-Steadily, send_client_pings-Steadily}
use ratbond.Server.Sound.Steps.{Steady, seq}
use ratbond.Base.{
  ℕ, ◌^◌, ◌<◌, ◌≡◌, refl, ◌≢◌, List, [], lookup, deadlock, Outcome, done, fault, M, ◌>>=◌, pure,
}

-- The pointers, sessions and convids are those that a goroutine holds.
pub data ServerAction : Type 0 where
  accepts : ℕ → ℕ → ServerAction
  server_reads : ℕ → ℕ → ℕ → ℕ → ServerAction
  server_greets : ℕ → ServerAction
  server_forwards : ℕ → List ℕ → ServerAction
  server_pings : ServerAction

module _ (out : Outside) where
  unfoldable pub run_server_action : ServerAction → M (Served out) (Unit {0})
  unfolding handle_accepted server_read_round server_send_hello server_tun_round send_client_pings
  run_server_action (accepts tid kcp) = do r ← handle_accepted out tid kcp; pure tt
  run_server_action (server_reads tid k p kcp) = do r ← server_read_round out tid k p kcp; pure tt
  run_server_action (server_greets p) = server_send_hello out p
  run_server_action (server_forwards tid stale) = do b ← server_tun_round out tid stale; pure tt
  run_server_action server_pings = send_client_pings out

  -- The states that the server can be in between two actions.
  pub data Serves : Served out → Type 0 where
    begins : {w : Served out} → w.clients ≡ [] → Serves w
    serves :
        {v w : Served out} (a : ServerAction)
        → Serves v
        → run_server_action a v ≡ done tt w
        → Serves w

  module _ (small : (kcp : ℕ) → out.get_conv kcp < 2 ^ 32) where
    run_server_action-Steadily : (a : ServerAction) → Steady out (run_server_action a)
    unfolding run_server_action
    run_server_action-Steadily (accepts tid kcp) =
        seq out (handle_accepted out tid kcp) _ (handle_accepted-Steadily out tid kcp (small kcp))
          λ _. value out tt
    run_server_action-Steadily (server_reads tid k p kcp) =
        seq out (server_read_round out tid k p kcp) _ (server_read_round-Steadily out tid k p kcp)
          λ _. value out tt
    run_server_action-Steadily (server_greets p) = server_send_hello-Steadily out p
    run_server_action-Steadily (server_forwards tid stale) =
        seq out (server_tun_round out tid stale) _ (server_tun_round-Steadily out tid stale)
          λ _. value out tt
    run_server_action-Steadily server_pings = send_client_pings-Steadily out

    no_client-IsSteady : (w : Served out) → w.clients ≡ [] → IsSteady out none_held w
    unfolding lookup
    no_client-IsSteady w none_yet t s at = absurd (no_entry (rw none_yet at at))

    after-IsSteady :
        (o : Outcome (Served out) (Unit {0})) (w : Served out)
        → Safe (λ _ v. IsSteady out none_held v) o
        → o ≡ done tt w
        → IsSteady out none_held w
    after-IsSteady o w safe e = subst (Safe (λ _ v. IsSteady out none_held v)) e safe

    -- In every state that the server reaches between two actions, from an empty list of clients and
    -- with convids that are uint32: every client's mutex is free, every entry of every table points
    -- to a live connection that was made and has the entry's convid, and the names on the client's
    -- circle are those of the entries.
    pub serving-IsSteady : (w : Served out) → Serves w → IsSteady out none_held w
    unfolding Steadily
    serving-IsSteady w (begins none_yet) = no_client-IsSteady w none_yet
    serving-IsSteady w (serves {v = v} a r e) =
        after-IsSteady (run_server_action a v) w
          (run_server_action-Steadily a v (serving-IsSteady v r)) e

    -- No action of the server, in any state that it reaches between two actions from an empty list of
    -- clients, with convids that are uint32, stops at a mutex that is not free: it returns, or it
    -- ends in a panic.
    pub serving-never_hangs :
        (a : ServerAction) (w v : Served out) → Serves w → run_server_action a w ≢ fault deadlock v
    unfolding Steadily
    serving-never_hangs a w v r e =
        subst (Safe (λ _ u. IsSteady out none_held u)) e
          (run_server_action-Steadily a w (serving-IsSteady w r)) refl
