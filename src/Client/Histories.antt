-- ===== src/Client/Histories.antt =====
-- The operations that take entries from the client's table or choose among them, run one after the
-- other in any order, as the goroutines, the links, the routes and the timer call them.
use ratbond.Client.Choose.{choose}
use ratbond.Client.Disconnect.{disconnect_by_ifname, disconnect_by_src, disconnect_by_convid}
use ratbond.Client.Invariant.{IsCoherent, Moves, choose_next-Moves, Moves-trans}
use ratbond.Client.State.{State, Server}
use ratbond.Client.Disconnected.{
  disconnect_by_convid-Moves, disconnect_by_src-Moves, disconnect_by_ifname-Moves,
}
use ratbond.Client.Matching.{Moves-refl}
use ratbond.Base.{
  ℕ, ◌≡◌, ◌∙◌, Bool, false, none, some, List, [], ◌∷◌, Text, lookup, M, ◌>>=◌, ◌>>◌, pure, Returns,
  returns, Returns-bind, Returns-weaken,
}
use ratbond.Network.Netlink.{LinkUpdate, handle_link_update}
use ratbond.Network.Links.{handle_link_update-Moves}
use ratbond.Outside.{Outside}

pub data Event : Type 0 where
  loses_convid : ℕ → Event
  loses_src loses_ifname : Text → Event
  reports : LinkUpdate → Event
  chooses : Event

module _ (out : Outside) (tid : ℕ) where
  unfoldable pub run_event : Event → M (State out) (Unit {0})
  unfolding disconnect_by_convid disconnect_by_src disconnect_by_ifname handle_link_update choose
  run_event (loses_convid d) = disconnect_by_convid out tid d
  run_event (loses_src t) = disconnect_by_src out tid t
  run_event (loses_ifname t) = disconnect_by_ifname out tid t
  run_event (reports u) = handle_link_update out tid u
  run_event chooses = do r ← choose out tid none; pure tt

  unfoldable pub run_events : List Event → M (State out) (Unit {0})
  unfolding run_event
  run_events [] = pure tt
  run_events (e ∷ es) = do run_event e; run_events es

  pub choose-Moves :
      (s : Server out) (w : State out)
      → lookup tid w.servers ≡ some s
      → IsCoherent out w.heap s
      → Returns (λ _ w'. Moves out tid (λ _. false) s w w') (choose out tid none w)
  unfolding choose
  choose-Moves s w found c = choose_next-Moves out tid s w found c

  run_event-Moves :
      (e : Event) (s : Server out) (w : State out)
      → lookup tid w.servers ≡ some s
      → s.locked ≡ false
      → IsCoherent out w.heap s
      → Returns (λ _ w'. (gone : ℕ → Bool) × Moves out tid gone s w w') (run_event e w)
  unfolding run_event
  run_event-Moves (loses_convid d) s w found free c =
      Returns-weaken (disconnect_by_convid-Moves out tid s w d found free c) λ _ w' m. (_, m)
  run_event-Moves (loses_src t) s w found free c =
      Returns-weaken (disconnect_by_src-Moves out tid s w t found free c) λ _ w' m. (_, m)
  run_event-Moves (loses_ifname t) s w found free c =
      Returns-weaken (disconnect_by_ifname-Moves out tid s w t found free c) λ _ w' m. (_, m)
  run_event-Moves (reports u) s w found free c =
      Returns-weaken (handle_link_update-Moves out tid u s w found free c) λ _ w' m. (_, m)
  run_event-Moves chooses s w found free c =
      Returns-bind (choose out tid none) _ w (choose-Moves s w found c) λ _ w' m. returns (_, m)

  -- Disconnections by convid, source address and interface, reports of links and choices of the
  -- round robin, in any number and order, on a tunnel that exists, is coherent and whose mutex is
  -- free: all of them return, and at the end the table has lost some of its entries and gained none,
  -- every other tunnel is left, the table is coherent and the mutex is free.
  pub run_events-Moves :
      (es : List Event) (s : Server out) (w : State out)
      → lookup tid w.servers ≡ some s
      → s.locked ≡ false
      → IsCoherent out w.heap s
      → Returns (λ _ w'. (gone : ℕ → Bool) × Moves out tid gone s w w') (run_events es w)
  unfolding run_events
  run_events-Moves [] s w found free c = returns ((λ _. false), Moves-refl out tid s w found c)
  run_events-Moves (e ∷ es) s w found free c =
      Returns-bind (run_event e) _ w (run_event-Moves e s w found free c) λ _ v h.
        let (f, m) = h in
        Returns-weaken (run_events-Moves es m.server v m.found (m.lock_kept ∙ free) m.coherent)
          λ _ u k. let (g, n) = k in (_, Moves-trans out tid f g s w v u m n)
