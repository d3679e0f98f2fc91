-- ===== src/Network/Links.antt =====
-- netlink_subscribe_ifaces: links that go down take their connections with them.
use ratbond.Base.{
  ℕ, ◌+◌, ◌≡◌, refl, ◌∙◌, ◌≢◌, ◌⊎◌, inl, inr, Bool, true, false, ◌&&◌, ◌||◌, Option, none, some,
  List, [], ◌∷◌, arith, if◌then◌else◌, Bool-cases, Option-cases, Text, codes, text_eq, lookup,
  nil_deref, fault, Returns, returns, Returns-bind, Returns-weaken, Returns-same,
}
use ratbond.Outside.{Outside}
use ratbond.Client.State.{State, Server, ServerConnection, entries}
use ratbond.Client.Invariant.{IsCoherent, Moves, Moves-trans, Same}
use ratbond.Client.Matching.{hit, Moves-gone, Moves-refl}
use ratbond.Client.Disconnect.{disconnect_by_src}
use ratbond.Client.Disconnected.{disconnect_by_ifname-Moves, disconnect_by_src-Moves}
use ratbond.Network.Netlink.{
  LinkUpdate, RouteUpdate, is_down, handle_link_update, subscribe_ifaces, handle_route_update,
  del_route,
}

-- Whether a report says that the link of a connection is down.
abbrev pub loses : List LinkUpdate → ServerConnection → Bool
loses [] c = false
loses (u ∷ us) c = (is_down u && text_eq c.ifname u.name) || loses us c

loses-Same : (us : List LinkUpdate) (c d : ServerConnection) → Same c d → loses us d ≡ loses us c
loses-Same [] c d q = refl
loses-Same (u ∷ us) c d q = rw (loses-Same us c d q, q.ifname_kept)

module _ (out : Outside) (tid : ℕ) where
  open out use {interface_by_index}

  lost_later :
      (u : LinkUpdate) (us : List LinkUpdate) (h h' : ℕ → ServerConnection) (o o' : Option ℕ)
      → ((p : ℕ) → Same (h p) (h' p))
      → o' ≡ (if hit out (λ c. is_down u && text_eq c.ifname u.name) h o then none else o)
      → (hit out (loses us) h' o' || hit out (λ c. is_down u && text_eq c.ifname u.name) h o)
        ≡ hit out (loses (u ∷ us)) h o
  lost_later u us h h' none o' same e = ground arith
  lost_later u us h h' (some p) o' same e = ground (arith, loses-Same us (h p) (h' p) (same p))

  pub handle_link_update-Moves :
      (u : LinkUpdate) (s : Server out) (w : State out)
      → lookup tid w.servers ≡ some s
      → s.locked ≡ false
      → IsCoherent out w.heap s
      → Returns
          (λ _ w'.
            Moves out tid
              (λ j.
                hit out (λ c. is_down u && text_eq c.ifname u.name) w.heap (lookup j (entries s)))
              s
              w
              w')
          (handle_link_update out tid u w)
  unfolding handle_link_update
  handle_link_update-Moves u s w found free c = elim (Bool-cases (is_down u)) [
    | inl down ↦ rw down (disconnect_by_ifname-Moves out tid s w u.name found free c)
    | inr up ↦ rw up (
        returns (
          Moves-gone out tid _ _ s w w
            (λ j. elim (Option-cases (lookup j (entries s))) [
              | inl gone ↦ rw gone refl
              | inr (p, here) ↦ rw here refl
            ])
            (Moves-refl out tid s w found c)))
  ]

  -- On a tunnel that exists, is coherent and whose mutex is free, the loop over any reports of links
  -- returns. It takes from the table exactly the connections on a link that one of the reports says
  -- is down and whose name does not contain "tun", leaves every other entry and every other tunnel,
  -- keeps the table coherent and frees the mutex.
  pub subscribe_ifaces-Moves :
      (us : List LinkUpdate) (s : Server out) (w : State out)
      → lookup tid w.servers ≡ some s
      → s.locked ≡ false
      → IsCoherent out w.heap s
      → Returns
          (λ _ w'. Moves out tid (λ j. hit out (loses us) w.heap (lookup j (entries s))) s w w')
          (subscribe_ifaces out tid us w)
  unfolding subscribe_ifaces
  subscribe_ifaces-Moves [] s w found free c = returns (
      Moves-gone out tid _ _ s w w
        (λ j. elim (Option-cases (lookup j (entries s))) [
          | inl gone ↦ rw gone refl
          | inr (p, here) ↦ rw here refl
        ])
        (Moves-refl out tid s w found c))
  subscribe_ifaces-Moves (u ∷ us) s w found free c =
      Returns-bind (handle_link_update out tid u) _ w (handle_link_update-Moves u s w found free c)
        λ _ v m.
          Returns-weaken
            (subscribe_ifaces-Moves us m.server v m.found (m.lock_kept ∙ free) m.coherent)
            λ _ w' n.
              Moves-gone out tid _ _ s w w'
                (λ j. lost_later u us w.heap v.heap (lookup j (entries s)) _ m.same (m.table j))
                (Moves-trans out tid _ _ s w v w' m n)

  -- The report that a default route outside the main table with a source address is gone, on a
  -- tunnel that exists, is coherent and whose mutex is free: if the kernel no longer knows the link
  -- of the route either, the handling panics on the nil interface; if it does, the handling returns
  -- and has taken exactly the connections from that source address from the table, leaving every
  -- other entry and tunnel, with the table coherent and the mutex free.
  pub removed_route-Moves :
      (u : RouteUpdate) (src : Text) (s : Server out) (w : State out)
      → lookup tid w.servers ≡ some s
      → s.locked ≡ false
      → IsCoherent out w.heap s
      → text_eq u.dst (codes "0.0.0.0/0") ≡ true
      → u.kind ≡ del_route
      → u.table ≢ 254
      → u.src ≡ some src
      → let v : State out = record w { calls = w.calls + 1 } in
        ((interface_by_index w.calls u.link_index ≡ none)
          × (handle_route_update out tid u w ≡ fault nil_deref v))
        ⊎ ((name : Text) × (interface_by_index w.calls u.link_index ≡ some name)
            × Returns
                (λ _ w'.
                  Moves out tid
                    (λ j. hit out (λ c. text_eq c.src_address src) w.heap (lookup j (entries s)))
                    s
                    v
                    w')
                (handle_route_update out tid u w))
  unfolding handle_route_update
  removed_route-Moves u src s w found free c default del other from =
      let v : State out = record w { calls = w.calls + 1 } in
      elim (Option-cases (interface_by_index w.calls u.link_index)) [
        | inl gone ↦ inl (gone, rw del (ground arith))
        | inr (name, known) ↦ inr (
          name,
          known,
          Returns-same {o' = disconnect_by_src out tid src v} (ground arith)
              (disconnect_by_src-Moves out tid s v src found free c),
        )
      ]
