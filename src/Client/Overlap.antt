-- ===== src/Client/Overlap.antt =====
-- Two calls of client_connect_server at once, as by netlink_subscribe_routes and
-- netlink_get_routes, which run in goroutines of their own: the part from the freed mutex on, in
-- the two pieces between which the other call may run.
use ratbond.Outside.{Outside}
use ratbond.Network.Wan.{get_wan_ip}
use ratbond.Client.Connect.{open_slot, add_connection, start_connection, connect_slot}
use ratbond.Client.State.{entries, State, read_server, lock, unlock, u32}
use ratbond.Base.{
  ℕ, ◌+◌, ◌≡◌, refl, Bool, true, false, Option, none, some, [], ◌==◌, if◌then◌else◌, Text, deadlock,
  Outcome, done, fault, M, ◌>>=◌, ◌>>◌, pure, stop,
}

-- The convid and the address that a call has chosen, outside of the mutex.
abbrev pub Choice : Type 0
Choice = Option (ℕ × Text)

-- A part that may stop, before a sequence of two.
given_through :
    {W S B C : Type 0} (o : Outcome W S) (f : S → M W C) (g : S → M W B) (h : B → M W C)
    → ((s : S) (w : W) → f s w ≡ (g s >>= h) w)
    → elim o as (λ _. Outcome W C) [ done s w ↦ f s w | fault e w ↦ fault e w ]
      ≡ elim (elim o as (λ _. Outcome W B) [ done s w ↦ g s w | fault e w ↦ fault e w ])
          as (λ _. Outcome W C) [ done b w ↦ h b w | fault e w ↦ fault e w ]
given_through (done s w) f g h e = e s w
given_through (fault x w) f g h e = refl

module _ (out : Outside) where
  unfoldable pub pick_slot : ℕ → Text → M (State out) Choice
  unfolding open_slot get_wan_ip
  pick_slot tid ifname = do
    s ← read_server out tid
    avail ← elim (open_slot (entries s) tid) [ none ↦ stop deadlock | some k ↦ pure k ]
    if avail == u32 (tid + 100) then pure none else do
      found ← get_wan_ip out ifname
      pure (some (avail, elim found [ none ↦ [] | some ip ↦ ip ]))

  unfoldable pub fill_slot : ℕ → Text → Text → Bool → Choice → M (State out) (Unit {0})
  unfolding add_connection start_connection lock unlock
  fill_slot tid src ifname spawn_tun none = pure tt
  fill_slot tid src ifname spawn_tun (some (avail, ip)) = do
    lock out tid
    p ← add_connection out tid avail src ifname ip
    unlock out tid
    start_connection out tid p spawn_tun

  slot_taken :
      (tid avail : ℕ) (src ifname : Text) (spawn_tun b : Bool) (w : State out)
      → (if b then pure tt else do
        found ← get_wan_ip out ifname
        lock out tid
        p ← add_connection out tid avail src ifname (elim found [ none ↦ [] | some ip ↦ ip ])
        unlock out tid
        start_connection out tid p spawn_tun)
          w
        ≡ ((if b then pure none else do
          found ← get_wan_ip out ifname
          pure (some (avail, elim found [ none ↦ [] | some ip ↦ ip ])))
              >>= fill_slot tid src ifname spawn_tun)
            w
  unfolding fill_slot
  slot_taken tid avail src ifname spawn_tun true w = refl
  slot_taken tid avail src ifname spawn_tun false w =
      given_through (get_wan_ip out ifname w) _ _ (fill_slot tid src ifname spawn_tun)
        λ found v. refl

  slot_searched :
      (tid : ℕ) (src ifname : Text) (spawn_tun : Bool) (o : Option ℕ) (w : State out)
      → (do
        avail ← elim o [ none ↦ stop deadlock | some k ↦ pure k ]
        if avail == u32 (tid + 100) then pure tt else do
          found ← get_wan_ip out ifname
          lock out tid
          p ← add_connection out tid avail src ifname (elim found [ none ↦ [] | some ip ↦ ip ])
          unlock out tid
          start_connection out tid p spawn_tun)
          w
        ≡ ((do
          avail ← elim o [ none ↦ stop deadlock | some k ↦ pure k ]
          if avail == u32 (tid + 100) then pure none else do
            found ← get_wan_ip out ifname
            pure (some (avail, elim found [ none ↦ [] | some ip ↦ ip ])))
              >>= fill_slot tid src ifname spawn_tun)
            w
  slot_searched tid src ifname spawn_tun none w = refl
  slot_searched tid src ifname spawn_tun (some k) w =
      slot_taken tid k src ifname spawn_tun (k == u32 (tid + 100)) w

  -- The two pieces, run without a break, are the part of client_connect_server from the freed
  -- mutex on.
  pub connect_slot-pieces :
      (tid : ℕ) (src ifname : Text) (spawn_tun : Bool) (w : State out)
      → connect_slot out tid src ifname spawn_tun w
        ≡ (pick_slot tid ifname >>= fill_slot tid src ifname spawn_tun) w
  unfolding connect_slot pick_slot
  connect_slot-pieces tid src ifname spawn_tun w =
      given_through (read_server out tid w) _ _ (fill_slot tid src ifname spawn_tun)
        λ s v. slot_searched tid src ifname spawn_tun (open_slot (entries s) tid) v
