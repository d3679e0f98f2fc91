-- ===== src/Client/Sound/Linking.antt =====
-- client_connect_server and the routes that call it.
use ratbond.Outside.{Outside}
use ratbond.Network.Wan.{get_wan_ip}
use ratbond.Network.Netlink.{
  RouteKind, new_route, del_route, other_route, RouteUpdate, link_name, use_route,
  handle_default_route, handle_route_update,
}
use ratbond.Client.Choose.{count_src}
use ratbond.Client.Connect.{
  open_slot, new_server, ensure_tun, ensure_map, add_connection, start_connection, connect_slot,
  connect_server,
}
use ratbond.Client.State.{
  ServerConnection, entries, State, Server, read_server, write_server, lock, unlock, u32,
}
use ratbond.Client.Sound.{
  none_held, one_held, Soundly, Soundly-bind, Quietly-Soundly, if-Soundly, option-Soundly,
}
use ratbond.Client.Slots.{open_slot-IsSlot}
use ratbond.Client.Sound.Connect.{
  empty-IsTunnel, ensure_tun-Soundly, ensure_map-Soundly, start_connection-Soundly,
}
use ratbond.Client.Sound.Locks.{write-IsSound, unlock-Soundly, lock-Soundly}
use ratbond.Client.Sound.Rounds.{Steady, quiet, seq}
use ratbond.Client.Sound.Joining.{add_connection-Soundly}
use ratbond.Client.Sound.Losing.{disconnect_by_src-Soundly}
use ratbond.Client.Sound.Steps.{
  pure-Quietly, read_server-Quietly, link_name-Quietly, get_wan_ip-Quietly,
}
use ratbond.Base.{
  ℕ, ◌+◌, ◌^◌, ◌<◌, refl, Bool, false, Option, none, some, [], arith, leb, ◌==◌, if◌then◌else◌,
  Text, codes, text_eq, Dict, lookup, deadlock, M, ◌>>=◌, ◌>>◌, pure, stop,
}

module _ (out : Outside) where
  -- From the slot on.
  slotted-Soundly :
      (tid k : ℕ) (src ifname : Text) (spawn_tun : Bool)
      → 0 < k
      → k < 2 ^ 32
      → Steady out (do
        found ← get_wan_ip out ifname
        lock out tid
        p ← add_connection out tid k src ifname (elim found [ none ↦ [] | some ip ↦ ip ])
        unlock out tid
        start_connection out tid p spawn_tun)
  slotted-Soundly tid k src ifname spawn_tun pos small =
      seq out (get_wan_ip out ifname) _ (quiet out _ (get_wan_ip-Quietly out ifname)) λ found.
        Soundly-bind out none_held (one_held tid) none_held (lock out tid) _ (lock-Soundly out tid)
          λ _.
            Soundly-bind out (one_held tid) (one_held tid) none_held
              (add_connection out tid k src ifname (elim found [ none ↦ [] | some ip ↦ ip ])) _
              (add_connection-Soundly out tid k src ifname _ pos small)
              λ p.
                Soundly-bind out (one_held tid) none_held none_held (unlock out tid) _
                  (unlock-Soundly out tid) λ _. start_connection-Soundly out tid p spawn_tun

  -- The search has an end.
  opened-Soundly :
      (tid : ℕ) (m : Dict ℕ) (rest : ℕ → M (State out) (Unit {0}))
      → 0 < tid
      → tid + 11 < 2 ^ 32
      → ((k : ℕ) → 0 < k → k < 2 ^ 32 → Steady out (rest k))
      → Steady out
          (do avail ← elim (open_slot m tid) [ none ↦ stop deadlock | some k ↦ pure k ]; rest avail)
  opened-Soundly tid m rest pos small hr =
      let (k, is_k, is, other, full) = open_slot-IsSlot m tid small in
      rw is_k (hr k (omega (arith, is.from, pos)) (omega (arith, is.upto, small)))

  connect_slot-Soundly :
      (tid : ℕ) (src ifname : Text) (spawn_tun : Bool)
      → 0 < tid
      → tid + 11 < 2 ^ 32
      → Steady out (connect_slot out tid src ifname spawn_tun)
  unfolding connect_slot
  connect_slot-Soundly tid src ifname spawn_tun pos small =
      seq out (read_server out tid) _ (quiet out _ (read_server-Quietly out tid)) λ s.
        opened-Soundly tid (entries s) _ pos small λ k some_k small_k.
          if-Soundly out none_held none_held (k == u32 (tid + 100)) _ _
            (quiet out _ (pure-Quietly out tt))
            (slotted-Soundly tid k src ifname spawn_tun some_k small_k)

  -- The tunnel is made when it is not there.
  made-Soundly :
      (tid : ℕ) (o : Option (Server out))
      → Steady out (elim o [ none ↦ write_server out tid (new_server out) | some s ↦ pure tt ])
  unfolding Soundly
  made-Soundly tid none w sound =
      write-IsSound out none_held none_held tid (new_server out) w (λ t ne. refl)
        (empty-IsTunnel out false w.heap w.fresh (new_server out) refl refl (λ t on. on)) sound
  made-Soundly tid (some s) w sound = sound

  -- From the mutex on; `h` is the heap that the connections are counted in.
  limited-Soundly :
      (tid : ℕ) (src ifname : Text) (h : ℕ → ServerConnection)
      → 0 < tid
      → tid + 11 < 2 ^ 32
      → Steady out (do
        lock out tid
        s ← read_server out tid
        if leb out.options.mux_max (count_src h (entries s) src) then unlock out tid else do
          spawn_tun ← ensure_tun out tid
          ensure_map out tid
          unlock out tid
          connect_slot out tid src ifname spawn_tun)
  limited-Soundly tid src ifname h pos small =
      Soundly-bind out none_held (one_held tid) none_held (lock out tid) _ (lock-Soundly out tid)
        λ _.
          Soundly-bind out (one_held tid) (one_held tid) none_held (read_server out tid) _
            (Quietly-Soundly out (one_held tid) _ (read_server-Quietly out tid))
            λ s.
              if-Soundly out (one_held tid) none_held
                (leb out.options.mux_max (count_src h (entries s) src)) _ _ (unlock-Soundly out tid)
                (Soundly-bind out (one_held tid) (one_held tid) none_held (ensure_tun out tid) _
                  (ensure_tun-Soundly out tid)
                  λ spawn_tun.
                    Soundly-bind out (one_held tid) (one_held tid) none_held (ensure_map out tid) _
                      (ensure_map-Soundly out tid)
                      λ _.
                        Soundly-bind out (one_held tid) none_held none_held (unlock out tid) _
                          (unlock-Soundly out tid)
                          λ _. connect_slot-Soundly tid src ifname spawn_tun pos small)

  begun-Soundly :
      (tid : ℕ) (src ifname : Text) (h : ℕ → ServerConnection) (o : Option (Server out))
      → 0 < tid
      → tid + 11 < 2 ^ 32
      → Steady out (do
        elim o [ none ↦ write_server out tid (new_server out) | some s ↦ pure tt ]
        lock out tid
        s ← read_server out tid
        if leb out.options.mux_max (count_src h (entries s) src) then unlock out tid else do
          spawn_tun ← ensure_tun out tid
          ensure_map out tid
          unlock out tid
          connect_slot out tid src ifname spawn_tun)
  begun-Soundly tid src ifname h o pos small =
      seq out (elim o [ none ↦ write_server out tid (new_server out) | some s ↦ pure tt ]) _
        (made-Soundly tid o) λ _. limited-Soundly tid src ifname h pos small

  pub connect_server-Soundly :
      (tid : ℕ) (src ifname : Text)
      → 0 < tid
      → tid + 11 < 2 ^ 32
      → Steady out (connect_server out tid src ifname)
  unfolding connect_server Soundly
  connect_server-Soundly tid src ifname pos small w sound =
      begun-Soundly tid src ifname w.heap (lookup tid w.servers) pos small w sound

  use_route-Soundly :
      (tid : ℕ) (kind : RouteKind) (src ifname : Text)
      → 0 < tid
      → tid + 11 < 2 ^ 32
      → Steady out (use_route out tid kind src ifname)
  unfolding use_route
  use_route-Soundly tid new_route src ifname pos small =
      connect_server-Soundly tid src ifname pos small
  use_route-Soundly tid del_route src ifname pos small = disconnect_by_src-Soundly out tid src
  use_route-Soundly tid other_route src ifname pos small = quiet out _ (pure-Quietly out tt)

  default-Soundly :
      (tid : ℕ) (u : RouteUpdate)
      → 0 < tid
      → tid + 11 < 2 ^ 32
      → Steady out (handle_default_route out tid u)
  unfolding handle_default_route
  default-Soundly tid u pos small =
      if-Soundly out none_held none_held (u.table == 254) _ _ (quiet out _ (pure-Quietly out tt)) (
        option-Soundly out none_held none_held u.src _ _ (quiet out _ (pure-Quietly out tt)) λ src.
          seq out (link_name out u.link_index) _ (quiet out _ (link_name-Quietly out u.link_index))
            λ ifname. use_route-Soundly tid u.kind src ifname pos small)

  by_kind-Soundly :
      (kind : RouteKind) (m : M (State out) (Unit {0}))
      → Steady out m
      → Steady out (elim kind [ new_route ↦ m | del_route ↦ m | other_route ↦ pure tt ])
  by_kind-Soundly new_route m hm = hm
  by_kind-Soundly del_route m hm = hm
  by_kind-Soundly other_route m hm = quiet out _ (pure-Quietly out tt)

  pub handle_route_update-Soundly :
      (tid : ℕ) (u : RouteUpdate)
      → 0 < tid
      → tid + 11 < 2 ^ 32
      → Steady out (handle_route_update out tid u)
  unfolding handle_route_update
  handle_route_update-Soundly tid u pos small =
      if-Soundly out none_held none_held (text_eq u.dst (codes "0.0.0.0/0")) _ _
        (by_kind-Soundly u.kind (handle_default_route out tid u) (default-Soundly tid u pos small))
        (quiet out _ (pure-Quietly out tt))
