-- ===== src/Network/Netlink.antt =====
-- p_netlink.go: what the client does when the kernel reports a link or a route. The updates that a
-- subscription sends are a list.
use ratbond.Base.{
  ℕ, Bool, ◌&&◌, not, Option, none, some, List, [], ◌∷◌, ◌==◌, if◌then◌else◌, Text, codes, text_eq,
  nil_deref, M, ◌>>=◌, ◌>>◌, pure, stop, contains_text,
}
use ratbond.Outside.{Outside}
use ratbond.Client.State.{State, next_call}
use ratbond.Client.Connect.{connect_server}
use ratbond.Client.Disconnect.{disconnect_by_ifname, disconnect_by_src}

pub record LinkUpdate : Type 0 where
  pub name : Text
  pub oper_state : Text

-- unix.RTM_NEWROUTE, unix.RTM_DELROUTE, and any other type
pub data RouteKind : Type 0 where
  new_route del_route other_route : RouteKind

-- The fields of netlink.RouteUpdate that are read, the addresses as texts.
pub record RouteUpdate : Type 0 where
  pub kind : RouteKind
  pub dst : Text
  pub src : Option Text
  pub table : ℕ
  pub link_index : ℕ

-- A link that netlink_subscribe_ifaces acts on: not a tun device, and down.
unfoldable pub is_down : LinkUpdate → Bool
is_down u = not (contains_text u.name (codes "tun")) && text_eq u.oper_state (codes "down")

module _ (out : Outside) where
  open out use {interface_by_index}

  -- One turn of the loop of netlink_subscribe_ifaces.
  unfoldable pub handle_link_update : ℕ → LinkUpdate → M (State out) (Unit {0})
  unfolding disconnect_by_ifname is_down
  handle_link_update tid u = if is_down u then disconnect_by_ifname out tid u.name else pure tt

  unfoldable pub subscribe_ifaces : ℕ → List LinkUpdate → M (State out) (Unit {0})
  unfolding handle_link_update
  subscribe_ifaces tid [] = pure tt
  subscribe_ifaces tid (u ∷ us) = do handle_link_update tid u; subscribe_ifaces tid us

  -- rif.Name, where rif is nil if InterfaceByIndex failed.
  unfoldable pub link_name : ℕ → M (State out) Text
  link_name index = do
    n ← next_call out
    elim (interface_by_index n index) [ none ↦ stop nil_deref | some name ↦ pure name ]

  -- A default route of a table other than main, by the kind of the update.
  unfoldable pub use_route : ℕ → RouteKind → Text → Text → M (State out) (Unit {0})
  unfolding connect_server disconnect_by_src
  use_route tid new_route src ifname = connect_server out tid src ifname
  use_route tid del_route src ifname = disconnect_by_src out tid src
  use_route tid other_route src ifname = pure tt

  -- The two branches of handle_route_update have one shape; RT_TABLE_MAIN is 254.
  unfoldable pub handle_default_route : ℕ → RouteUpdate → M (State out) (Unit {0})
  unfolding link_name use_route
  handle_default_route tid u = if u.table == 254 then pure tt else (elim u.src [
    | none ↦ pure tt
    | some src ↦ do ifname ← link_name u.link_index; use_route tid u.kind src ifname
  ])

  unfoldable pub handle_route_update : ℕ → RouteUpdate → M (State out) (Unit {0})
  unfolding handle_default_route
  handle_route_update tid u =
      if text_eq u.dst (codes "0.0.0.0/0")
      then (elim u.kind [
        | new_route ↦ handle_default_route tid u
        | del_route ↦ handle_default_route tid u
        | other_route ↦ pure tt
      ])
      else pure tt

  -- netlink_subscribe_routes
  unfoldable pub handle_routes : ℕ → List RouteUpdate → M (State out) (Unit {0})
  unfolding handle_route_update
  handle_routes tid [] = pure tt
  handle_routes tid (u ∷ us) = do handle_route_update tid u; handle_routes tid us

  -- netlink_get_routes: `updates` are those that come before its timer ends the subscription.
  unfoldable pub get_routes : ℕ → List RouteUpdate → M (State out) (Unit {0})
  unfolding handle_routes
  get_routes tid updates = handle_routes tid updates
