-- ===== src/Network/Wan.antt =====
-- p_utils.go: get_wan_ip, which client_connect_server asks for the address that a link has outside.
use ratbond.Base.{
  Option, none, some, List, [], ◌∷◌, ◌++◌, if◌then◌else◌, Text, codes, index_range, M, ◌>>=◌, pure,
  stop,
}
use ratbond.Outside.{Outside}
use ratbond.Network.Interfaces.{get_ip_addr}
use ratbond.Client.State.{State, next_call}

module _ (out : Outside) where
  open out use {interfaces, resolves, http_get}

  -- What comes after the address `ip` of the link is known: `none` is an error.
  unfoldable pub ask_wan_ip : Text → M (State out) (Option Text)
  ask_wan_ip ip =
      if resolves (ip ++ codes ":0")
      then (do n ← next_call out; pure (http_get n ip))
      else pure none

  -- ip[0] panics on an interface with no address.
  unfoldable pub wan_ip_from : List Text → M (State out) (Option Text)
  unfolding ask_wan_ip
  wan_ip_from [] = stop index_range
  wan_ip_from (ip ∷ ips) = ask_wan_ip ip

  unfoldable pub get_wan_ip : Text → M (State out) (Option Text)
  unfolding wan_ip_from get_ip_addr
  get_wan_ip ifname = do
    n ← next_call out
    elim (get_ip_addr ifname (interfaces n)) [ none ↦ pure none | some ips ↦ wan_ip_from ips ]
