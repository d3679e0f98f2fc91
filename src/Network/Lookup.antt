-- ===== src/Network/Lookup.antt =====
-- network_get_mac and network_get_lan_ip of p_network.go. Each call of net.Interfaces has a result of
-- its own; `none` as a result is l.Fatal, which ends the process.
use ratbond.Network.Interfaces.{Interface, get_mac_addr, get_ip_addr}
use ratbond.Base.{
  ◌-◌, ◌&&◌, Option, none, some, List, [], ◌∷◌, leb, if◌then◌else◌, Text, codes, text_eq,
}

-- for _, ip := range ips { g = ip }
unfoldable pub last_of : Text → List Text → Text
last_of old [] = old
last_of old (t ∷ ts) = last_of t ts

-- strings.ToUpper on ASCII
unfoldable pub to_upper : Text → Text
to_upper [] = []
to_upper (c ∷ cs) = (if leb 97 c && leb c 122 then c - 32 else c) ∷ to_upper cs

-- network_get_mac: the new value of g_mac. The caller gets it in upper case.
unfoldable pub get_mac : Text → Option (List Interface) → Option Text
unfolding get_mac_addr last_of
get_mac old ifas = elim (get_mac_addr (codes "eth0") ifas) [
  | none ↦ none
  | some macs ↦ some (last_of old macs)
]

-- The second half of network_get_lan_ip, when br1 has no address.
unfoldable pub br_lan_ip : Option (List Interface) → Option Text
unfolding get_ip_addr last_of
br_lan_ip ifas = elim (get_ip_addr (codes "br-lan") ifas) [
  | none ↦ none
  | some ips ↦ some (last_of [] ips)
]

-- network_get_lan_ip: the new value of g_lan_ip.
unfoldable pub get_lan_ip : Option (List Interface) → Option (List Interface) → Option Text
unfolding br_lan_ip
get_lan_ip ifas again = elim (get_ip_addr (codes "br1") ifas) [
  | none ↦ none
  | some ips ↦ let ip = last_of [] ips in if text_eq ip [] then br_lan_ip again else some ip
]
