-- ===== src/Network/Interfaces.antt =====
-- p_network.go: the functions that look at the interfaces of the machine. What net.Interfaces
-- returns is their argument, `none` for an error.
use ratbond.Base.{
  Bool, true, false, ◌&&◌, ◌||◌, not, Option, none, some, List, [], ◌∷◌, if◌then◌else◌, Text, codes,
  text_eq,
}

-- A net.Addr: a *net.IPNet or *net.IPAddr with what To4 and String make of its address, `none` for
-- the nil of an address that is not IPv4, or a value of another type.
pub data Address : Type 0 where
  ip_net ip_addr : Option Text → Address
  other_addr : Address

-- A net.Interface, with the results of HardwareAddr.String() and of Addrs(), `none` for an error.
pub record Interface : Type 0 where
  pub name : Text
  pub hardware : Text
  pub addrs : Option (List Address)

-- n != "" && n == name
abbrev pub is_named : Text → Interface → Bool
is_named name ifa = not (text_eq ifa.name []) && text_eq ifa.name name

-- The loop of network_getMacAddr.
unfoldable pub macs_of : Text → List Interface → List Text
macs_of name [] = []
macs_of name (ifa ∷ ifas) =
    let rest = macs_of name ifas in
    if not (text_eq ifa.hardware []) && text_eq ifa.name name then ifa.hardware ∷ rest else rest

unfoldable pub get_mac_addr : Text → Option (List Interface) → Option (List Text)
unfolding macs_of
get_mac_addr name none = none
get_mac_addr name (some ifas) = some (macs_of name ifas)

unfoldable pub has_interface : Text → List Interface → Bool
has_interface name [] = false
has_interface name (ifa ∷ ifas) = is_named name ifa || has_interface name ifas

unfoldable pub interface_exists : Text → Option (List Interface) → Bool
unfolding has_interface
interface_exists name none = false
interface_exists name (some ifas) = has_interface name ifas

-- The loop over the addresses of one interface: network_getIpAddr returns at the first one that is
-- an IPNet or IPAddr, with its IPv4 text or without any; `none` when the loop runs to its end.
unfoldable pub first_address : List Address → Option (List Text)
first_address [] = none
first_address (ip_net none ∷ found) = some []
first_address (ip_net (some t) ∷ found) = some (t ∷ [])
first_address (ip_addr none ∷ found) = some []
first_address (ip_addr (some t) ∷ found) = some (t ∷ [])
first_address (other_addr ∷ found) = first_address found

unfoldable pub addresses_of : Interface → Option (List Text)
unfolding first_address
addresses_of ifa = elim ifa.addrs [ none ↦ none | some found ↦ first_address found ]

-- The loop of network_getIpAddr over the interfaces.
unfoldable pub find_address : Text → List Interface → List Text
unfolding addresses_of
find_address name [] = []
find_address name (ifa ∷ ifas) = elim (is_named name ifa) [
  | false ↦ find_address name ifas
  | true ↦ elim (addresses_of ifa) [ none ↦ find_address name ifas | some ips ↦ ips ]
]

unfoldable pub get_ip_addr : Text → Option (List Interface) → Option (List Text)
unfolding find_address
get_ip_addr name none = none
get_ip_addr name (some ifas) = some (find_address name ifas)

-- String() of the address that To4 gives, which may be nil.
unfoldable pub address_text : Option Text → Text
address_text none = codes "<nil>"
address_text (some t) = t

unfoldable pub has_address : Text → List Address → Bool
unfolding address_text
has_address find_addr [] = false
has_address find_addr (ip_net ip ∷ found) =
    text_eq (address_text ip) find_addr || has_address find_addr found
has_address find_addr (ip_addr ip ∷ found) =
    text_eq (address_text ip) find_addr || has_address find_addr found
has_address find_addr (other_addr ∷ found) = has_address find_addr found

unfoldable pub any_address : Text → Text → List Interface → Bool
unfolding has_address
any_address name find_addr [] = false
any_address name find_addr (ifa ∷ ifas) =
    (is_named name ifa
      && elim ifa.addrs [ none ↦ false | some found ↦ has_address find_addr found ])
    || any_address name find_addr ifas

unfoldable pub if_addr_exists : Text → Text → Option (List Interface) → Bool
unfolding any_address
if_addr_exists name find_addr none = false
if_addr_exists name find_addr (some ifas) = any_address name find_addr ifas
