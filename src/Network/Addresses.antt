-- ===== src/Network/Addresses.antt =====
-- network_getIpAddr and get_wan_ip against a plain description: the first address of all the
-- interfaces of that name decides.
use ratbond.Base.{
  ◌+◌, ◌≡◌, refl, sym, ap, ◌∙◌, inl, inr, Bool, true, false, Option, none, some, List, [], ◌∷◌,
  ◌++◌, arith, if◌then◌else◌, Option-cases, Text, codes, index_range, Outcome, done, fault,
}
use ratbond.Outside.{Outside}
use ratbond.Network.Interfaces.{
  Address, Interface, ip_net, ip_addr, other_addr, is_named, first_address, addresses_of,
  find_address,
}
use ratbond.Network.Wan.{get_wan_ip, wan_ip_from}
use ratbond.Client.State.{State}

-- The addresses that have an IP, in order.
abbrev pub ips_of : List Address → List (Option Text)
ips_of [] = []
ips_of (ip_net ip ∷ rest) = ip ∷ ips_of rest
ips_of (ip_addr ip ∷ rest) = ip ∷ ips_of rest
ips_of (other_addr ∷ rest) = ips_of rest

abbrev pub ips_on : Interface → List (Option Text)
ips_on ifa = elim ifa.addrs [ none ↦ [] | some found ↦ ips_of found ]

-- Those of all interfaces of a name.
abbrev pub ips_named : Text → List Interface → List (Option Text)
ips_named name [] = []
ips_named name (ifa ∷ ifas) = elim (is_named name ifa) [
  | true ↦ ips_on ifa ++ ips_named name ifas
  | false ↦ ips_named name ifas
]

-- The answer that a list of addresses leads to.
abbrev pub answer : List (Option Text) → List Text
answer [] = []
answer (none ∷ rest) = []
answer (some t ∷ rest) = t ∷ []

abbrev answer_or : List (Option Text) → List Text → List Text
answer_or [] other = other
answer_or (none ∷ rest) other = []
answer_or (some t ∷ rest) other = t ∷ []

answer-append : (xs ys : List (Option Text)) → answer (xs ++ ys) ≡ answer_or xs (answer ys)
answer-append [] ys = refl
answer-append (none ∷ xs) ys = refl
answer-append (some t ∷ xs) ys = refl

abbrev given : Option (List Text) → List Text → List Text
given none other = other
given (some ips) other = ips

first_address-answer :
    (found : List Address) (other : List Text)
    → given (first_address found) other ≡ answer_or (ips_of found) other
unfolding first_address
first_address-answer [] other = refl
first_address-answer (ip_net none ∷ rest) other = refl
first_address-answer (ip_net (some t) ∷ rest) other = refl
first_address-answer (ip_addr none ∷ rest) other = refl
first_address-answer (ip_addr (some t) ∷ rest) other = refl
first_address-answer (other_addr ∷ rest) other = first_address-answer rest other

addrs-answer :
    (addrs : Option (List Address)) (other : List Text)
    → given (elim addrs [ none ↦ none | some found ↦ first_address found ]) other
      ≡ answer_or (elim addrs [ none ↦ [] | some found ↦ ips_of found ]) other
addrs-answer none other = refl
addrs-answer (some found) other = first_address-answer found other

find_address-step :
    (name : Text) (ifa : Interface) (ifas : List Interface)
    → find_address name (ifa ∷ ifas) ≡ (elim (is_named name ifa) [
      | true ↦ given (addresses_of ifa) (find_address name ifas)
      | false ↦ find_address name ifas
    ])
unfolding find_address
find_address-step name ifa ifas = ground arith

named-answer :
    (b : Bool) (ifa : Interface) (other : List Text) (rest : List (Option Text))
    → other ≡ answer rest
    → (elim b [ true ↦ given (addresses_of ifa) other | false ↦ other ])
      ≡ answer (elim b [ true ↦ ips_on ifa ++ rest | false ↦ rest ])
unfolding addresses_of
named-answer true ifa other rest e =
    addrs-answer ifa.addrs other
    ∙ ap (answer_or (ips_on ifa)) e
    ∙ sym (answer-append (ips_on ifa) rest)
named-answer false ifa other rest e = e

pub find_address-answer :
    (name : Text) (ifas : List Interface) → find_address name ifas ≡ answer (ips_named name ifas)
find_address-answer name [] = unfold find_address in refl
find_address-answer name (ifa ∷ ifas) =
    find_address-step name ifa ifas
    ∙ named-answer (is_named name ifa) ifa _ (ips_named name ifas) (find_address-answer name ifas)

module _ (out : Outside) where
  open out use {interfaces, resolves, http_get}

  -- What get_wan_ip comes to, told by the addresses of all interfaces of a name: with none, or with
  -- a first one that is not IPv4, the index panics.
  abbrev pub wan_answer : List (Option Text) → State out → Outcome (State out) (Option Text)
  wan_answer [] w = fault index_range w
  wan_answer (none ∷ rest) w = fault index_range w
  wan_answer (some ip ∷ rest) w =
      if resolves (ip ++ codes ":0")
      then done (http_get w.calls ip) (record w { calls = w.calls + 1 })
      else done none w

  asks-answer :
      (ips : List (Option Text)) (w : State out) → wan_ip_from out (answer ips) w ≡ wan_answer ips w
  unfolding wan_ip_from
  asks-answer [] w = refl
  asks-answer (none ∷ rest) w = refl
  asks-answer (some ip ∷ rest) w = ground arith

  -- get_wan_ip on every input: an error when the interfaces cannot be listed; a panic when the
  -- interfaces of that name have no address with an IP, or the first of these is not IPv4, even if
  -- a later one is; otherwise what the service answers to a request from the first address, or an
  -- error when that address does not resolve. It changes nothing.
  pub get_wan_ip-answer :
      (ifname : Text) (w : State out)
      → get_wan_ip out ifname w ≡ (
          let v : State out = record w { calls = w.calls + 1 } in
          elim (interfaces w.calls) [
            | none ↦ done none v
            | some ifas ↦ wan_answer (ips_named ifname ifas) v
          ])
  unfolding get_wan_ip
  get_wan_ip-answer ifname w = elim (Option-cases (interfaces w.calls)) [
    | inl unlisted ↦ rw unlisted (ground arith)
    | inr (ifas, listed) ↦ rw listed (
        ground (arith, find_address-answer ifname ifas)
        ∙ asks-answer (ips_named ifname ifas) (record w { calls = w.calls + 1 }))
  ]
