-- ===== src/Client/Overlapped.antt =====
-- Two calls of client_connect_server of which each has chosen its slot before the other enters its
-- connection.
use ratbond.Client.Opening.{dial}
use mathlib.Core.Path.{subst}
use mathlib.Core.Option.{some-injective}
use ratbond.Outside.{Outside, Handles, connected}
use ratbond.Network.Addresses.{ips_named}
use ratbond.Network.Interfaces.{Interface}
use ratbond.Client.Overlap.{pick_slot, fill_slot}
use ratbond.Client.Standing.{IsAt}
use ratbond.Client.State.{entries, State, ServerConnection, RatSession, Server}
use ratbond.Client.Slots.{IsSlot}
use ratbond.Client.Invariant.{IsCoherent}
use ratbond.Client.Filling.{slot_unique, picked, filled}
use ratbond.Base.{
  ℕ, ◌+◌, ◌^◌, ◌<◌, ◌≡◌, sym, ap, ◌∙◌, ◌≢◌, inl, inr, Bool, true, false, Option, some, List, ◌∷◌,
  arith, ◌==◌, if◌then◌else◌, Bool-cases, Text, Dict, lookup, ◌>>=◌, ◌>>◌, Returns, Returns-bind,
  Returns-weaken,
}

-- From `w0` to `w'` two connections were made under one convid, and the table has the second alone.
pub record Loses (out : Outside) (tid : ℕ) (old : ℕ → Option ℕ) (src src' : Text)
    (w0 w' : State out) : Type 0 where
  pub slot : ℕ
  pub server : Server out
  pub found : lookup tid w'.servers ≡ some server
  pub unlocked : server.locked ≡ false
  pub coherent : IsCoherent out w'.heap server
  pub table :
      (j : ℕ) → lookup j (entries server) ≡ (if slot == j then some (w0.fresh + 1) else old j)
  pub kept :
      (x : RatSession) × ((w'.heap (w0.fresh + 1)).session ≡ some x)
      × (x.convid ≡ slot)
      × ((w'.heap (w0.fresh + 1)).src_address ≡ src')
  pub lost :
      (x : RatSession) × ((w'.heap w0.fresh).session ≡ some x)
      × (x.convid ≡ slot)
      × ((w'.heap w0.fresh).src_address ≡ src)
  pub unlisted : (j : ℕ) → lookup j (entries server) ≢ some w0.fresh

table_over :
    (k k' j p q : ℕ) (o : Option ℕ)
    → k ≡ k'
    → (if k' == j then some q else if k == j then some p else o) ≡ (if k == j then some q else o)
table_over k k' j p q o same = ground arith

below_over :
    (old : ℕ → Option ℕ) (k j p n q : ℕ)
    → ((i r : ℕ) → old i ≡ some r → r < p)
    → n ≡ p + 1
    → (if k == j then some p else old j) ≡ some q
    → q < n
below_over old k j p n q below next e = elim (Bool-cases (k == j)) [
  | inl here ↦ omega (arith, some-injective _ _ (rw here at e), next)
  | inr there ↦ omega (arith, below j q (rw there at e), next)
]

not_listed :
    (old : ℕ → Option ℕ) (k j p : ℕ)
    → ((i r : ℕ) → old i ≡ some r → r < p)
    → (if k == j then some (p + 1) else old j) ≢ some p
not_listed old k j p below e = elim (Bool-cases (k == j)) [
  | inl here ↦ omega (arith, some-injective _ _ (rw here at e))
  | inr there ↦ omega (arith, below j p (rw there at e))
]

module _ (out : Outside) (old : ℕ → Option ℕ) (src src' ifname ifname' : Text) (w0 : State out)
    (pos : 0 < out.options.tunnel_id) (small : out.options.tunnel_id + 11 < 2 ^ 16)
    (opens : (n port : ℕ) → port < 2 ^ 16 → (x : Handles) × (dial out src n port ≡ connected x))
    (opens' : (n port : ℕ) → port < 2 ^ 16 → (x : Handles) × (dial out src' n port ≡ connected x))
    (below : (j q : ℕ) → old j ≡ some q → q < w0.fresh) where
  abbrev own : ℕ
  own = out.options.tunnel_id

  both_filled :
      (k k' : ℕ) (ip ip' : Text) (m m' : Dict ℕ) (spawn_tun spawn_tun' : Bool) (w : State out)
      → IsSlot m own (own + 10) k
      → IsSlot m' own (own + 10) k'
      → ((j : ℕ) → lookup j m ≡ old j)
      → ((j : ℕ) → lookup j m' ≡ old j)
      → IsAt out own old w0 true false w
      → Returns
          (λ _ w'. Loses out own old src src' w0 w')
          ((do
            fill_slot out own src ifname spawn_tun (some (k, ip))
            fill_slot out own src' ifname' spawn_tun' (some (k', ip')))
            w)
  both_filled k k' ip ip' m m' spawn_tun spawn_tun' w is is' same same' at =
      let one : k ≡ k' =
        slot_unique m m' own (own + 10) k k' (λ j. same j ∙ sym (same' j)) is is' in
      Returns-bind (fill_slot out own src ifname spawn_tun (some (k, ip))) _ w
        (filled out w0 old src ifname ip k spawn_tun w at below (omega (arith, is.from, pos))
          (omega (arith, is.upto, small)) opens)
        λ _ w1 a.
          Returns-weaken
            (filled out w1 (λ j. if k == j then some w0.fresh else old j) src' ifname' ip' k'
              spawn_tun' w1 a.at (λ j q e. below_over old k j w0.fresh w1.fresh q below a.next e)
              (omega (arith, is'.from, pos)) (omega (arith, is'.upto, small)) opens')
            λ _ w' b.
              let table' : (j : ℕ)
                  → lookup j (entries b.at.server)
                    ≡ (if k == j then some (w0.fresh + 1) else old j) =
                λ j.
                  b.at.table j
                  ∙ table_over k k' j w0.fresh w1.fresh (old j) one
                  ∙ ap (λ (n : ℕ). if k == j then some n else old j) a.next in
              let (x, open', own_convid, from, over) = a.connection in
              let (y, open'', own_convid', from', over') = b.connection in
              let first_kept = b.rest_kept w0.fresh (λ e. omega (arith, e, a.next)) in
              record {
                slot = k;
                server = b.at.server;
                found = b.at.found;
                unlocked = b.at.lock_is;
                coherent = b.at.coherent;
                table = table';
                kept =
                    subst
                      (λ (p : ℕ).
                        (x : RatSession) × ((w'.heap p).session ≡ some x)
                        × (x.convid ≡ k)
                        × ((w'.heap p).src_address ≡ src'))
                      a.next (y, open'', own_convid' ∙ sym one, from');
                lost = (
                  x,
                  ap (λ (c : ServerConnection). c.session) first_kept ∙ open',
                  own_convid,
                  ap (λ (c : ServerConnection). c.src_address) first_kept ∙ from,
                );
                unlisted = λ j e. not_listed old k j w0.fresh below (sym (table' j) ∙ e);
              }

  -- Two calls of client_connect_server for the program's tunnel, whose id is not 0 and at most 65524,
  -- both past the limit and the freed mutex, of which each has chosen its slot before the other
  -- enters its connection: both return, with the mutex free and the table coherent. They chose the
  -- same convid; both made a connection with it and opened a session, the table has the second
  -- under that convid, and the first under none. The tunnel has its map, pointers to
  -- connections already made, and a circle; sessions open for every local port below 65536, and the
  -- interfaces of either name, when they can be listed, start with an IPv4 address.
  pub overlapped-Loses :
      (spawn_tun spawn_tun' : Bool)
      → ((n : ℕ) (ifas : List Interface)
          → out.interfaces n ≡ some ifas
          → (ip : Text) × (rest : List (Option Text)) × (ips_named ifname ifas ≡ some ip ∷ rest))
      → ((n : ℕ) (ifas : List Interface)
          → out.interfaces n ≡ some ifas
          → (ip : Text) × (rest : List (Option Text)) × (ips_named ifname' ifas ≡ some ip ∷ rest))
      → IsAt out own old w0 true false w0
      → Returns
          (λ _ w'. Loses out own old src src' w0 w')
          ((do
            c ← pick_slot out own ifname
            c' ← pick_slot out own ifname'
            fill_slot out own src ifname spawn_tun c
            fill_slot out own src' ifname' spawn_tun' c')
            w0)
  overlapped-Loses spawn_tun spawn_tun' answers answers' at =
      Returns-bind (pick_slot out own ifname) _ w0 (picked out w0 old ifname w0 small answers at)
        λ c v h.
          let (k, ip, m, is_c, is, same, at1) = h in
          Returns-bind (pick_slot out own ifname') _ v
            (picked out w0 old ifname' v small answers' at1)
            λ c' u h'.
              let (k', ip', m', is_c', is', same', at2) = h' in
              rw (is_c, is_c')
                (both_filled k k' ip ip' m m' spawn_tun spawn_tun' u is is' same same' at2)
