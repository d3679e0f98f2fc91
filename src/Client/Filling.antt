-- ===== src/Client/Filling.antt =====
-- The two pieces of client_connect_server behind the freed mutex: the slot that the first chooses,
-- and the connection that the second makes in it.
use ratbond.Client.Opening.{dial}
use mathlib.Core.Path.{subst}
use native.Mathlib.Decide.{dec_lt}
use ratbond.Outside.{Outside, Handles, connected}
use ratbond.Network.Wan.{get_wan_ip}
use ratbond.Network.Addresses.{ips_named}
use ratbond.Network.Interfaces.{Interface}
use ratbond.Client.Overlap.{pick_slot, fill_slot}
use ratbond.Client.Standing.{IsAt, lock-IsAt, unlock-IsAt}
use ratbond.Client.State.{entries, State, u32, ServerConnection, lock, unlock, RatSession}
use ratbond.Client.Completing.{silent-step, start_connection-IsAt}
use ratbond.Client.Slots.{IsSlot, open_slot-IsSlot}
use ratbond.Client.Staying.{get_wan_ip-Silently}
use ratbond.Client.Connect.{add_connection}
use ratbond.Client.Connecting.{with_new, added-Connects}
use ratbond.Base.{
  ℕ, ◌+◌, ◌^◌, ◌<◌, ◌≡◌, refl, sym, ap, ◌∙◌, ◌≢◌, Bool, true, false, Option, none, some, List, [],
  ◌∷◌, arith, ◌==◌, if◌then◌else◌, ==_iff, Text, Dict, lookup, ◌>>=◌, pure, Returns, returns,
  Returns-bind, Returns-weaken, Returns-same,
}

-- The slot depends on what is found in the map alone.
pub slot_unique :
    (m m' : Dict ℕ) (first last k k' : ℕ)
    → ((j : ℕ) → lookup j m ≡ lookup j m')
    → IsSlot m first last k
    → IsSlot m' first last k'
    → k ≡ k'
slot_unique m m' first last k k' same a b = elim (dec_lt k k') [
  | yes before ↦ absurd (b.taken k a.from before (sym (same k) ∙ a.open' (omega (arith, b.upto))))
  | no later ↦ elim (dec_lt k' k) [
    | yes after ↦ absurd (a.taken k' b.from after (same k' ∙ b.open' (omega (arith, a.upto))))
    | no here ↦ omega (arith, later, here)
  ]
]

-- From `w0`, whose entries were `old`, to `w'` a connection from `src` came under the convid `k`.
pub record Fills (out : Outside) (tid : ℕ) (old : ℕ → Option ℕ) (src ifname : Text) (k : ℕ)
    (w0 w' : State out) : Type 0 where
  pub at : IsAt out tid (λ j. if k == j then some w0.fresh else old j) w' true false w'
  pub next : w'.fresh ≡ w0.fresh + 1
  pub connection :
      (x : RatSession) × ((w'.heap w0.fresh).session ≡ some x)
      × (x.convid ≡ k)
      × ((w'.heap w0.fresh).src_address ≡ src)
      × ((w'.heap w0.fresh).ifname ≡ ifname)
  pub rest_kept : (q : ℕ) → q ≢ w0.fresh → w'.heap q ≡ w0.heap q
  pub others : (t : ℕ) → (t ≡ tid → ⊥) → lookup t w'.servers ≡ lookup t w0.servers

-- The state itself as the one to compare with.
based :
    (out : Outside) (tid : ℕ) (old : ℕ → Option ℕ) (v w : State out) (held : Bool)
    → IsAt out tid old v true held w
    → IsAt out tid old w true held w
based out tid old v w held at = record {
  server = at.server;
  found = at.found;
  lock_is = at.lock_is;
  table = at.table;
  coherent = at.coherent;
  paired = at.paired;
  map_made = at.map_made;
  heap_kept = refl;
  fresh_kept = refl;
  others = λ t ne. refl;
}

module _ (out : Outside) (w0 : State out) where
  abbrev tunnel : ℕ
  tunnel = out.options.tunnel_id

  -- What comes of the first piece.
  pub picked :
      (old : ℕ → Option ℕ) (ifname : Text) (w : State out)
      → tunnel + 11 < 2 ^ 16
      → ((n : ℕ) (ifas : List Interface)
          → out.interfaces n ≡ some ifas
          → (ip : Text) × (rest : List (Option Text)) × (ips_named ifname ifas ≡ some ip ∷ rest))
      → IsAt out tunnel old w0 true false w
      → Returns
          (λ c v.
            (k : ℕ) × (ip : Text) × (m : Dict ℕ) × (c ≡ some (k, ip))
            × IsSlot m tunnel (tunnel + 10) k
            × ((j : ℕ) → lookup j m ≡ old j)
            × IsAt out tunnel old w0 true false v)
          (pick_slot out tunnel ifname w)
  unfolding pick_slot
  picked old ifname w small answers at =
      let s = at.server in
      let (k, is_k, is, not_full, full) =
        open_slot-IsSlot (entries s) tunnel (omega (arith, small)) in
      Returns-same
        {o' = (do
          found ← get_wan_ip out ifname
          pure (some (k, elim found [ none ↦ [] | some ip ↦ ip ])))
          w}
        (ground (arith, at.found, is_k, not_full, ==_iff k (u32 (tunnel + 100))))
        (Returns-bind (get_wan_ip out ifname) _ w
          (silent-step out old w0 false (get_wan_ip out ifname) tunnel w
            (get_wan_ip-Silently out ifname answers) at)
          λ found v at1. returns (k, _, entries s, refl, is, at.table, at1))

  pub filled :
      (old : ℕ → Option ℕ) (src ifname ip : Text) (k : ℕ) (spawn_tun : Bool) (w : State out)
      → IsAt out tunnel old w0 true false w
      → ((j q : ℕ) → old j ≡ some q → q < w0.fresh)
      → 0 < k
      → k < 2 ^ 16
      → ((n port : ℕ) → port < 2 ^ 16 → (x : Handles) × (dial out src n port ≡ connected x))
      → Returns
          (λ _ w'. Fills out tunnel old src ifname k w0 w')
          (fill_slot out tunnel src ifname spawn_tun (some (k, ip)) w)
  unfolding fill_slot
  filled old src ifname ip k spawn_tun w at below pos small opens =
      Returns-bind (lock out tunnel) _ w (lock-IsAt out tunnel old w0 true w at) λ _ u at1.
        let (x, open') = opens (u.calls + 1 + 1 + 1) k small in
        Returns-bind (add_connection out tunnel k src ifname ip) _ u
          (added-Connects out old src ifname w0 k x ip u at1 below pos (omega (arith, small)) open')
          λ p w1 h.
            let (is_p, at2, others', conn, rest', next') = h in
            Returns-bind (unlock out tunnel) _ w1
              (unlock-IsAt out tunnel (with_new out old src ifname w0 k) w1 true true w1 at2)
              λ _ w2 at3.
                Returns-weaken
                  (start_connection-IsAt out (with_new out old src ifname w0 k) w1 p spawn_tun w2
                    at3)
                  λ _ w' at4. record {
                    at = based out tunnel (with_new out old src ifname w0 k) w1 w' false at4;
                    next = at4.fresh_kept ∙ next';
                    connection =
                        subst
                          (λ (h : ℕ → ServerConnection).
                            (y : RatSession) × ((h w0.fresh).session ≡ some y)
                            × (y.convid ≡ k)
                            × ((h w0.fresh).src_address ≡ src)
                            × ((h w0.fresh).ifname ≡ ifname))
                          (sym at4.heap_kept) conn;
                    rest_kept = λ q ne. ap (λ f. f q) at4.heap_kept ∙ rest' q ne;
                    others = λ t ne. at4.others t ne ∙ others' t ne;
                  }
