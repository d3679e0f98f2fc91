-- ===== src/Client/Connected.antt =====
-- client_connect_server as a whole: a route that comes up ends in an entry of the table.
use ratbond.Client.Opening.{dial}
use mathlib.Core.Path.{subst}
use ratbond.Base.{
  ℕ, ◌+◌, ◌^◌, ◌<◌, ◌≡◌, sym, ap, ◌∙◌, Bool, true, false, Option, none, some, List, [], ◌∷◌, arith,
  ==_iff, Text, Dict, lookup, ◌>>=◌, ◌>>◌, Returns, Returns-bind, Returns-weaken, Returns-same,
}
use ratbond.Outside.{Outside, Handles, connected}
use ratbond.Client.State.{State, ServerConnection, RatSession, entries, lock, unlock, u32}
use ratbond.Client.Connect.{connect_slot, start_connection, add_connection}
use ratbond.Client.Slots.{IsSlot, open_slot-IsSlot}
use ratbond.Client.Staying.{get_wan_ip-Silently}
use ratbond.Client.Standing.{IsAt, lock-IsAt, unlock-IsAt}
use ratbond.Client.Completing.{start_connection-IsAt, silent-step}
use ratbond.Client.Connecting.{Connects, added-Connects, with_new}
use ratbond.Network.Addresses.{ips_named}
use ratbond.Network.Interfaces.{Interface}
use ratbond.Network.Wan.{get_wan_ip}

module _ (out : Outside) (old : ℕ → Option ℕ) (src ifname : Text) (w0 : State out) where
  abbrev tid : ℕ
  tid = out.options.tunnel_id

  -- From the slot on.
  at_slot-Connects :
      (m : Dict ℕ) (k : ℕ) (spawn_tun : Bool) (w : State out)
      → ((j : ℕ) → lookup j m ≡ old j)
      → IsSlot m tid (tid + 10) k
      → 0 < tid
      → tid + 11 < 2 ^ 16
      → ((n port : ℕ) → port < 2 ^ 16 → (x : Handles) × (dial out src n port ≡ connected x))
      → ((n : ℕ) (ifas : List Interface)
          → out.interfaces n ≡ some ifas
          → (ip : Text) × (rest : List (Option Text)) × (ips_named ifname ifas ≡ some ip ∷ rest))
      → ((j q : ℕ) → old j ≡ some q → q < w0.fresh)
      → IsAt out tid old w0 true false w
      → Returns
          (λ _ w'. Connects out tid old src ifname w0 w')
          ((do
            found ← get_wan_ip out ifname
            lock out tid
            p ← add_connection out tid k src ifname (elim found [ none ↦ [] | some ip ↦ ip ])
            unlock out tid
            start_connection out tid p spawn_tun)
            w)
  at_slot-Connects m k spawn_tun w same is pos small opens answers below at =
      Returns-bind (get_wan_ip out ifname) _ w
        (silent-step out old w0 false (get_wan_ip out ifname) tid w
          (get_wan_ip-Silently out ifname answers) at)
        λ found v at1.
          Returns-bind (lock out tid) _ v (lock-IsAt out tid old w0 true v at1) λ _ u at2.
            let (x, open') = opens (u.calls + 1 + 1 + 1) k (omega (arith, is.upto, small)) in
            Returns-bind
              (add_connection out tid k src ifname (elim found [ none ↦ [] | some ip ↦ ip ])) _ u
              (added-Connects out old src ifname w0 k x (elim found [ none ↦ [] | some ip ↦ ip ]) u
                at2 below (omega (arith, is.from, pos)) (omega (arith, is.upto, small)) open')
              λ p w1 h.
                let (is_p, at3, others', conn, rest', next') = h in
                Returns-bind (unlock out tid) _ w1
                  (unlock-IsAt out tid (with_new out old src ifname w0 k) w1 true true w1 at3)
                  λ _ w2 at4.
                    Returns-weaken
                      (start_connection-IsAt out (with_new out old src ifname w0 k) w1 p spawn_tun
                        w2 at4)
                      λ _ w' at5. record {
                        slot = k;
                        is_slot = (is.from, omega (arith, is.upto));
                        free = λ low. sym (same k) ∙ is.open' low;
                        lower_taken = λ j from lt e. is.taken j from lt (same j ∙ e);
                        server = at5.server;
                        found = at5.found;
                        unlocked = at5.lock_is;
                        coherent = at5.coherent;
                        table = at5.table;
                        others = λ t ne. at5.others t ne ∙ others' t ne;
                        connection =
                            subst
                              (λ (h : ℕ → ServerConnection).
                                (y : RatSession) × ((h w0.fresh).session ≡ some y)
                                × (y.convid ≡ k)
                                × ((h w0.fresh).src_address ≡ src)
                                × ((h w0.fresh).ifname ≡ ifname))
                              (sym at5.heap_kept) conn;
                        rest_kept = λ q ne. ap (λ f. f q) at5.heap_kept ∙ rest' q ne;
                      }

  pub connect_slot-Connects :
      (spawn_tun : Bool) (w : State out)
      → 0 < tid
      → tid + 11 < 2 ^ 16
      → ((n port : ℕ) → port < 2 ^ 16 → (x : Handles) × (dial out src n port ≡ connected x))
      → ((n : ℕ) (ifas : List Interface)
          → out.interfaces n ≡ some ifas
          → (ip : Text) × (rest : List (Option Text)) × (ips_named ifname ifas ≡ some ip ∷ rest))
      → ((j q : ℕ) → old j ≡ some q → q < w0.fresh)
      → IsAt out tid old w0 true false w
      → Returns
          (λ _ w'. Connects out tid old src ifname w0 w')
          (connect_slot out tid src ifname spawn_tun w)
  unfolding connect_slot
  connect_slot-Connects spawn_tun w pos small opens answers below at =
      let s = at.server in
      let (k, is_k, is, not_full, full) = open_slot-IsSlot (entries s) tid (omega (arith, small)) in
      Returns-same
        {o' = (do
          found ← get_wan_ip out ifname
          lock out tid
          p ← add_connection out tid k src ifname (elim found [ none ↦ [] | some ip ↦ ip ])
          unlock out tid
          start_connection out tid p spawn_tun)
          w}
        (ground (arith, at.found, is_k, not_full, ==_iff k (u32 (tid + 100))))
        (at_slot-Connects (entries s) k spawn_tun w at.table is pos small opens answers below at)
