-- ===== src/Client/Connecting.antt =====
-- client_connect_server as a whole: a route that comes up ends in an entry of the table.
use ratbond.Client.Opening.{dial}
use mathlib.Core.Path.{subst}
use ratbond.Base.{
  ℕ, ◌+◌, ◌^◌, ◌≤◌, ◌<◌, ◌≡◌, refl, sym, ap, ◌∙◌, ◌≢◌, true, false, Option, none, some, arith, ◌==◌,
  if◌then◌else◌, ==_iff, Text, Dict, lookup, insert, lookup-insert, Returns, Returns-eq,
}
use ratbond.Outside.{Outside, Handles, connected}
use ratbond.Client.State.{State, Server, ServerConnection, RatSession, entries, update}
use ratbond.Client.Connect.{add_connection}
use ratbond.Client.Invariant.{IsCoherent}
use ratbond.Client.Adding.{added, added-IsCoherent, add_connection-eq, entries_are}
use ratbond.Client.Standing.{IsAt}

-- From `w0` to `w'` the tunnel at `tid`, whose entries were `old`, got a connection from `src` over
-- `ifname` in the first slot that was free.
pub record Connects (out : Outside) (tid : ℕ) (old : ℕ → Option ℕ) (src ifname : Text)
    (w0 w' : State out) : Type 0 where
  pub slot : ℕ
  pub is_slot : (tid ≤ slot) × (slot ≤ tid + 11)
  pub free : slot ≤ tid + 10 → old slot ≡ none
  pub lower_taken : (j : ℕ) → tid ≤ j → j < slot → old j ≢ none
  pub server : Server out
  pub found : lookup tid w'.servers ≡ some server
  pub unlocked : server.locked ≡ false
  pub coherent : IsCoherent out w'.heap server
  pub table : (j : ℕ) → lookup j (entries server) ≡ (if slot == j then some w0.fresh else old j)
  pub others : (t : ℕ) → (t ≡ tid → ⊥) → lookup t w'.servers ≡ lookup t w0.servers
  pub connection :
      (x : RatSession) × ((w'.heap w0.fresh).session ≡ some x)
      × (x.convid ≡ slot)
      × ((w'.heap w0.fresh).src_address ≡ src)
      × ((w'.heap w0.fresh).ifname ≡ ifname)
  pub rest_kept : (q : ℕ) → q ≢ w0.fresh → w'.heap q ≡ w0.heap q

heap_at :
    (h h' : ℕ → ServerConnection) (p q : ℕ) (conn : ServerConnection)
    → h' ≡ update h p conn
    → p ≡ q
    → h' q ≡ conn
unfolding update
heap_at h h' p q conn e same = ap (λ f. f q) e ∙ rw same (ground (arith, ==_iff q q))

heap_off :
    (h h' : ℕ → ServerConnection) (p q : ℕ) (conn : ServerConnection)
    → h' ≡ update h p conn
    → q ≢ p
    → h' q ≡ h q
unfolding update
heap_off h h' p q conn e other = ap (λ f. f q) e ∙ ground (arith, ==_iff p q)

table_new :
    (k j p new : ℕ) (d : Dict ℕ) (o : Option ℕ)
    → p ≡ new
    → lookup j d ≡ o
    → lookup j (insert k p d) ≡ (if k == j then some new else o)
table_new k j p new d o same there = ground (arith, lookup-insert k j p d)

module _ (out : Outside) (old : ℕ → Option ℕ) (src ifname : Text) (w0 : State out) where
  abbrev tid : ℕ
  tid = out.options.tunnel_id

  abbrev pub with_new : ℕ → ℕ → Option ℕ
  with_new k j = if k == j then some w0.fresh else old j

  -- The entry has been made under the mutex; the table is known from there on.
  pub added-Connects :
      (k : ℕ) (x : Handles) (ip : Text) (w : State out)
      → IsAt out tid old w0 true true w
      → ((j q : ℕ) → old j ≡ some q → q < w0.fresh)
      → 0 < k
      → k < 2 ^ 32
      → dial out src (w.calls + 1 + 1 + 1) k ≡ connected x
      → Returns
          (λ p w1.
            (p ≡ w0.fresh)
            × IsAt out tid (with_new k) w1 true true w1
            × ((t : ℕ) → (t ≡ tid → ⊥) → lookup t w1.servers ≡ lookup t w0.servers)
            × ((y : RatSession) × ((w1.heap w0.fresh).session ≡ some y)
                × (y.convid ≡ k)
                × ((w1.heap w0.fresh).src_address ≡ src)
                × ((w1.heap w0.fresh).ifname ≡ ifname))
            × ((q : ℕ) → q ≢ w0.fresh → w1.heap q ≡ w0.heap q)
            × (w1.fresh ≡ w0.fresh + 1))
          (add_connection out tid k src ifname ip w)
  unfolding update
  added-Connects k x ip w at below pos small opens =
      let s = at.server in
      let (d, there) = at.map_made refl in
      let (c, circle) = at.paired d there in
      let (w', conn, runs', heap', own, live, session', found', others', from_src, by_if, next') =
        add_connection-eq out tid k src ifname ip s d c x w at.found (entries_are _ s d there)
          circle pos opens in
      let in_map : (j : ℕ) → lookup j d ≡ old j =
        λ j. ap (lookup j) (sym (entries_are _ s d there)) ∙ at.table j in
      let here = heap_at w.heap w'.heap w.fresh w0.fresh conn heap' at.fresh_kept in
      Returns-eq w.fresh w' runs' (
        at.fresh_kept,
        record {
          server = added out k w.fresh s d c;
          found = found';
          lock_is = at.lock_is;
          table = λ j. table_new k j w.fresh w0.fresh d (old j) at.fresh_kept (in_map j);
          coherent =
              subst (λ h. IsCoherent out h (added out k w.fresh s d c)) (sym heap')
                (added-IsCoherent out k w.fresh s d c w.heap conn (entries_are _ s d there) circle
                  at.coherent
                  (λ j q e same. omega (arith, below j q (sym (in_map j) ∙ e), same, at.fresh_kept))
                  own live small pos);
          paired = λ e l. (_, refl);
          map_made = λ e. (_, refl);
          heap_kept = refl;
          fresh_kept = refl;
          others = λ u ne. refl;
        },
        (λ t ne. others' t ne ∙ at.others t ne),
        (
          _,
          ap (λ (c : ServerConnection). c.session) here ∙ session',
          refl,
          ap (λ (c : ServerConnection). c.src_address) here ∙ from_src,
          ap (λ (c : ServerConnection). c.ifname) here ∙ by_if,
        ),
        (λ q ne.
            heap_off w.heap w'.heap w.fresh q conn heap' (λ e. ne (e ∙ at.fresh_kept))
            ∙ ap (λ f. f q) at.heap_kept),
        next' ∙ ap (λ (n : ℕ). n + 1) at.fresh_kept,
      )
