-- ===== src/Client/Refines.antt =====
-- The client's table as a map from convids to links, and the operations as filters of it.
use ratbond.Client.Choose.{choose}
use ratbond.Client.Disconnected.{
  disconnect_by_convid-Moves, disconnect_by_src-Moves, disconnect_by_ifname-Moves,
}
use mathlib.Core.Option
use ratbond.Base.{
  ℕ, ◌≡◌, refl, ap, ◌∙◌, inl, inr, Bool, true, false, ◌&&◌, Option, none, some, List, [], ◌∷◌, ◌==◌,
  if◌then◌else◌, Option-cases, Text, text_eq, lookup, Returns, returns, Returns-bind,
  Returns-weaken,
}
use ratbond.Outside.{Outside}
use ratbond.Client.State.{State, Server, entries, ServerConnection}
use ratbond.Client.Histories.{
  Event, loses_convid, loses_src, loses_ifname, reports, chooses, run_event, choose-Moves,
  run_events,
}
use ratbond.Client.Invariant.{IsCoherent, Moves, Same}
use ratbond.Network.Netlink.{is_down}
use ratbond.Network.Links.{handle_link_update-Moves}

-- A link: the source address and the interface of a connection.
abbrev pub Link : Type 0
Link = Text × Text

-- Whether an event ends the link under a convid.
unfoldable pub ends : Event → ℕ → Link → Bool
ends (loses_convid d) k link = k == d
ends (loses_src t) k link = text_eq link.0 t
ends (loses_ifname t) k link = text_eq link.1 t
ends (reports u) k link = is_down u && text_eq link.1 u.name
ends chooses k link = false

-- What is promised: the links that no event of the list ends.
unfoldable pub remaining : List Event → ℕ → Option Link → Option Link
unfolding ends
remaining [] k link = link
remaining es k none = none
remaining (e ∷ es) k (some link) = if ends e k link then none else remaining es k (some link)

module _ (out : Outside) (tid : ℕ) where
  abbrev link_of : (ℕ → ServerConnection) → ℕ → Link
  link_of h p = ((h p).src_address, (h p).ifname)

  -- The link under a convid.
  abbrev pub link_at : Server out → State out → ℕ → Option Link
  link_at s w k = Option.map (link_of w.heap) (lookup k (entries s))

  -- Exactly the links that the event ends have left the table.
  abbrev Follows : Event → Server out → State out → State out → Type 0
  Follows e s w w' =
      (gone : ℕ → Bool) × Moves out tid gone s w w'
      × ((k p : ℕ)
          → lookup k (entries s) ≡ some p
          → gone k ≡ ends e k ((w.heap p).src_address, (w.heap p).ifname))

  run_event-Follows :
      (e : Event) (s : Server out) (w : State out)
      → lookup tid w.servers ≡ some s
      → s.locked ≡ false
      → IsCoherent out w.heap s
      → Returns (λ _ w'. Follows e s w w') (run_event out tid e w)
  unfolding run_event ends
  run_event-Follows (loses_convid d) s w found free c =
      Returns-weaken (disconnect_by_convid-Moves out tid s w d found free c)
        λ _ w' m. (_, m, λ k p here. refl)
  run_event-Follows (loses_src t) s w found free c =
      Returns-weaken (disconnect_by_src-Moves out tid s w t found free c)
        λ _ w' m. (_, m, λ k p here. rw here refl)
  run_event-Follows (loses_ifname t) s w found free c =
      Returns-weaken (disconnect_by_ifname-Moves out tid s w t found free c)
        λ _ w' m. (_, m, λ k p here. rw here refl)
  run_event-Follows (reports u) s w found free c =
      Returns-weaken (handle_link_update-Moves out tid u s w found free c)
        λ _ w' m. (_, m, λ k p here. rw here refl)
  run_event-Follows chooses s w found free c =
      Returns-bind (choose out tid none) _ w (choose-Moves out tid s w found c)
        λ _ w' m. returns (_, m, λ k p here. refl)

  remaining-none : (es : List Event) (k : ℕ) → remaining es k none ≡ none
  unfolding remaining
  remaining-none [] k = refl
  remaining-none (e ∷ es) k = refl

  link_kept : (h h' : ℕ → ServerConnection) (p : ℕ) → Same (h p) (h' p) → link_of h' p ≡ link_of h p
  link_kept h h' p q = rw (q.src_kept, q.ifname_kept) refl

  dropped :
      (g : Bool) (e : Event) (es : List Event) (k p : ℕ) (h h' : ℕ → ServerConnection)
      → ((q : ℕ) → Same (h q) (h' q))
      → g ≡ ends e k (link_of h p)
      → remaining es k (Option.map (link_of h') (if g then none else some p))
        ≡ remaining (e ∷ es) k (some (link_of h p))
  unfolding remaining
  dropped true e es k p h h' same goes = rw⁻¹ goes (remaining-none es k)
  dropped false e es k p h h' same stays =
      rw⁻¹ stays (ap (λ l. remaining es k (some l)) (link_kept h h' p (same p)))

  absent :
      (g : Bool) (es : List Event) (k : ℕ) (h : ℕ → ServerConnection)
      → remaining es k (Option.map (link_of h) (if g then none else none)) ≡ none
  absent true es k h = remaining-none es k
  absent false es k h = remaining-none es k

  -- One event at the front of the list.
  link-step :
      (gone : ℕ → Bool) (e : Event) (es : List Event) (k : ℕ) (s : Server out) (w v : State out)
      → (m : Moves out tid gone s w v)
      → ((p : ℕ) → lookup k (entries s) ≡ some p → gone k ≡ ends e k (link_of w.heap p))
      → remaining es k (link_at m.server v k) ≡ remaining (e ∷ es) k (link_at s w k)
  unfolding remaining
  link-step gone e es k s w v m exact = elim (Option-cases (lookup k (entries s))) [
    | inl empty ↦ rw (m.table k, empty) (absent (gone k) es k v.heap)
    | inr (p, here) ↦
        rw (m.table k, here) (dropped (gone k) e es k p w.heap v.heap m.same (exact p here))
  ]

-- On a tunnel that exists, is coherent and whose mutex is free, any events in any order refine the
-- map of links: they return, and the table then has under each convid the link that was there,
-- unless one of the events ends it: a disconnection by its convid, its source address or its
-- interface, or the report that its interface, which is no tun device, is down. A choice ends
-- none. The table is coherent and the mutex free.
pub run_events-Refines :
    (out : Outside) (tid : ℕ) (es : List Event) (s : Server out) (w : State out)
    → lookup tid w.servers ≡ some s
    → s.locked ≡ false
    → IsCoherent out w.heap s
    → Returns
        (λ _ w'.
          (s' : Server out) × (lookup tid w'.servers ≡ some s')
          × (s'.locked ≡ false)
          × IsCoherent out w'.heap s'
          × ((k : ℕ) → link_at out tid s' w' k ≡ remaining es k (link_at out tid s w k)))
        (run_events out tid es w)
unfolding run_events remaining
run_events-Refines out tid [] s w found free c = returns (s, found, free, c, λ k. refl)
run_events-Refines out tid (e ∷ es) s w found free c =
    Returns-bind (run_event out tid e) _ w (run_event-Follows out tid e s w found free c) λ _ v h.
      let (gone, m, exact) = h in
      Returns-weaken
        (run_events-Refines out tid es m.server v m.found (m.lock_kept ∙ free) m.coherent)
        λ _ u n.
          let (t, there, open', good, links) = n in
          (t, there, open', good, λ k. links k ∙ link-step out tid gone e es k s w v m (exact k))
