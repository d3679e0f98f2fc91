-- ===== src/Client/Sound/Losing.antt =====
-- The operations that take entries from the tables, or choose among them.
use ratbond.Outside.{Outside}
use ratbond.Client.Choose.{choose_next, choose}
use ratbond.Client.Disconnect.{disconnect_by_ifname, disconnect_by_src, disconnect_by_convid}
use ratbond.Client.Quiet.{IsQuiet}
use ratbond.Client.Invariant.{choose_next-Moves}
use ratbond.Client.State.{State}
use ratbond.Client.Sound.{
  Safe-same, none_held, Soundly, IsQuiet-refl, Quietly-Soundly, if-Soundly, moving-Soundly,
}
use ratbond.Client.Disconnected.{
  disconnect_by_convid-Moves, disconnect_by_src-Moves, disconnect_by_ifname-Moves,
  disconnect_unknown,
}
use ratbond.Client.Sound.Steps.{pure-Quietly, choose_hashed-Quietly}
use ratbond.Base.{
  ℕ, ◌≡◌, Option, none, some, List, [], arith, Text, lookup, nil_deref, done, fault, Returns-weaken,
}
use ratbond.Network.Netlink.{LinkUpdate, is_down, handle_link_update}

module _ (out : Outside) where
  pub disconnect_by_convid-Soundly :
      (tid d : ℕ) → Soundly out none_held none_held (disconnect_by_convid out tid d)
  disconnect_by_convid-Soundly tid d =
      moving-Soundly out tid (disconnect_by_convid out tid d)
        (λ w gone.
          Safe-same (λ _ v. IsQuiet out w v) _ (fault nil_deref w)
            (disconnect_unknown out tid [] d w gone).2 (λ e. cc e))
        λ s w found free c.
          Returns-weaken (disconnect_by_convid-Moves out tid s w d found free c) λ _ v m. (_, m)

  pub disconnect_by_src-Soundly :
      (tid : ℕ) (src : Text) → Soundly out none_held none_held (disconnect_by_src out tid src)
  disconnect_by_src-Soundly tid src =
      moving-Soundly out tid (disconnect_by_src out tid src)
        (λ w gone.
          Safe-same (λ _ v. IsQuiet out w v) _ (fault nil_deref w)
            (disconnect_unknown out tid src 0 w gone).1 (λ e. cc e))
        λ s w found free c.
          Returns-weaken (disconnect_by_src-Moves out tid s w src found free c) λ _ v m. (_, m)

  pub disconnect_by_ifname-Soundly :
      (tid : ℕ) (t : Text) → Soundly out none_held none_held (disconnect_by_ifname out tid t)
  disconnect_by_ifname-Soundly tid t =
      moving-Soundly out tid (disconnect_by_ifname out tid t)
        (λ w gone.
          Safe-same (λ _ v. IsQuiet out w v) _ (done tt w) (disconnect_unknown out tid t 0 w gone).0
            (IsQuiet-refl out w))
        λ s w found free c.
          Returns-weaken (disconnect_by_ifname-Moves out tid s w t found free c) λ _ v m. (_, m)

  pub handle_link_update-Soundly :
      (tid : ℕ) (u : LinkUpdate) → Soundly out none_held none_held (handle_link_update out tid u)
  unfolding handle_link_update
  handle_link_update-Soundly tid u =
      if-Soundly out none_held none_held (is_down u) _ _ (disconnect_by_ifname-Soundly tid u.name)
        (Quietly-Soundly out none_held _ (pure-Quietly out tt))

  choose_next-unknown :
      (tid : ℕ) (w : State out)
      → lookup tid w.servers ≡ none
      → choose_next out tid w ≡ fault nil_deref w
  unfolding choose_next
  choose_next-unknown tid w gone = ground arith

  choose_next-Soundly : (tid : ℕ) → Soundly out none_held none_held (choose_next out tid)
  choose_next-Soundly tid =
      moving-Soundly out tid (choose_next out tid)
        (λ w gone.
          Safe-same (λ _ v. IsQuiet out w v) _ (fault nil_deref w) (choose_next-unknown tid w gone)
            (λ e. cc e))
        λ s w found free c. Returns-weaken (choose_next-Moves out tid s w found c) λ _ v m. (_, m)

  pub choose-Soundly :
      (tid : ℕ) (packet : Option (List ℕ × ℕ))
      → Soundly out none_held none_held (choose out tid packet)
  unfolding choose
  choose-Soundly tid none = choose_next-Soundly tid
  choose-Soundly tid (some (packet, len)) =
      if-Soundly out none_held none_held out.options.use_consistent_hashing _ _
        (Quietly-Soundly out none_held _ (choose_hashed-Quietly out tid packet len))
        (choose_next-Soundly tid)
