-- ===== src/Client/Scheduler.antt =====
-- client_choose_kcp_conn: what both schedulers promise about a coherent table.
use mathlib.Core.Option.{some-injective}
use ratbond.Packet.Flow.{extract_src}
use ratbond.Base.{
  ℕ, ◌^◌, ◌<◌, ◌≡◌, refl, ap, ◌∙◌, ◌≢◌, ◌⊎◌, inl, inr, Bool, true, false, ◌&&◌, not, Option, none,
  some, List, [], ◌∷◌, arith, ◌==◌, Bool-cases, Option-cases, Elem, Text, decimal, atoi,
  atoi-decimal, Dict, lookup, keys, Elem-keys, keys-lookup, done, Returns, lookup-insert_self,
  List-cases, Returns-eq, Returns-same,
}
use ratbond.Outside.{Outside}
use ratbond.Packet.Flow.{extract_src}
use ratbond.Client.State.{entries, State, Server, u32}
use ratbond.Client.Choose.{choose_hashed, choose, choose_hashed, round_robin}
use ratbond.Client.Invariant.{IsCoherent, choose_next-some, choose_next-empty, next_choice, names}

module _ (alive : ℕ → Bool) (m : Dict ℕ) (last : ℕ) where
  round_robin-skip :
      (c k : ℕ) (ks : List ℕ)
      → lookup k m ≡ none
      → round_robin alive m last c (k ∷ ks) ≡ round_robin alive m last c ks
  unfolding round_robin
  round_robin-skip c k ks e = ground arith

  round_robin-take :
      (c k p : ℕ) (ks : List ℕ)
      → lookup k m ≡ some p
      → (not (k == last) && alive p) ≡ true
      → round_robin alive m last c (k ∷ ks) ≡ k
  unfolding round_robin
  round_robin-take c k p ks e t = ground arith

  round_robin-pass :
      (c k p : ℕ) (ks : List ℕ)
      → lookup k m ≡ some p
      → (not (k == last) && alive p) ≡ false
      → round_robin alive m last c (k ∷ ks) ≡ round_robin alive m last k ks
  unfolding round_robin
  round_robin-pass c k p ks e t = ground arith

  -- If the fall back is in the map, or a visited key is, then so is the choice.
  abbrev pub Reaches : ℕ → List ℕ → Type 0
  Reaches c ks =
      ((p : ℕ) × (lookup c m ≡ some p)) ⊎ ((j : ℕ) × (q : ℕ) × Elem j ks × (lookup j m ≡ some q))

  Reaches-skip : (c k : ℕ) (ks : List ℕ) → lookup k m ≡ none → Reaches c (k ∷ ks) → Reaches c ks
  Reaches-skip c k ks g (inl x) = inl x
  Reaches-skip c k ks g (inr (j, q, inl e, l)) = cc (ap (λ (i : ℕ). lookup i m) e)
  Reaches-skip c k ks g (inr (j, q, inr e, l)) = inr (j, q, e, l)

  pub round_robin-known :
      (c : ℕ) (ks : List ℕ)
      → Reaches c ks
      → (p : ℕ) × (lookup (round_robin alive m last c ks) m ≡ some p)
  unfolding round_robin
  round_robin-known c [] (inl x) = x
  round_robin-known c [] (inr (j, q, e, l)) = absurd e
  round_robin-known c (k ∷ ks) x = elim (Option-cases (lookup k m)) [
    | inl gone ↦
        let (p, e) = round_robin-known c ks (Reaches-skip c k ks gone x) in
        (p, ap (λ (i : ℕ). lookup i m) (round_robin-skip c k ks gone) ∙ e)
    | inr (p, here) ↦ elim (Bool-cases (not (k == last) && alive p)) [
      | inl takes ↦ (p, ap (λ (i : ℕ). lookup i m) (round_robin-take c k p ks here takes) ∙ here)
      | inr passes ↦
          let (q, e) = round_robin-known k ks (inl (p, here)) in
          (q, ap (λ (i : ℕ). lookup i m) (round_robin-pass c k p ks here passes) ∙ e)
    ]
  ]

  -- A visited connection that is alive and not the last one keeps the last one from being chosen.
  pub round_robin-other :
      (c j q : ℕ) (ks : List ℕ)
      → Elem j ks
      → lookup j m ≡ some q
      → alive q ≡ true
      → j ≢ last
      → round_robin alive m last c ks ≢ last
  round_robin-other c j q [] e l a ne = absurd e
  round_robin-other c j q (k ∷ ks) (inl e) l a ne =
      ground (arith, round_robin-take c k q ks, ap (λ (i : ℕ). lookup i m) e)
  round_robin-other c j q (k ∷ ks) (inr e) l a ne = elim (Option-cases (lookup k m)) [
    | inl gone ↦ rw (round_robin-skip c k ks gone) (round_robin-other c j q ks e l a ne)
    | inr (p, here) ↦ elim (Bool-cases (not (k == last) && alive p)) [
      | inl takes ↦ rw (round_robin-take c k p ks here takes) (ground arith)
      | inr passes ↦
          rw (round_robin-pass c k p ks here passes) (round_robin-other k j q ks e l a ne)
    ]
  ]

module _ (out : Outside) (tid : ℕ) (s : Server out) (w : State out) where
  open out use {options, circle_get, parse_header}

  -- What the scheduler promises: an error from an empty table alone, and otherwise the convid of
  -- an entry.
  abbrev pub Chooses : Option ℕ → Type 0
  Chooses none = (j : ℕ) → lookup j (entries s) ≡ none
  Chooses (some k) = (p : ℕ) × (lookup k (entries s) ≡ some p)

  -- The round robin over a coherent table fails on the empty table alone. Otherwise it chooses the
  -- convid of an entry, notes it as the last one, and does not choose the last one again while there
  -- is another entry.
  pub choose_round_robin :
      lookup tid w.servers ≡ some s
      → IsCoherent out w.heap s
      → Returns
          (λ r w'.
            Chooses r
            × ((k : ℕ)
                → r ≡ some k
                → (lookup tid w'.servers ≡ some (record s { last_convid = k }))
                  × ((j q : ℕ)
                      → lookup j (entries s) ≡ some q
                      → j ≢ s.last_convid
                      → k ≢ s.last_convid)))
          (choose out tid none w)
  unfolding choose
  choose_round_robin e c = elim (List-cases (entries s)) [
    | inl empty ↦
        Returns-eq none w (choose_next-empty out tid s w e empty)
          (λ j. rw empty (unfold lookup in refl), λ k r. cc)
    | inr (x, xs, some_left) ↦
        let chosen : ℕ = next_choice out s w in
        let first : Elem x.0 (keys (entries s)) = rw some_left (inl refl) in
        let (q, there) = keys-lookup x.0 (entries s) first in
        Returns-eq (some chosen) _ (choose_next-some out tid s w x xs e some_left) (
          round_robin-known (λ p. (w.heap p).alive) (entries s) s.last_convid 0 _
              (inr (x.0, q, (out.range-Elem w.calls _ x.0).1 first, there)),
          λ k r.
              let same : chosen ≡ k = some-injective _ _ r in
              (
                lookup-insert_self tid _ w.servers
                    ∙ ap (λ (x : ℕ). some (record s { last_convid = x })) same,
                λ j q l ne last.
                    round_robin-other (λ p. (w.heap p).alive) (entries s) s.last_convid 0 j q _
                      ((out.range-Elem w.calls _ j).1 (Elem-keys j q (entries s) l)) l
                      (c.known j q l).1 ne (same ∙ last),
              ),
        )
  ]

  owner-Chooses :
      IsCoherent out w.heap s
      → (t : Text) → Elem t (names out s.consistent)
      → (k : ℕ) × (p : ℕ) × (lookup k (entries s) ≡ some p) × (atoi t ≡ some k) × (u32 k ≡ k)
  owner-Chooses c t on =
      let (k, p, e, there) = c.named t on in
      let small : k < 2 ^ 32 = (c.known k p there).2 in
      (k, p, there, rw e (atoi-decimal k), omega arith)

  no_entry :
      IsCoherent out w.heap s
      → (circle : out.Circle) → s.consistent ≡ some circle
      → (key : Text) → circle_get key circle ≡ none
      → (j : ℕ) → lookup j (entries s) ≡ none
  no_entry c circle ec key fails j = elim (Option-cases (lookup j (entries s))) [
    | inl gone ↦ gone
    | inr (p, there) ↦
        absurd (out.get_fails key (decimal j) circle fails (rw ec at (c.placed j p there)))
  ]

  choose_hashed-eq :
      (key : Text) (circle : out.Circle) (packet : List ℕ) (len : ℕ)
      → lookup tid w.servers ≡ some s
      → s.consistent ≡ some circle
      → extract_src parse_header packet len ≡ some key
      → (circle_get key circle ≡ none → choose_hashed out tid packet len w ≡ done none w)
        × ((t : Text) (k : ℕ)
            → circle_get key circle ≡ some t
            → atoi t ≡ some k
            → choose_hashed out tid packet len w ≡ done (some (u32 k)) w)
  unfolding choose_hashed
  choose_hashed-eq key circle packet len e ec ek =
      (λ none'. ground arith, λ t k got number. ground arith)

  -- Consistent hashing, for a packet with a flow key and a coherent table with a circle, changes
  -- nothing; it
  -- fails on the empty table alone, and otherwise chooses the convid of an entry.
  pub choose_consistent :
      (key : Text) (circle : out.Circle) (packet : List ℕ) (len : ℕ)
      → lookup tid w.servers ≡ some s
      → IsCoherent out w.heap s
      → s.consistent ≡ some circle
      → extract_src parse_header packet len ≡ some key
      → options.use_consistent_hashing ≡ true
      → Returns (λ r w'. Chooses r × (w' ≡ w)) (choose out tid (some (packet, len)) w)
  unfolding choose
  choose_consistent key circle packet len e c ec ek on =
      let (fails, finds) = choose_hashed-eq key circle packet len e ec ek in
      Returns-same {o' = choose_hashed out tid packet len w} (ground arith)
        (elim (Option-cases (circle_get key circle)) [
          | inl none' ↦
              Returns-eq none w (fails none') (λ j. no_entry c circle ec key none' j, refl)
          | inr (t, got) ↦
              let (k, p, there, number, small) =
                owner-Chooses c t (rw ec (out.members-get key t circle got)) in
              Returns-eq (some k) w (finds t k got number ∙ ap (λ (x : ℕ). done (some x) w) small)
                ((p, there), refl)
        ])
