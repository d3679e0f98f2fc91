-- ===== src/Print/Order.antt =====
-- The texts of printServer and printClient do not depend on the order in which a map is visited.
use mathlib.Core.Logic.{∥∥₁_elim}
use mathlib.Core.List.{Perm, Permᴰ}
use ratbond.Base.{
  ℕ, ◌+◌, ◌≤◌, ◌≡◌, refl, ap, ◌∙◌, ◌↔◌, ◌⊎◌, inl, inr, Bool, true, false, List, [], ◌∷◌, ◌++◌,
  arith, leb, if◌then◌else◌, leb→le, Bool-cases, length, Elem, Text, codes, Returns, returns,
  Returns-bind,
}
use ratbond.Outside.{Outside}
use ratbond.Print.Pieces.{
  pieces_text, piece_keys, IsMade, AreKnown, print_server_entries-IsMade, AreOpen,
  print_client_entries-IsMade,
}
use ratbond.Print.Format.{Formats, insert_sorted, sort_ints, print_head}
use ratbond.Print.Servers.{print_server_in, print_server_entries}
use ratbond.Print.Clients.{print_client_in, print_client_entries}
use ratbond.Client.State.{State, Server, entries}
use ratbond.Server.State.{Served, Client, client_entries}

insert_sorted-swap :
    (a b : ℕ) (l : List ℕ)
    → insert_sorted a (insert_sorted b l) ≡ insert_sorted b (insert_sorted a l)
unfolding insert_sorted
insert_sorted-swap a b [] = ground arith
insert_sorted-swap a b (x ∷ xs) = ground (arith, insert_sorted-swap a b xs)

sort_ints-Permᴰ : {ks js : List ℕ} → Permᴰ ks js → sort_ints ks ≡ sort_ints js
unfolding sort_ints
sort_ints-Permᴰ Permᴰ.nil = refl
sort_ints-Permᴰ (Permᴰ.cons {b = b} {l₁ = l} e p) =
    ap (λ k. insert_sorted k (sort_ints l)) e ∙ ap (insert_sorted b) (sort_ints-Permᴰ p)
sort_ints-Permᴰ (Permᴰ.swap {a = a} {b = b} {l = l} e e') =
    rw (e, e') (insert_sorted-swap _ _ (sort_ints l))
sort_ints-Permᴰ (Permᴰ.trans p q) = sort_ints-Permᴰ p ∙ sort_ints-Permᴰ q

sort_ints-Perm : (ks js : List ℕ) → Perm ks js → sort_ints ks ≡ sort_ints js
sort_ints-Perm ks js p = ∥∥₁_elim p (hlevel) (λ d. sort_ints-Permᴰ d)

-- Every key is at most those behind it.
abbrev pub Rises : List ℕ → Type 0
Rises [] = Unit {0}
Rises (k ∷ ks) = ((j : ℕ) → Elem j ks → k ≤ j) × Rises ks

either :
    (b : Bool) (k j x : ℕ) (xs rest : List ℕ)
    → (Elem j rest → (j ≡ k) ⊎ Elem j xs)
    → Elem j (if b then k ∷ (x ∷ xs) else x ∷ rest)
    → (j ≡ k) ⊎ Elem j (x ∷ xs)
either true k j x xs rest ih h = h
either false k j x xs rest ih (inl e) = inr (inl e)
either false k j x xs rest ih (inr h) = elim (ih h) [ inl e ↦ inl e | inr e ↦ inr (inr e) ]

insert_sorted-Elem : (k j : ℕ) (l : List ℕ) → Elem j (insert_sorted k l) → (j ≡ k) ⊎ Elem j l
unfolding insert_sorted
insert_sorted-Elem k j [] h = h
insert_sorted-Elem k j (x ∷ xs) h =
    either (leb k x) k j x xs (insert_sorted k xs) (insert_sorted-Elem k j xs) h

insert_sorted-Rises : (k : ℕ) (l : List ℕ) → Rises l → Rises (insert_sorted k l)
unfolding insert_sorted
insert_sorted-Rises k [] h = ((λ j e. absurd e), tt)
insert_sorted-Rises k (x ∷ xs) h = elim (Bool-cases (leb k x)) [
  | inl small ↦ rw small (
    (λ j e. elim e [
      | inl same ↦ omega (arith, leb→le k x small, same)
      | inr behind ↦ omega (arith, leb→le k x small, h.0 j behind)
    ]),
    h,
  )
  | inr large ↦ rw large (
    (λ j e. elim (insert_sorted-Elem k j xs e) [
      | inl same ↦ ground (arith, large, same)
      | inr behind ↦ h.0 j behind
    ]),
    insert_sorted-Rises k xs h.1,
  )
]

sort_ints-Rises : (ks : List ℕ) → Rises (sort_ints ks)
unfolding sort_ints
sort_ints-Rises [] = tt
sort_ints-Rises (k ∷ ks) = insert_sorted-Rises k (sort_ints ks) (sort_ints-Rises ks)

has_either :
    (b : Bool) (k j x : ℕ) (xs rest : List ℕ)
    → (((j ≡ k) ⊎ Elem j xs) → Elem j rest)
    → (j ≡ k) ⊎ Elem j (x ∷ xs)
    → Elem j (if b then k ∷ (x ∷ xs) else x ∷ rest)
has_either true k j x xs rest ih h = h
has_either false k j x xs rest ih (inl e) = inr (ih (inl e))
has_either false k j x xs rest ih (inr (inl e)) = inl e
has_either false k j x xs rest ih (inr (inr h)) = inr (ih (inr h))

insert_sorted-has : (k j : ℕ) (l : List ℕ) → (j ≡ k) ⊎ Elem j l → Elem j (insert_sorted k l)
unfolding insert_sorted
insert_sorted-has k j [] h = h
insert_sorted-has k j (x ∷ xs) h =
    has_either (leb k x) k j x xs (insert_sorted k xs) (insert_sorted-has k j xs) h

sort_ints-Elem : (j : ℕ) (ks : List ℕ) → Elem j (sort_ints ks) ↔ Elem j ks
unfolding sort_ints
sort_ints-Elem j [] = (λ h. h, λ h. h)
sort_ints-Elem j (k ∷ ks) = (
  λ h. elim (insert_sorted-Elem k j (sort_ints ks) h) [
    | inl e ↦ inl e
    | inr behind ↦ inr ((sort_ints-Elem j ks).0 behind)
  ],
  λ h.
      insert_sorted-has k j (sort_ints ks)
        (elim h [ inl e ↦ inl e | inr behind ↦ inr ((sort_ints-Elem j ks).1 behind) ]),
)

length-insert_sorted : (k : ℕ) (l : List ℕ) → length (insert_sorted k l) ≡ length l + 1
unfolding insert_sorted
length-insert_sorted k [] = refl
length-insert_sorted k (x ∷ xs) = ground (arith, length-insert_sorted k xs)

length-sort_ints : (ks : List ℕ) → length (sort_ints ks) ≡ length ks
unfolding sort_ints
length-sort_ints [] = refl
length-sort_ints (k ∷ ks) =
    omega (arith, length-insert_sorted k (sort_ints ks), length-sort_ints ks)

abbrev pub server_head : (out : Outside) → Formats (out.Circle) → Server out → ℕ → Text
server_head out f s id =
    print_head "server:" id s.base_convid s.last_convid s.ifname (f.iface_pointer s.iface)
      s.my_tun_ip s.remote_tun_ip

abbrev pub client_head : (out : Outside) → Formats (out.Circle) → Client out → ℕ → Text
client_head out f s id =
    print_head "client:" id s.base_convid s.last_convid s.ifname (f.iface_pointer s.iface)
      s.my_tun_ip s.remote_tun_ip

-- A text that is `head`, then one piece for each of the keys `ks` by rising key, then the end.
abbrev pub IsRising : Text → List ℕ → Text → Type 0
IsRising head ks t =
    (ps : List (ℕ × Text)) × (t ≡ head ++ (pieces_text ps ++ (codes "}" ++ 10 ∷ [])))
    × Rises (piece_keys ps)
    × (length (piece_keys ps) ≡ length ks)
    × ((j : ℕ) → Elem j (piece_keys ps) ↔ Elem j ks)

made-IsRising :
    (head t : Text) (ks : List ℕ)
    → IsMade (sort_ints ks) t
    → IsRising head ks (head ++ (t ++ (codes "}" ++ 10 ∷ [])))
made-IsRising head t ks (ps, keys', text') = (
  ps,
  ap (λ b. head ++ (b ++ (codes "}" ++ 10 ∷ []))) text',
  rw keys' (sort_ints-Rises ks),
  ap (λ js. length js) keys' ∙ length-sort_ints ks,
  λ j. rw keys' (sort_ints-Elem j ks),
)

-- printServer and printClient on any two visits of a map that meet the same keys, if these are in
-- the map and, for printClient, their connections have sessions: the two texts and what the calls
-- leave are the same, both return, and the text is the head, one piece for each of the keys in
-- rising order, and the end.
pub print_in-Perm :
    (out : Outside) (f : Formats (out.Circle)) (ks js : List ℕ) (id : ℕ) (s : Server out)
    (w : State out) (c : Client out) (v : Served out)
    → Perm ks js
    → AreKnown (entries s) ks
    → AreOpen v.conns (client_entries c) ks
    → ((print_server_in out f ks s id w ≡ print_server_in out f js s id w)
        × Returns (λ t _. IsRising (server_head out f s id) ks t) (print_server_in out f ks s id w))
      × ((print_client_in out f ks c id v ≡ print_client_in out f js c id v)
          × Returns
              (λ t _. IsRising (client_head out f c id) ks t)
              (print_client_in out f ks c id v))
unfolding print_server_in print_client_in
print_in-Perm out f ks js id s w c v p known open' = (
  (
    rw (sort_ints-Perm ks js p) refl,
    Returns-bind (print_server_entries out f (entries s) (sort_ints ks)) _ w
        (print_server_entries-IsMade out f (entries s) (sort_ints ks) w
          (λ j at. known j ((sort_ints-Elem j ks).0 at)))
        λ t u made. returns {w = u} (made-IsRising (server_head out f s id) t ks made),
  ),
  (
    rw (sort_ints-Perm ks js p) refl,
    Returns-bind (print_client_entries out f (client_entries c) (sort_ints ks)) _ v
        (print_client_entries-IsMade out f (client_entries c) (sort_ints ks) v
          (λ j at. open' j ((sort_ints-Elem j ks).0 at)))
        λ t u made. returns {w = u} (made-IsRising (client_head out f c id) t ks made),
  ),
)
