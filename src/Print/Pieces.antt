-- ===== src/Print/Pieces.antt =====
-- The texts of printServer and printClient as the texts of their connections, one behind the other.
use ratbond.Outside.{Outside}
use ratbond.Print.Format.{Formats, entry_text}
use ratbond.Print.Servers.{print_server_connection, print_server_entry, print_server_entries}
use ratbond.Print.Clients.{print_client_connection, print_client_entry, print_client_entries}
use ratbond.Client.State.{State, RatSession}
use ratbond.Server.State.{Served, ClientConnection}
use ratbond.Base.{
  ℕ, ◌≡◌, refl, ap, inl, inr, some, List, [], ◌∷◌, ◌++◌, Option-cases, Elem, Text, Dict, lookup,
  Returns, returns, Returns-bind,
}

-- The keys and the texts of connections.
abbrev pub pieces_text : List (ℕ × Text) → Text
pieces_text [] = []
pieces_text ((k, t) ∷ ps) = entry_text k t ++ pieces_text ps

abbrev pub piece_keys : List (ℕ × Text) → List ℕ
piece_keys [] = []
piece_keys ((k, t) ∷ ps) = k ∷ piece_keys ps

-- A text made of a piece for each key, in the order of the keys.
abbrev pub IsMade : List ℕ → Text → Type 0
IsMade ks t = (ps : List (ℕ × Text)) × (piece_keys ps ≡ ks) × (t ≡ pieces_text ps)

more-IsMade :
    (k : ℕ) (here rest : Text) (ks : List ℕ)
    → IsMade ks rest
    → IsMade (k ∷ ks) (entry_text k here ++ rest)
more-IsMade k here rest ks (ps, keys', text') =
    ((k, here) ∷ ps, ap (λ js. k ∷ js) keys', ap (λ t. entry_text k here ++ t) text')

abbrev pub AreKnown : Dict ℕ → List ℕ → Type 0
AreKnown m ks = (j : ℕ) → Elem j ks → (p : ℕ) × (lookup j m ≡ some p)

-- printClient panics on a connection without a session.
abbrev pub AreOpen : (ℕ → ClientConnection) → Dict ℕ → List ℕ → Type 0
AreOpen conns m ks =
    (j : ℕ)
    → Elem j ks
    → (p : ℕ) × (session : RatSession) × (lookup j m ≡ some p) × ((conns p).session ≡ some session)

module _ (out : Outside) (f : Formats (out.Circle)) where
  server_entry-Returns :
      (p : ℕ) (w : State out) → Returns (λ _ _. Unit {0}) (print_server_entry out f (some p) w)
  unfolding print_server_entry print_server_connection
  server_entry-Returns p w = elim (Option-cases (w.heap p).session) [
    | inl off ↦ rw off (returns tt)
    | inr (session, on) ↦ rw on (returns tt)
  ]

  pub print_server_entries-IsMade :
      (m : Dict ℕ) (ks : List ℕ) (w : State out)
      → AreKnown m ks
      → Returns (λ t _. IsMade ks t) (print_server_entries out f m ks w)
  unfolding print_server_entries
  print_server_entries-IsMade m [] w known = returns ([], refl, refl)
  print_server_entries-IsMade m (k ∷ ks) w known =
      let (p, there) = known k (inl refl) in
      Returns-bind {Q = λ _ _. Unit {0}} (print_server_entry out f (lookup k m)) _ w
        (rw there (server_entry-Returns p w))
        λ here v _.
          Returns-bind (print_server_entries out f m ks) _ v
            (print_server_entries-IsMade m ks v (λ j on. known j (inr on)))
            λ rest u made. returns (more-IsMade k here rest ks made)

  client_entry-Returns :
      (p : ℕ) (session : RatSession) (w : Served out)
      → (w.conns p).session ≡ some session
      → Returns (λ _ v. v.conns ≡ w.conns) (print_client_entry out f (some p) w)
  unfolding print_client_entry print_client_connection
  client_entry-Returns p session w on = rw on (returns refl)

  pub print_client_entries-IsMade :
      (m : Dict ℕ) (ks : List ℕ) (w : Served out)
      → AreOpen w.conns m ks
      → Returns (λ t _. IsMade ks t) (print_client_entries out f m ks w)
  unfolding print_client_entries
  print_client_entries-IsMade m [] w known = returns ([], refl, refl)
  print_client_entries-IsMade m (k ∷ ks) w known =
      let (p, session, there, on) = known k (inl refl) in
      Returns-bind {Q = λ _ v. v.conns ≡ w.conns} (print_client_entry out f (lookup k m)) _ w
        (rw there (client_entry-Returns p session w on))
        λ here v same.
          Returns-bind (print_client_entries out f m ks) _ v
            (print_client_entries-IsMade m ks v (λ j at. rw same (known j (inr at))))
            λ rest u made. returns (more-IsMade k here rest ks made)
