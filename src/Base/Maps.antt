-- ===== src/Base/Maps.antt =====
-- A Go map with numeric keys, as an association list.
use Prim.Native.Nat.{ℕ}
use mathlib.Core.Path.{◌≡◌}
use mathlib.Core.Logic.{◌≢◌, ◌⊎◌, inl, inr}
use mathlib.Core.List.{List, [], ◌∷◌}
use mathlib.Core.Option.{Option, none, some, some-injective}
use native.Mathlib.Omega.{arith}
use ratbond.Base.Tests.{◌==◌, if◌then◌else◌, ==_iff, Bool-cases}
use ratbond.Base.Lists.{Elem}

abbrev pub Dict : Type 0 → Type 0
Dict V = List (ℕ × V)

module _ {V : Type 0} where
  -- v, ok := table[key]
  unfoldable pub lookup : ℕ → Dict V → Option V
  lookup key [] = none
  lookup key ((name, value) ∷ table) = if name == key then some value else lookup key table

  -- table[key] = value: an old entry is overwritten where it stands, a new one goes last.
  unfoldable pub insert : ℕ → V → Dict V → Dict V
  insert key value [] = (key, value) ∷ []
  insert key value ((name, old) ∷ table) =
      let rest = insert key value table in
      if name == key then (name, value) ∷ table else (name, old) ∷ rest

  -- delete(table, key)
  unfoldable pub delete : ℕ → Dict V → Dict V
  delete key [] = []
  delete key ((name, value) ∷ table) =
      let rest = delete key table in if name == key then rest else (name, value) ∷ rest

  abbrev pub keys : Dict V → List ℕ
  keys [] = []
  keys ((name, value) ∷ table) = name ∷ keys table

  pub lookup-insert :
      (key probe : ℕ) (value : V) (table : Dict V)
      → lookup probe (insert key value table)
        ≡ (if key == probe then some value else lookup probe table)
  unfolding lookup insert
  lookup-insert key probe value [] = ground arith
  lookup-insert key probe value (entry ∷ table) =
      ground (arith, lookup-insert key probe value table)

  pub lookup-delete :
      (key probe : ℕ) (table : Dict V)
      → lookup probe (delete key table) ≡ (if key == probe then none else lookup probe table)
  unfolding lookup delete
  lookup-delete key probe [] = ground arith
  lookup-delete key probe (entry ∷ table) = ground (arith, lookup-delete key probe table)

  pub Elem-keys : (k : ℕ) (v : V) (m : Dict V) → lookup k m ≡ some v → Elem k (keys m)
  unfolding lookup
  Elem-keys k v [] h = cc
  Elem-keys k v ((j, w) ∷ m) h = ground (arith, Elem-keys k v m)

  pub keys-lookup : (k : ℕ) (m : Dict V) → Elem k (keys m) → (v : V) × (lookup k m ≡ some v)
  unfolding lookup
  keys-lookup k [] h = absurd h
  keys-lookup k ((j, w) ∷ m) (inl e) = (w, ground arith)
  keys-lookup k ((j, w) ∷ m) (inr h) =
      let (v, e) = keys-lookup k m h in (if j == k then w else v, ground arith)

  pub lookup_nil : (m : Dict V) → m ≡ [] → (k : ℕ) → lookup k m ≡ none
  unfolding lookup
  lookup_nil m e k = rw (e, lookup)

  -- A key that was just written is found.
  pub lookup-insert_self :
      (key : ℕ) (value : V) (table : Dict V) → lookup key (insert key value table) ≡ some value
  lookup-insert_self key value table = rw (lookup-insert key key value table) (ground arith)

  pub lookup-insert_ne :
      (key probe : ℕ) (value : V) (table : Dict V)
      → (probe ≡ key → ⊥)
      → lookup probe (insert key value table) ≡ lookup probe table
  lookup-insert_ne key probe value table other =
      rw (lookup-insert key probe value table) (ground arith)

  -- What is found after a write is what was written, or what was there.
  pub insert-cases :
      (key probe : ℕ) (value found : V) (table : Dict V)
      → lookup probe (insert key value table) ≡ some found
      → ((key ≡ probe) × (value ≡ found)) ⊎ ((key ≢ probe) × (lookup probe table ≡ some found))
  insert-cases key probe value found table e = elim (Bool-cases (key == probe)) [
    | inl here ↦ inl (
      (==_iff key probe).0 here,
      some-injective _ _ (rw (lookup-insert key probe value table, here) at e),
    )
    | inr there ↦ inr (
      λ same. cc (there, (==_iff key probe).1 same),
      rw (lookup-insert key probe value table, there) at e,
    )
  ]
