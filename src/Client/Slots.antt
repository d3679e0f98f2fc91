-- ===== src/Client/Slots.antt =====
-- The search of client_connect_server for an open slot.
use ratbond.Base.{
  ℕ, zero, suc, ◌+◌, ◌^◌, ◌≤◌, ◌<◌, ◌≡◌, ap, ◌∙◌, ◌≢◌, inl, inr, none, some, arith, Option-cases,
  Dict, lookup,
}
use native.Mathlib.Decide.{dec_le, dec_lt}
use ratbond.Client.State.{u32}
use ratbond.Client.Connect.{find_slot, open_slot}

find_slot-step :
    (fuel last avail p : ℕ) (m : Dict ℕ)
    → avail ≤ last
    → lookup avail m ≡ some p
    → last + 1 < 2 ^ 32
    → find_slot (suc fuel) m last avail ≡ find_slot fuel m last (avail + 1)
unfolding find_slot
find_slot-step fuel last avail p m h e l =
    let small : u32 (avail + 1) ≡ avail + 1 = omega arith in
    ground (arith, ap (find_slot fuel m last) small)

find_slot-open :
    (fuel last avail : ℕ) (m : Dict ℕ)
    → avail ≤ last
    → lookup avail m ≡ none
    → find_slot (suc fuel) m last avail ≡ some avail
unfolding find_slot
find_slot-open fuel last avail m h e = ground arith

find_slot-past :
    (fuel last avail : ℕ) (m : Dict ℕ)
    → last < avail
    → find_slot (suc fuel) m last avail ≡ some avail
unfolding find_slot
find_slot-past fuel last avail m h = ground arith

-- What the search returns: the first open convid of the range, or the one behind it.
pub record IsSlot (m : Dict ℕ) (first last k : ℕ) : Type 0 where
  pub from : first ≤ k
  pub upto : k ≤ last + 1
  pub taken : (j : ℕ) → first ≤ j → j < k → lookup j m ≢ none
  pub open' : k ≤ last → lookup k m ≡ none

find_slot-IsSlot :
    (fuel last avail : ℕ) (m : Dict ℕ)
    → last + 1 < 2 ^ 32
    → avail ≤ last + 1
    → last + 1 < avail + fuel
    → (k : ℕ) × (find_slot fuel m last avail ≡ some k) × IsSlot m avail last k
find_slot-IsSlot zero last avail m l a f = absurd (omega arith)
find_slot-IsSlot (suc fuel) last avail m l a f = elim (dec_le avail last) [
  | no past ↦ (
    avail,
    find_slot-past fuel last avail m (omega arith),
    record {
      from = omega arith;
      upto = a;
      taken = λ j x y. absurd (omega arith);
      open' = λ x. absurd (past x);
    },
  )
  | yes within ↦ elim (Option-cases (lookup avail m)) [
    | inl free ↦ (
      avail,
      find_slot-open fuel last avail m within free,
      record {
        from = omega arith;
        upto = a;
        taken = λ j x y. absurd (omega arith);
        open' = λ x. free;
      },
    )
    | inr (p, held) ↦
        let (k, e, s) = find_slot-IsSlot fuel last (avail + 1) m l (omega arith) (omega arith) in
        (
          k,
          find_slot-step fuel last avail p m within held l ∙ e,
          record {
            from = omega (arith, s.from);
            upto = s.upto;
            taken = λ j x y. elim (dec_lt avail j) [
              | yes after ↦ s.taken j (omega arith) y
              | no here ↦
                  let same : j ≡ avail = omega arith in λ gone. cc (ap (λ (i : ℕ). lookup i m) same)
            ];
            open' = s.open';
          },
        )
  ]
]

-- For a tunnel id at most 2^32 - 12 the search ends. It returns the first open convid of the eleven
-- from the tunnel id on; when all eleven are in use it returns the twelfth, in use or not, and
-- never the convid at which client_connect_server gives up.
pub open_slot-IsSlot :
    (m : Dict ℕ) (tid : ℕ)
    → tid + 11 < 2 ^ 32
    → (k : ℕ) × (open_slot m tid ≡ some k)
      × IsSlot m tid (tid + 10) k
      × (k ≢ u32 (tid + 100))
      × (((j : ℕ) → tid ≤ j → j ≤ tid + 10 → lookup j m ≢ none) → k ≡ tid + 11)
unfolding open_slot
open_slot-IsSlot m tid h =
    let small : u32 (tid + 10) ≡ tid + 10 = omega arith in
    let (k, e, s) =
      find_slot-IsSlot 12 (tid + 10) tid m (omega arith) (omega arith) (omega arith) in
    (
      k,
      ap (λ (last : ℕ). find_slot 12 m last tid) small ∙ e,
      s,
      omega (arith, s.from, s.upto),
      λ full. elim (dec_le k (tid + 10)) [
        | yes within ↦ absurd (full k s.from within (s.open' within))
        | no past ↦ omega (arith, s.upto)
      ],
    )
