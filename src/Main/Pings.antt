-- ===== src/Main/Pings.antt =====
-- How often the loops of main.go send pings: a round sleeps 10 ms, and g_max_hello is 5 s.
use native.Mathlib.Decide.{dec_lt}
use ratbond.Base.{
  ℕ, zero, suc, ◌+◌, ◌-◌, ◌*◌, ◌%◌, ◌≤◌, ◌<◌, ◌≡◌, refl, ap, ◌∙◌, inl, inr, List, arith, ◌==◌,
  Bool-cases, Elem,
}
use ratbond.Main.Loop.{
  Task, send_server_pings, send_client_pings, next_count, client_round, server_round, count_after,
  check_paths, due,
}

count_after-add : (a b l : ℕ) → count_after (a + b) l ≡ count_after b (count_after a l)
unfolding count_after
count_after-add zero b l = let e : zero + b ≡ b = omega arith in ap (λ (n : ℕ). count_after n l) e
count_after-add (suc a) b l =
    let e : suc a + b ≡ suc (a + b) = omega arith in
    ap (λ (n : ℕ). count_after n l) e ∙ count_after-add a b (next_count l)

count_after-below : (k l : ℕ) → l + k < 1500 → count_after k l ≡ l + k
unfolding count_after
count_after-below zero l h = omega arith
count_after-below (suc k) l h =
    let step : next_count l ≡ l + 1 = unfold next_count in ground arith in
    ap (count_after k) step ∙ count_after-below k (l + 1) (omega arith) ∙ omega arith

-- The count stays between 1 and 1499.
next_count-range : (l : ℕ) → (1 ≤ next_count l) × (l < 1500 → next_count l < 1500)
unfolding next_count
next_count-range l = (ground arith, λ h. ground arith)

-- In every 299 rounds from a count of the loop there is one that reaches a multiple of 200.
round_200 : (l : ℕ) → 1 ≤ l → l < 1500 → (k : ℕ) × (k < 299) × ((count_after k l + 1) % 200 ≡ 0)
round_200 l low high = elim (dec_lt l 1400) [
  | yes early ↦
      let k : ℕ = 199 - l % 200 in
      (k, omega arith, rw (count_after-below k l (omega arith)) (omega arith))
  | no late ↦
      let a : ℕ = 1499 - l in
      let top : count_after a l ≡ 1499 = count_after-below a l (omega arith) ∙ omega arith in
      let turn : count_after (a + 1) l ≡ 1 =
        count_after-add a 1 l ∙ ap (count_after 1) top ∙ unfold count_after next_count in refl in
      let last : count_after (a + 1 + 198) l ≡ 199 =
        count_after-add (a + 1) 198 l
        ∙ ap (count_after 198) turn
        ∙ count_after-below 198 1 (omega arith) in
      (a + 1 + 198, omega arith, rw last refl)
]

due-Elem :
    (period n : ℕ) (t : Task) (rest : List Task) → n % period ≡ 0 → Elem t (due period n t rest)
unfolding due
due-Elem period n t rest h = rw h (inl refl)

due-rest :
    (period n : ℕ) (t u : Task) (rest : List Task) → Elem t rest → Elem t (due period n u rest)
unfolding due
due-rest period n t u rest h = elim (Bool-cases (n % period == 0)) [
  | inl now ↦ rw now (inr h)
  | inr later ↦ rw later h
]

client_round-pings : (n : ℕ) → (n + 1) % 200 ≡ 0 → Elem send_server_pings (client_round n)
unfolding client_round
client_round-pings n h =
    due-rest 500 (n + 1) send_server_pings check_paths _
      (due-Elem 200 (n + 1) send_server_pings _ h)

server_round-pings : (n : ℕ) → (n + 1) % 200 ≡ 0 → Elem send_client_pings (server_round n)
unfolding server_round
server_round-pings n h = due-Elem 200 (n + 1) send_client_pings _ h

-- From any count of the loop, both the client and the server send pings in one of the next 299
-- rounds, so with less than three seconds of sleep up to and with that round; and the count stays in
-- its range.
pub pings_in_time :
    (l : ℕ)
    → 1 ≤ l
    → l < 1500
    → ((1 ≤ next_count l) × (next_count l < 1500))
      × ((k : ℕ) × (k < 299)
          × ((k + 1) * 10000000 < 3000000000)
          × Elem send_server_pings (client_round (count_after k l))
          × Elem send_client_pings (server_round (count_after k l)))
pings_in_time l low high =
    let (k, soon, e) = round_200 l low high in
    (
      ((next_count-range l).0, (next_count-range l).1 high),
      (k, soon, omega (arith, soon), client_round-pings _ e, server_round-pings _ e),
    )
