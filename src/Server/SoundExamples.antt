-- ===== src/Server/SoundExamples.antt =====
-- The theorems about the states that the server reaches, at one that it reaches by accepting a
-- session.
use ratbond.Outside.{Outside}
use ratbond.Outside.Sample.{sample}
use ratbond.Client.Sound.{none_held}
use ratbond.Server.Examples.{served_none}
use ratbond.Server.Sound.{IsSteady}
use ratbond.Server.Sound.Reachable.{
  accepts, server_reads, run_server_action, Serves, begins, serves, serving-IsSteady,
  serving-never_hangs,
}
use ratbond.Server.State.{client_entries, Served, update_conn}
use mathlib.Core.Option
use ratbond.Base.{
  ℕ, ◌%◌, ◌^◌, ◌<◌, ◌≡◌, refl, ◌≢◌, some, [], ◌∷◌, arith, lookup, insert, keys, deadlock, done,
  fault,
}

abbrev uint32_convs : Outside
uint32_convs = record sample { get_conv = λ n. n % 2 ^ 32 }

convs_small : (kcp : ℕ) → uint32_convs.get_conv kcp < 2 ^ 32
convs_small kcp = omega arith

abbrev accepted_one : Served uint32_convs
unfolding run_server_action
accepted_one = elim (run_server_action uint32_convs (accepts 660 661) served_none) [
  | done a w ↦ w
  | fault e w ↦ w
]

accepted_done : run_server_action uint32_convs (accepts 660 661) served_none ≡ done tt accepted_one
unfolding run_server_action accepted_one lookup insert update_conn
accepted_done = refl

-- The session is in the table.
accepted_once :
    Option.map (λ s. keys (client_entries s)) (lookup 660 accepted_one.clients) ≡ some (661 ∷ [])
unfolding accepted_one lookup insert update_conn
accepted_once = refl

accepted-Serves : Serves uint32_convs accepted_one
accepted-Serves = serves (accepts 660 661) (begins {w = served_none} refl) accepted_done

serving-IsSteady_example : IsSteady uint32_convs none_held accepted_one
serving-IsSteady_example = serving-IsSteady uint32_convs convs_small accepted_one accepted-Serves

serving-never_hangs_example :
    run_server_action uint32_convs (server_reads 660 661 1 661) accepted_one
    ≢ fault deadlock accepted_one
serving-never_hangs_example =
    serving-never_hangs uint32_convs convs_small (server_reads 660 661 1 661) accepted_one
      accepted_one accepted-Serves
