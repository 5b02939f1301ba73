-- ===== src/Tests/Pools.antt =====
-- The connection pool over a queue of waiters, with two connections and three coroutines.
use mathlib.Core.List.{◌++◌}
use photon_commerce.Base.{
  ℕ, Option, none, some, List, [], ◌∷◌, ◌+◌, ◌≤◌, ◌≡◌, ◌≢◌, refl, arith, length, count,
}
use photon_commerce.Postgres.Pool.{Pool, get_connection}
use photon_commerce.Postgres.Pool.Channel.{WaiterChannel}
use photon_commerce.Postgres.Pool.Clients.{
  Lease, conns, System, start, asks, ask, Reach, here, next,
}
use photon_commerce.Postgres.Pool.Conservation.{Reach-start-owned, Reach-exclusive}
use photon_commerce.Postgres.Pool.Waiting.{Reach-start-no_idle_waiting, return_all, return_all-fifo}
use photon_commerce.Postgres.Pool.Version2.{
  Call, gets, returns, run_calls, run_calls2, run_calls-run_calls2,
}

abbrev first_of : List ℕ → Option ℕ × List ℕ
first_of [] = (none, [])
first_of (w ∷ ws) = (some w, ws)

first_of-nil : (c : List ℕ) → c ≡ [] → ((first_of c).0 ≡ none) × ((first_of c).1 ≡ [])
first_of-nil [] e = (refl, refl)
first_of-nil (w ∷ ws) e = cc

first_of-cons :
    (c : List ℕ) (w : ℕ) (ws : List ℕ)
    → c ≡ w ∷ ws
    → ((first_of c).0 ≡ some w) × ((first_of c).1 ≡ ws)
first_of-cons [] w ws e = cc
first_of-cons (v ∷ vs) w ws e = (cc, cc)

abbrev queue : WaiterChannel
queue = record {
  Chan = List ℕ;
  pending = λ c. c;
  async_receive = λ w c. c ++ w ∷ [];
  try_send = first_of;
  pending-async_receive = λ w c. refl;
  try_send-nil = first_of-nil;
  try_send-cons = first_of-cons;
}

abbrev two : List ℕ
two = 10 ∷ 11 ∷ []

abbrev crowded : System queue
crowded = asks queue 3 (asks queue 2 (asks queue 1 (start queue two [])))

crowded_reached : Reach queue (start queue two []) crowded
crowded_reached = next (next (next here (ask 1)) (ask 2)) (ask 3)

Reach-start-owned_example :
    count 10 crowded.pool.idle + count 10 (conns crowded.lent) + count 10 crowded.posted ≡ 1
Reach-start-owned_example = Reach-start-owned queue 10 two [] crowded_reached

abbrev lease : ℕ → ℕ → Lease
lease holder conn = record { holder = holder; conn = conn }

crowded_lent : crowded.lent ≡ lease 2 11 ∷ lease 1 10 ∷ []
unfolding asks get_connection
crowded_lent = refl

two_once : (k : ℕ) → count k two ≤ 1
two_once k = ground arith

Reach-exclusive_test : (lease 2 11).conn ≢ (lease 1 10).conn
Reach-exclusive_test =
    Reach-exclusive queue two [] [] [] [] (lease 2 11) (lease 1 10) two_once crowded_reached
      crowded_lent

crowded_waits : queue.pending crowded.pool.waiters ≢ []
unfolding asks get_connection
crowded_waits e = cc

Reach-start-no_idle_waiting_example :
    (crowded.pool.idle ≡ []) × (length crowded.lent + length crowded.posted ≡ 2)
Reach-start-no_idle_waiting_example =
    Reach-start-no_idle_waiting queue two [] refl crowded_reached crowded_waits

abbrev waited : Pool queue
waited = record { idle = []; waiters = 5 ∷ 6 ∷ 7 ∷ [] }

return_all-fifo_test :
    ((return_all queue two waited).0 ≡ some 5 ∷ some 6 ∷ [])
    × (queue.pending (return_all queue two waited).1.waiters ≡ 7 ∷ [])
    × ((return_all queue two waited).1.idle ≡ [])
return_all-fifo_test = return_all-fifo queue two (5 ∷ 6 ∷ []) (7 ∷ []) waited refl refl

abbrev calls : List Call
calls = gets 1 ∷ gets 2 ∷ gets 3 ∷ returns 11 ∷ returns 10 ∷ []

run_calls-run_calls2_example :
    run_calls queue calls (record { idle = two; waiters = [] })
    ≡ run_calls2 calls (record { idle = two; waiters = [] })
run_calls-run_calls2_example =
    run_calls-run_calls2 queue calls (record { idle = two; waiters = [] })
      (record { idle = two; waiters = [] }) (record { idle = refl; waiters = refl })
