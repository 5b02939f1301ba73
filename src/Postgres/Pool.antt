-- ===== src/Postgres/Pool.antt =====
-- UserService/infrastructure/persistence/postgresql/src/async_connection_pool.cc, and the pools of
-- old_version: v2 keeps its own queue of waiters, v01 a mutex and signals. Connections and
-- coroutines are numbers.
-- What the strand runs, it runs one at a time, so an operation is a function of the pool.
pub mod Channel
pub mod Clients
pub mod Conservation
pub mod Waiting
pub mod Version2
use mathlib.Core.List.{◌++◌}
use photon_commerce.Base.{
  ℕ, zero, suc, String, Option, none, some, List, [], ◌∷◌, if◌then◌else◌, Outcome, ret, thrown,
  std_exception, Await, pure, throw, ◌>>=◌, ◌>>◌,
}
use photon_commerce.Base.Int.{ℤ, le_zero, to_ℕ}
use photon_commerce.Postgres.Pool.Channel.{WaiterChannel}

pub record DbPoolConfig : Type 0 where
  pub conn_str : String
  pub pool_size : ℤ

-- The check of the constructor: the pool size as a number of rounds, or the exception.
unfoldable pub make_pool : DbPoolConfig → Outcome ℕ
make_pool config =
    if le_zero config.pool_size
    then thrown (std_exception "Pool size must be positive.")
    else ret (to_ℕ config.pool_size)

-- `Init`, one connection a round, from the idle connections so far: `connect` is `AsyncConnect` of
-- a new PQConnection, and what it throws ends the loop.
unfoldable pub init : {W : Type 0} → Await W ℕ → ℕ → List ℕ → Await W (List ℕ)
init connect zero idle = pure idle
init connect (suc n) idle =
    let later = init connect n in connect >>= λ conn. later (idle ++ conn ∷ [])

module _ (C : WaiterChannel) where
  open C use {Chan, async_receive, try_send}

  pub record Pool : Type 0 where
    pub idle : List ℕ
    pub waiters : Chan

  take_idle : ℕ → List ℕ → Pool → Option ℕ × Pool
  take_idle w [] p = (none, record p { waiters = async_receive w p.waiters })
  take_idle w (conn ∷ rest) p = (some conn, record p { idle = rest })

  -- `GetConnection` of the coroutine `w`: the connection, or none where `w` is suspended.
  unfoldable pub get_connection : ℕ → Pool → Option ℕ × Pool
  unfolding take_idle
  get_connection w p = take_idle w p.idle p

  hand_over : ℕ → Option ℕ → Chan → Pool → Option ℕ × Pool
  hand_over conn (some w) rest p = (some w, record p { waiters = rest })
  hand_over conn none rest p = (none, record { idle = p.idle ++ conn ∷ []; waiters = rest })

  -- What `ReturnConnection` runs on the strand: the coroutine that it resumes, if any.
  unfoldable pub return_connection : ℕ → Pool → Option ℕ × Pool
  unfolding hand_over
  return_connection conn p = hand_over conn (try_send p.waiters).0 (try_send p.waiters).1 p
