-- ===== src/Postgres/Pool/Waiting.antt =====
-- Who waits, and who is served.
use mathlib.Core.List.{◌++◌}
use photon_commerce.Base.{
  ℕ, suc, Option, none, some, List, [], ◌∷◌, ◌+◌, ◌≡◌, ◌≢◌, refl, ap, ◌∙◌, arith, length,
  length-append, map, ◌⊎◌, inl, inr,
}
use photon_commerce.Postgres.Pool.Channel.{WaiterChannel}
use photon_commerce.Postgres.Pool.{Pool, get_connection, return_connection, take_idle, hand_over}
use photon_commerce.Postgres.Pool.Clients.{
  granted, resumed, release, System, start, asks, runs, Step, ask, let_go, run, Reach, here, next,
}

module _ (C : WaiterChannel) where
  -- Nobody waits while a connection is idle.
  abbrev pub IsFair : Pool C → Type 0
  IsFair p = (p.idle ≡ []) ⊎ (C.pending p.waiters ≡ [])

  take_idle-IsFair :
      (w : ℕ) (p : Pool C) (idle : List ℕ)
      → p.idle ≡ idle
      → IsFair p
      → IsFair (take_idle C w idle p).1
  unfolding take_idle
  take_idle-IsFair w p [] e f = inl e
  take_idle-IsFair w p (conn ∷ rest) e (inl none_idle) = cc
  take_idle-IsFair w p (conn ∷ rest) e (inr nobody) = inr nobody

  return-IsFair :
      (conn : ℕ) (p : Pool C) (ws : List ℕ)
      → C.pending p.waiters ≡ ws
      → IsFair p
      → IsFair (return_connection C conn p).1
  unfolding return_connection hand_over
  return-IsFair conn p [] e f =
      let (failed, empty) = C.try_send-nil p.waiters e in rw (failed, hand_over) (inr empty)
  return-IsFair conn p (w ∷ ws) e (inl none_idle) =
      let (sent, rest) = C.try_send-cons p.waiters w ws e in rw (sent, hand_over) (inl none_idle)
  return-IsFair conn p (w ∷ ws) e (inr nobody) = cc

  Step-IsFair : {s t : System C} → Step C s t → IsFair s.pool → IsFair t.pool
  unfolding asks runs get_connection
  Step-IsFair {s} (ask w) f = take_idle-IsFair w s.pool s.pool.idle refl f
  Step-IsFair (let_go before after l e) f = f
  Step-IsFair {s} (run conn rest e) f = return-IsFair conn s.pool (C.pending s.pool.waiters) refl f

  Reach-IsFair : {s t : System C} → Reach C s t → IsFair s.pool → IsFair t.pool
  Reach-IsFair here f = f
  Reach-IsFair (next r st) f = Step-IsFair st (Reach-IsFair r f)

  -- The connections that are somewhere.
  abbrev total : System C → ℕ
  total s = length s.pool.idle + length s.lent + length s.posted

  get_connection-total :
      (w : ℕ) (p : Pool C) (idle : List ℕ)
      → length (take_idle C w idle (record p { idle = idle })).1.idle
          + length (granted (take_idle C w idle (record p { idle = idle })).0 w)
        ≡ length idle
  unfolding take_idle
  get_connection-total w p [] = omega arith
  get_connection-total w p (conn ∷ rest) = omega arith

  return_connection-total :
      (conn : ℕ) (o : Option ℕ) (rest : C.Chan) (p : Pool C)
      → length (hand_over C conn o rest p).1.idle
          + length (resumed (hand_over C conn o rest p).0 conn)
        ≡ suc (length p.idle)
  unfolding hand_over
  return_connection-total conn none rest p = omega (arith, length-append p.idle (conn ∷ []))
  return_connection-total conn (some w) rest p = omega arith

  Step-total : {s t : System C} → Step C s t → total t ≡ total s
  unfolding asks runs get_connection return_connection release
  Step-total {s} (ask w) = omega (
    arith,
    get_connection-total w s.pool s.pool.idle,
    length-append (granted (take_idle C w s.pool.idle s.pool).0 w) s.lent,
  )
  Step-total {s} (let_go before after l e) = omega (
    arith,
    ap length e,
    length-append before (l ∷ after),
    length-append before after,
    length-append s.posted (l.conn ∷ []),
  )
  Step-total {s} (run conn rest e) = omega (
    arith,
    ap length e,
    return_connection-total conn (C.try_send s.pool.waiters).0 (C.try_send s.pool.waiters).1 s.pool,
    length-append
        (resumed
          (hand_over C conn (C.try_send s.pool.waiters).0 (C.try_send s.pool.waiters).1 s.pool).0
          conn)
        s.lent,
  )

  Reach-total : {s t : System C} → Reach C s t → total t ≡ total s
  Reach-total here = refl
  Reach-total (next r st) = Step-total st ∙ Reach-total r

  -- If nobody waits at the start, then whenever a coroutine waits no connection is idle, and as
  -- many connections as the pool was given are lent or on their way back.
  pub Reach-start-no_idle_waiting :
      (pool : List ℕ) (chan : C.Chan) {t : System C}
      → C.pending chan ≡ []
      → Reach C (start C pool chan) t
      → C.pending t.pool.waiters ≢ []
      → (t.pool.idle ≡ []) × (length t.lent + length t.posted ≡ length pool)
  Reach-start-no_idle_waiting pool chan {t} nobody r waits = none_idle (Reach-IsFair r (inr nobody))
    where
      none_idle :
          IsFair t.pool → (t.pool.idle ≡ []) × (length t.lent + length t.posted ≡ length pool)
      none_idle (inl e) = (e, omega (arith, Reach-total r, ap length e))
      none_idle (inr e) = absurd (waits e)

  -- The coroutines that a list of returns resumes, and the pool behind them.
  pub return_all : List ℕ → Pool C → List (Option ℕ) × Pool C
  return_all [] p = ([], p)
  return_all (conn ∷ rest) p =
      let out = return_all rest (return_connection C conn p).1 in
      ((return_connection C conn p).0 ∷ out.0, out.1)

  -- First come, first served: returns resume the coroutines that wait in the order in which they
  -- began to wait, one each, and leave the others waiting.
  pub return_all-fifo :
      (conns ws later : List ℕ) (p : Pool C)
      → C.pending p.waiters ≡ ws ++ later
      → length conns ≡ length ws
      → ((return_all conns p).0 ≡ map some ws)
        × (C.pending (return_all conns p).1.waiters ≡ later)
        × ((return_all conns p).1.idle ≡ p.idle)
  unfolding return_all return_connection hand_over
  return_all-fifo [] [] later p e n = (refl, e, refl)
  return_all-fifo [] (w ∷ ws) later p e n = absurd (omega arith)
  return_all-fifo (conn ∷ conns) [] later p e n = absurd (omega arith)
  return_all-fifo (conn ∷ conns) (w ∷ ws) later p e n =
      let (sent, rest) = C.try_send-cons p.waiters w (ws ++ later) e in
      let (order, left, idle) =
        return_all-fifo conns ws later (record p { waiters = (C.try_send p.waiters).1 }) rest
          (omega arith) in
      rw (sent, hand_over) (ap (◌∷◌ (some w)) order, left, idle)
