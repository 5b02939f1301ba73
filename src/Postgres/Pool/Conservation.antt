-- ===== src/Postgres/Pool/Conservation.antt =====
-- No connection is lost, made up or lent twice.
use mathlib.Core.List.{◌++◌}
use photon_commerce.Base.{
  ℕ, Option, none, some, List, [], ◌∷◌, ◌+◌, ◌≤◌, ◌≡◌, refl, ap, ◌∙◌, arith, ◌≢◌, count,
  count-append,
}
use photon_commerce.Postgres.Pool.Channel.{WaiterChannel}
use photon_commerce.Postgres.Pool.{Pool, get_connection, return_connection, take_idle, hand_over}
use photon_commerce.Postgres.Pool.Clients.{
  Lease, conns, granted, resumed, release, System, start, asks, runs, Step, ask, let_go, run, Reach,
  here, next,
}

count-conns-append :
    (k : ℕ) (xs ys : List Lease)
    → count k (conns (xs ++ ys)) ≡ count k (conns xs) + count k (conns ys)
count-conns-append k [] ys = omega arith
count-conns-append k (x ∷ xs) ys = omega (arith, count-conns-append k xs ys)

count_here : (k x : ℕ) → k ≡ x → count k (x ∷ []) ≡ 1
count_here k x e = ground (arith, e)

module _ (C : WaiterChannel) where
  -- How often `k` occurs among the idle connections, the lent ones and the posted returns.
  abbrev pub owned : ℕ → System C → ℕ
  owned k s = count k s.pool.idle + count k (conns s.lent) + count k s.posted

  get_connection-owned :
      (k w : ℕ) (p : Pool C) (idle : List ℕ)
      → count k (take_idle C w idle (record p { idle = idle })).1.idle
          + count k (conns (granted (take_idle C w idle (record p { idle = idle })).0 w))
        ≡ count k idle
  unfolding take_idle
  get_connection-owned k w p [] = omega arith
  get_connection-owned k w p (conn ∷ rest) = omega arith

  return_connection-owned :
      (k conn : ℕ) (o : Option ℕ) (rest : C.Chan) (p : Pool C)
      → count k (hand_over C conn o rest p).1.idle
          + count k (conns (resumed (hand_over C conn o rest p).0 conn))
        ≡ count k p.idle + count k (conn ∷ [])
  unfolding hand_over
  return_connection-owned k conn none rest p = omega (arith, count-append k p.idle (conn ∷ []))
  return_connection-owned k conn (some w) rest p = omega arith

  Step-owned : (k : ℕ) {s t : System C} → Step C s t → owned k t ≡ owned k s
  unfolding asks runs get_connection return_connection release
  Step-owned k {s} (ask w) = omega (
    arith,
    get_connection-owned k w s.pool s.pool.idle,
    count-conns-append k (granted (take_idle C w s.pool.idle s.pool).0 w) s.lent,
  )
  Step-owned k {s} (let_go before after l e) = omega (
    arith,
    ap (λ ls. count k (conns ls)) e,
    count-conns-append k before (l ∷ after),
    count-conns-append k before after,
    count-append k s.posted (l.conn ∷ []),
  )
  Step-owned k {s} (run conn rest e) = omega (
    arith,
    ap (count k) e,
    return_connection-owned k conn (C.try_send s.pool.waiters).0 (C.try_send s.pool.waiters).1
        s.pool,
    count-conns-append k
        (resumed
          (hand_over C conn (C.try_send s.pool.waiters).0 (C.try_send s.pool.waiters).1 s.pool).0
          conn)
        s.lent,
  )

  Reach-owned : (k : ℕ) {s t : System C} → Reach C s t → owned k t ≡ owned k s
  Reach-owned k here = refl
  Reach-owned k (next r st) = Step-owned k st ∙ Reach-owned k r

  -- Whatever the coroutines do, each connection of the pool is, as often as the pool was given it,
  -- idle, lent, or on its way back: none is lost and none is made up.
  pub Reach-start-owned :
      (k : ℕ) (pool : List ℕ) (chan : C.Chan) {t : System C}
      → Reach C (start C pool chan) t
      → count k t.pool.idle + count k (conns t.lent) + count k t.posted ≡ count k pool
  Reach-start-owned k pool chan r = omega (arith, Reach-owned k r)

  -- Two leases that stand at different places of the list never share a connection, if the pool
  -- was given each connection at most once.
  pub Reach-exclusive :
      (pool : List ℕ) (chan : C.Chan) {t : System C} (a b c : List Lease) (l m : Lease)
      → ((k : ℕ) → count k pool ≤ 1)
      → Reach C (start C pool chan) t
      → t.lent ≡ a ++ l ∷ (b ++ m ∷ c)
      → l.conn ≢ m.conn
  Reach-exclusive pool chan {t} a b c l m once r e same = omega (
    arith,
    Reach-start-owned l.conn pool chan r,
    once l.conn,
    ap (λ ls. count l.conn (conns ls)) e,
    count-conns-append l.conn a (l ∷ (b ++ m ∷ c)),
    count-conns-append l.conn b (m ∷ c),
    count_here l.conn l.conn refl,
    count_here l.conn m.conn same,
  )
