-- ===== src/Redis/RoundRobin.antt =====
-- Which connection serves a request.
use photon_commerce.Base.{
  ℕ, zero, suc, some, List, [], ◌∷◌, length, get_elem?, ◌≡◌, refl, ap, ◌∙◌, ◌+◌, ◌%◌, ◌<◌, arith,
  ret, dec_lt,
}
use photon_commerce.Base.Int.{pos}
use photon_commerce.Redis.{
  RedisLib, RedisState, RedisConfig, get_next_connection, connections_below, make_client, size_mod,
}

connections_below-length :
    (n : ℕ) (conns : List ℕ) → length (connections_below n conns) ≡ n + length conns
unfolding connections_below
connections_below-length zero conns = omega arith
connections_below-length (suc n) conns = omega (arith, connections_below-length n (n ∷ conns))

connections_below-past :
    (n : ℕ) (conns : List ℕ) (i : ℕ)
    → get_elem? (connections_below n conns) (n + i) ≡ get_elem? conns i
unfolding connections_below
connections_below-past zero conns i = ground arith
connections_below-past (suc n) conns i =
    let e : suc n + i ≡ n + suc i = omega arith in
    rw e (connections_below-past n (n ∷ conns) (suc i))

connections_below-get :
    (n : ℕ) (conns : List ℕ) (i : ℕ) → i < n → get_elem? (connections_below n conns) i ≡ some i
unfolding connections_below
connections_below-get zero conns i h = elim h [ ]
connections_below-get (suc n) conns i h = elim (dec_lt i n) [
  | yes below ↦ connections_below-get n (n ∷ conns) i below
  | no top ↦
      let e : i ≡ n + 0 = omega arith in
      rw e (connections_below-past n (n ∷ conns) 0 ∙ ap some (omega arith))
]

make_client-conns :
    (config : RedisConfig) (n : ℕ) (conns : List ℕ)
    → config.pool_size ≡ pos (suc n)
    → make_client config ≡ ret conns
    → conns ≡ connections_below (suc n) []
unfolding make_client
make_client-conns config n conns size made = ground (arith, size, made)

module _ {W : Type 0} (lib : RedisLib W) where
  -- The state after `k` requests have chosen their connections.
  abbrev pub after_requests : List ℕ → ℕ → RedisState W → RedisState W
  after_requests conns zero s = s
  after_requests conns (suc k) s = (get_next_connection lib conns (after_requests conns k s)).1

  counter-after_requests :
      (conns : List ℕ) (k : ℕ) (s : RedisState W)
      → s.request_counter < size_mod
      → (after_requests conns k s).request_counter ≡ (s.request_counter + k) % size_mod
  unfolding get_next_connection
  counter-after_requests conns zero s h = omega arith
  counter-after_requests conns (suc k) s h = omega (arith, counter-after_requests conns k s h)

  -- A client made for a pool of n > 0 connections serves its requests in turn: from a counter
  -- below 2^64, request k, counted from 0, goes to connection (counter + k) mod 2^64 mod n, which
  -- is one of the n.
  pub get_next_connection-round_robin :
      (config : RedisConfig) (n k : ℕ) (s : RedisState W) (conns : List ℕ)
      → config.pool_size ≡ pos (suc n)
      → make_client config ≡ ret conns
      → s.request_counter < size_mod
      → let turn = (s.request_counter + k) % size_mod % suc n in
        ((get_next_connection lib conns (after_requests conns k s)).0 ≡ ret turn)
        × (get_elem? conns turn ≡ some turn)
        × (length conns ≡ suc n)
  unfolding get_next_connection
  get_next_connection-round_robin config n k s conns size made h =
      let turn = (s.request_counter + k) % size_mod % suc n in
      let whole : length (connections_below (suc n) []) ≡ suc n =
        omega (arith, connections_below-length (suc n) []) in
      let here : get_elem? (connections_below (suc n) []) turn ≡ some turn =
        connections_below-get (suc n) [] turn (omega arith) in
      rw (make_client-conns config n conns size made, counter-after_requests _ k s h, whole, here)
        (refl, refl, refl)
