-- ===== src/Postgres/Connection/Drain.antt =====
-- A query on a connection: its loops end, and the connection is free afterwards.
use photon_commerce.Base.{
  ℕ, zero, suc, String, Option, none, some, List, [], ◌∷◌, length, ◌<◌, ◌≡◌, refl, arith, ret,
}
use photon_commerce.Postgres.Connection.{
  PqLib, consumed, await_response, fetch_raw_result, map_result_to_expected, async_exec_params,
  sent, send_query, answered, fetched, mapped,
}

-- The results of a query that are still to be taken: PQgetResult yields them one by one, and then
-- null.
pub record Results {W : Type 0} (lib : PqLib W) : Type 0 where
  pub pending : W → List lib.Result
  pub get_result-nil :
      (w : W) → pending w ≡ [] → ((lib.get_result w).0 ≡ none) × (pending (lib.get_result w).1 ≡ [])
  pub get_result-cons :
      (w : W) (r : lib.Result) (rs : List lib.Result)
      → pending w ≡ r ∷ rs
      → ((lib.get_result w).0 ≡ some r) × (pending (lib.get_result w).1 ≡ rs)

abbrev pub first_of : {A : Type 0} → List A → Option A
first_of [] = none
first_of (r ∷ rs) = some r

module _ {W : Type 0} (lib : PqLib W) where
  -- The response is complete after so many further rounds of waiting and reading, in the state
  -- given.
  pub data Answers : W → ℕ → W → Type 0 where
    complete :
        (w : W) (k : ℕ)
        → (lib.wait_read w).0 ≡ ret tt
        → (consumed lib w).0 ≡ suc k
        → (lib.is_busy (consumed lib w).1).0 ≡ 0
        → Answers w 0 (lib.is_busy (consumed lib w).1).1
    more :
        (w : W) (k b : ℕ) {n : ℕ} {w' : W}
        → (lib.wait_read w).0 ≡ ret tt
        → (consumed lib w).0 ≡ suc k
        → (lib.is_busy (consumed lib w).1).0 ≡ suc b
        → Answers (lib.is_busy (consumed lib w).1).1 n w'
        → Answers w (suc n) w'

  await_response-Answers :
      (fuel n : ℕ) (w w' : W)
      → Answers w n w'
      → n < fuel
      → await_response lib fuel w ≡ some (ret tt, w')
  unfolding await_response
  await_response-Answers zero n w w' a h = absurd (omega arith)
  await_response-Answers (suc fuel) n w w' (complete _ k read more_than idle) h =
      ground (arith, read, more_than, idle)
  await_response-Answers (suc fuel) n w w' (more _ k b {n = m} read more_than busy later) h =
      let rest = await_response-Answers fuel m _ w' later (omega arith) in
      ground (arith, read, more_than, busy, rest)

  send_query-sent :
      (query : String) (params : List String) (w : W) (k : ℕ)
      → (sent lib query params w).0 ≡ suc k
      → send_query lib query params w ≡ (ret tt, (sent lib query params w).1)
  unfolding send_query
  send_query-sent query params w k could = ground (arith, could)

  module _ (results : Results lib) where
    open results use {pending}

    abbrev kept : Option lib.Result → List lib.Result → Option lib.Result
    kept none rs = first_of rs
    kept (some r) rs = some r

    fetch_raw_result-pending :
        (fuel : ℕ) (final : Option lib.Result) (w : W) (rs : List lib.Result)
        → pending w ≡ rs
        → length rs < fuel
        → (w' : W) × (fetch_raw_result lib fuel final w ≡ some (kept final rs, w'))
          × (pending w' ≡ [])
    unfolding fetch_raw_result
    fetch_raw_result-pending zero final w rs e h = absurd (omega arith)
    fetch_raw_result-pending (suc fuel) none w [] e h =
        let (nothing, empty) = results.get_result-nil w e in
        ((lib.get_result w).1, ground (arith, nothing), empty)
    fetch_raw_result-pending (suc fuel) (some r) w [] e h =
        let (nothing, empty) = results.get_result-nil w e in
        ((lib.get_result w).1, ground (arith, nothing), empty)
    fetch_raw_result-pending (suc fuel) none w (r ∷ rs) e h =
        let (got, left) = results.get_result-cons w r rs e in
        let (w', rest, empty) =
          fetch_raw_result-pending fuel (some r) (lib.get_result w).1 rs left (omega arith) in
        (w', ground (arith, got, rest), empty)
    fetch_raw_result-pending (suc fuel) (some first) w (r ∷ rs) e h =
        let (got, left) = results.get_result-cons w r rs e in
        let (w', rest, empty) =
          fetch_raw_result-pending fuel (some first) (lib.get_result w).1 rs left (omega arith) in
        (w', ground (arith, got, rest), empty)

    -- If libpq yields the results of a query one by one and then null, a query that could be sent,
    -- and whose response is complete after n further rounds, ends on fuel above n and above the
    -- number of its results: it yields what its first result maps to, and no result is left on the
    -- connection.
    pub async_exec_params-drained :
        (fuel n k : ℕ) (query : String) (params : List String) (w w' : W)
        → (sent lib query params w).0 ≡ suc k
        → Answers (sent lib query params w).1 n w'
        → n < fuel
        → length (pending w') < fuel
        → (w'' : W) × (async_exec_params lib fuel query params w
            ≡ some (ret (map_result_to_expected lib (first_of (pending w'))), w''))
          × (pending w'' ≡ [])
    unfolding async_exec_params
    async_exec_params-drained fuel n k query params w w' could a h h' =
        let (w'', got, empty) = fetch_raw_result-pending fuel none w' (pending w') refl h' in
        let came = await_response-Answers fuel n _ w' a h in
        (
          w'',
          rw (send_query-sent query params w k could, answered, came, fetched, got, mapped) refl,
          empty,
        )
