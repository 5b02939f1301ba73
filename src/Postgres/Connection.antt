-- ===== src/Postgres/Connection.antt =====
-- UserService/infrastructure/persistence/postgresql/src/pq_connection.cc, over libpq and the
-- socket. A loop runs on fuel, and `none` says that the fuel is spent.
pub mod Drain
use Prim.Native.String.{◌++◌, slice}
use text.Mathlib.Text.{find?}
use photon_commerce.Base.{
  ℕ, zero, suc, String, Option, none, some, Bool, true, false, List, [], ◌∷◌, value_or, Expected,
  value, unexpected, Exception, std_exception, Outcome, ret, thrown, Await,
}
use photon_commerce.Domain.Repositories.{DbError, sql_execution_error}

pub data PollingStatus : Type 0 where
  polling_writing polling_reading polling_ok : PollingStatus
  polling_other : PollingStatus

pub data ExecStatus : Type 0 where
  command_ok tuples_ok bad_response fatal_error : ExecStatus
  other_status : ExecStatus

-- `W` holds the connection and its socket. The flags of libpq are numbers: `send_query_params`
-- and `consume_input` give 0 for a failure, `is_busy` 0 once a result can be taken.
-- `connect_start` tells whether there is a connection whose status is not bad.
pub record PqLib (W : Type 0) : Type 1 where
  pub Result : Type 0
  pub connect_start : String → W → Bool × W
  pub connect_poll : W → PollingStatus × W
  pub wait_write : Await W (Unit {0})
  pub wait_read : Await W (Unit {0})
  pub send_query_params : String → List String → W → ℕ × W
  pub consume_input : W → ℕ × W
  pub is_busy : W → ℕ × W
  pub get_result : W → Option Result × W
  pub error_message : W → String
  pub result_status : Result → ExecStatus
  pub result_error_message : Result → String
  pub result_sql_state : Result → Option String

-- What a C function reads of the `c_str()` of a text: up to its first NUL.
abbrev pub c_str : String → String
c_str text = elim (find? text "\0") [ none ↦ text | some at ↦ slice text 0 at ]

abbrev pub c_strs : List String → List String
c_strs [] = []
c_strs (p ∷ ps) = c_str p ∷ c_strs ps

module _ {W : Type 0} (lib : PqLib W) where
  open lib use {Result}

  abbrev pub Run : Type 0 → Type 0
  Run A = Option (Outcome A × W)

  -- A run that failed with `what` and the message of the connection.
  abbrev broken : {A : Type 0} → String → W → Run A
  broken what w = some (thrown (std_exception (what ++ lib.error_message w)), w)

  abbrev and_then : {A B : Type 0} → Outcome A × W → (A → W → Run B) → Run B
  and_then (ret a, w) k = k a w
  and_then (thrown e, w) k = some (thrown e, w)

  poll_connection : ℕ → W → Run (Unit {0})
  poll_connection zero w = none
  poll_connection (suc fuel) w = elim (lib.connect_poll w).0 [
    | polling_writing ↦
        and_then (lib.wait_write (lib.connect_poll w).1) (λ _ w'. poll_connection fuel w')
    | polling_reading ↦
        and_then (lib.wait_read (lib.connect_poll w).1) (λ _ w'. poll_connection fuel w')
    | polling_ok ↦ some (ret tt, (lib.connect_poll w).1)
    | polling_other ↦ broken "Async connection failed: " (lib.connect_poll w).1
  ]

  unfoldable pub async_connect : ℕ → String → W → Run (Unit {0})
  unfolding poll_connection
  async_connect fuel conn_str w = elim (lib.connect_start conn_str w).0 [
    | true ↦ poll_connection fuel (lib.connect_start conn_str w).1
    | false ↦ broken "Connection failed: " (lib.connect_start conn_str w).1
  ]

  -- `PQsendQueryParams` with the `c_str()` of the query and of each parameter.
  abbrev pub sent : String → List String → W → ℕ × W
  sent query params = lib.send_query_params (c_str query) (c_strs params)

  unfoldable pub send_query : String → List String → W → Outcome (Unit {0}) × W
  send_query query params w = elim (sent query params w).0 [
    | zero ↦ (
      thrown
          (std_exception ("Failed to send query: " ++ lib.error_message (sent query params w).1)),
      (sent query params w).1,
    )
    | suc n ↦ (ret tt, (sent query params w).1)
  ]

  -- The state in which `AwaitResponse` asks whether the connection is busy.
  abbrev pub consumed : W → ℕ × W
  consumed w = lib.consume_input (lib.wait_read w).1

  unfoldable pub await_response : ℕ → W → Run (Unit {0})
  await_response zero w = none
  await_response (suc fuel) w = elim (lib.wait_read w).0 [
    | thrown e ↦ some (thrown e, (lib.wait_read w).1)
    | ret _ ↦ elim (consumed w).0 [
      | zero ↦ broken "Failed to consume input: " (consumed w).1
      | suc n ↦ elim (lib.is_busy (consumed w).1).0 [
        | zero ↦ some (ret tt, (lib.is_busy (consumed w).1).1)
        | suc b ↦ await_response fuel (lib.is_busy (consumed w).1).1
      ]
    ]
  ]

  -- The first result is the one that is kept.
  abbrev keep_first : Option Result → Result → Option Result
  keep_first none r = some r
  keep_first (some first) r = some first

  unfoldable pub fetch_raw_result : ℕ → Option Result → W → Option (Option Result × W)
  fetch_raw_result zero final w = none
  fetch_raw_result (suc fuel) final w = elim (lib.get_result w).0 [
    | none ↦ some (final, (lib.get_result w).1)
    | some r ↦ fetch_raw_result fuel (keep_first final r) (lib.get_result w).1
  ]

  abbrev sql_error : Result → DbError
  sql_error r = record {
    type = sql_execution_error;
    pg_error_message = lib.result_error_message r;
    sql_state = value_or (lib.result_sql_state r) "";
  }

  -- A null result is none.
  unfoldable pub map_result_to_expected : Option Result → Expected (Option Result) DbError
  map_result_to_expected none = value none
  map_result_to_expected (some r) = elim (lib.result_status r) [
    | bad_response ↦ unexpected (sql_error r)
    | fatal_error ↦ unexpected (sql_error r)
    | tuples_ok ↦ value (some r)
    | command_ok ↦ value (some r)
    | other_status ↦ value none
  ]

  mapped : Option (Option Result × W) → Run (Expected (Option Result) DbError)
  unfolding map_result_to_expected
  mapped none = none
  mapped (some (final, w)) = some (ret (map_result_to_expected final), w)

  fetched : ℕ → Run (Unit {0}) → Run (Expected (Option Result) DbError)
  unfolding mapped fetch_raw_result
  fetched fuel none = none
  fetched fuel (some (thrown e, w)) = some (thrown e, w)
  fetched fuel (some (ret _, w)) = mapped (fetch_raw_result fuel none w)

  answered : ℕ → Outcome (Unit {0}) × W → Run (Expected (Option Result) DbError)
  unfolding fetched await_response
  answered fuel (thrown e, w) = some (thrown e, w)
  answered fuel (ret _, w) = fetched fuel (await_response fuel w)

  unfoldable pub async_exec_params :
      ℕ → String → List String → W → Run (Expected (Option Result) DbError)
  unfolding answered send_query
  async_exec_params fuel query params w = answered fuel (send_query query params w)
