-- ===== src/Postgres/Dao.antt =====
-- UserService/infrastructure/persistence/dao/user_dao.cc, over the connections of the pool and the
-- C library.
pub mod Stored
pub mod Table
pub mod Rows
use Prim.Native.String.{◌++◌}
use photon_commerce.Base.{
  ℕ, zero, suc, String, Option, none, some, Bool, true, false, not, List, [], ◌∷◌, value_or,
  if◌then◌else◌, Expected, value, unexpected, Outcome, ret, thrown, Await, pure, ◌>>=◌,
}
use photon_commerce.Base.Int.{ℤ, pos}
use photon_commerce.Base.Decimal.{to_string}
use photon_commerce.Domain.Repositories.{DbError, UserRepository}
use photon_commerce.Domain.User.{User, TimePoint, status_of_int}
use photon_commerce.Domain.User.Serial.{of_seconds}
use text.Mathlib.Text.{◌==◌ as str_eq}

-- `exec` takes a connection of the pool, runs AsyncExecParams on it and gives it back. `Result`
-- is what a PGResultPtr holds, and `ntuples`, `get_value` and `get_is_null` read it, by row and
-- column. `stoi` may throw, and `strptime` is the time in seconds that strptime and timegm read,
-- if any.
pub record DaoLib (S : Type 0) : Type 1 where
  pub Result : Type 0
  pub exec : String → List String → Await S (Expected Result DbError)
  pub ntuples : Result → ℕ
  pub get_value : Result → ℕ → ℕ → String
  pub get_is_null : Result → ℕ → ℕ → Bool
  pub stoi : String → Outcome ℤ
  pub strptime : String → Option ℤ

abbrev pub insert_sql : String
insert_sql =
    "INSERT INTO users (id, phone_number, username, email, password_hash, salt, avatar_url, status) VALUES ($1, $2, $3, $4, $5, $6, $7, $8)"

abbrev pub select_by_id_sql : String
select_by_id_sql =
    "SELECT id, phone_number, username, email, password_hash, salt, avatar_url, status, created_at FROM users WHERE id = $1 AND deleted_at IS NULL LIMIT 1"

abbrev pub select_by_phone_sql : String
select_by_phone_sql =
    "SELECT id, phone_number, username, email, password_hash, salt, avatar_url, status, created_at FROM users WHERE phone_number = $1 AND deleted_at IS NULL LIMIT 1"

-- The parameters of the INSERT.
unfoldable pub insert_params : User → List String
insert_params user =
    user.id
    ∷ user.phone_number
    ∷ value_or user.username ""
    ∷ value_or user.email ""
    ∷ user.password_hash
    ∷ user.salt
    ∷ value_or user.avatar_url ""
    ∷ to_string user.status.underlying
    ∷ []

module _ {S : Type 0} (lib : DaoLib S) where
  open lib use {Result, exec, ntuples, get_value, get_is_null, stoi, strptime}

  unfoldable pub parse_postgres_timestamp : String → TimePoint
  parse_postgres_timestamp text =
      if str_eq text ""
      then pos 0
      else elim (strptime text) [ none ↦ pos 0 | some t ↦ of_seconds t ]

  -- `if (!PQgetisnull(res, row, col)) field = PQgetvalue(res, row, col)`.
  abbrev column : Result → ℕ → ℕ → Option String
  column res row col = if get_is_null res row col then none else some (get_value res row col)

  row_with_status : Result → ℕ → Outcome ℤ → Outcome User
  unfolding parse_postgres_timestamp
  row_with_status res row (thrown e) = thrown e
  row_with_status res row (ret status) = ret (record {
    id = get_value res row 0;
    phone_number = get_value res row 1;
    username = column res row 2;
    email = column res row 3;
    password_hash = get_value res row 4;
    salt = get_value res row 5;
    avatar_url = column res row 6;
    status = status_of_int status;
    created_at = parse_postgres_timestamp (get_value res row 8);
    deleted_at = none;
  })

  -- `MapRowToUser`, which throws where the status is no number.
  unfoldable pub map_row_to_user : Result → ℕ → Outcome User
  unfolding row_with_status
  map_row_to_user res row = row_with_status res row (stoi (get_value res row 7))

  inserted : Expected Result DbError → Expected (Unit {0}) DbError
  inserted (unexpected e) = unexpected e
  inserted (value _) = value tt

  unfoldable pub create_user : User → Await S (Expected (Unit {0}) DbError)
  unfolding inserted insert_params
  create_user user = do pure (inserted (← exec insert_sql (insert_params user)))

  abbrev found_user : Outcome User → Await S (Expected (Option User) DbError)
  found_user (ret user) s = (ret (value (some user)), s)
  found_user (thrown e) s = (thrown e, s)

  -- The first row, if there is one.
  first_user : Expected Result DbError → Await S (Expected (Option User) DbError)
  unfolding map_row_to_user
  first_user (unexpected e) = pure (unexpected e)
  first_user (value res) = elim (ntuples res) [
    | zero ↦ pure (value none)
    | suc n ↦ found_user (map_row_to_user res 0)
  ]

  unfoldable pub get_user_by_id : String → Await S (Expected (Option User) DbError)
  unfolding first_user
  get_user_by_id id = exec select_by_id_sql (id ∷ []) >>= first_user

  unfoldable pub get_user_by_phone_number : String → Await S (Expected (Option User) DbError)
  unfolding first_user
  get_user_by_phone_number phone_number =
      exec select_by_phone_sql (phone_number ∷ []) >>= first_user

  abbrev pub user_dao : UserRepository S
  user_dao = record {
    create_user = create_user;
    get_user_by_id = get_user_by_id;
    get_user_by_phone_number = get_user_by_phone_number;
  }
