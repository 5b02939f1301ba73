-- ===== src/Domain/Repositories.antt =====
-- UserService/domain/interface and infrastructure/persistence/postgresql/include/db_error.h: what
-- the services are given. `S` is the state behind the repositories.
use photon_commerce.Base.{ℕ, String, Option, Await, Expected}
use photon_commerce.Domain.User.{User}
use photon_commerce.Service.Model.{CodeUsage}

pub data DbErrorType : Type 0 where
  network_error sql_execution_error : DbErrorType

pub record DbError : Type 0 where
  pub type : DbErrorType
  pub pg_error_message : String
  pub sql_state : String

pub record UserRepository (S : Type 0) : Type 0 where
  pub create_user : User → Await S (Expected (Unit {0}) DbError)
  pub get_user_by_id : String → Await S (Expected (Option User) DbError)
  pub get_user_by_phone_number : String → Await S (Expected (Option User) DbError)

-- The expiry is in seconds.
pub record VerificationCodeRepository (S : Type 0) : Type 0 where
  pub save_code : CodeUsage → String → String → ℕ → Await S (Unit {0})
  pub get_code : CodeUsage → String → Await S (Option String)
