-- ===== src/Repository/Users.antt =====
-- UserService/infrastructure/domain_implement/src/user_repository.cc.
pub mod Fallback
pub mod CacheAside
pub mod Created
pub mod OverDao
pub mod Concurrent
use Prim.Native.String.{◌++◌}
use photon_commerce.Base.{
  ℕ, String, Option, none, some, Expected, value, unexpected, Outcome, ret, Await, pure, ◌>>=◌,
  ◌>>◌, try_catch,
}
use photon_commerce.Base.Int.{pos}
use photon_commerce.Domain.Json.{JsonLib}
use photon_commerce.Domain.Repositories.{DbError, UserRepository}
use photon_commerce.Domain.User.{User}
use photon_commerce.Domain.User.Serial.{to_json, from_json}
use photon_commerce.Redis.{RedisError}
use photon_commerce.Repository.Cache.{Cache}

unfoldable pub user_key : String → String
user_key id = "user:info:" ++ id

-- `parse`, and `FromJson` of what was not discarded.
unfoldable pub decode : JsonLib → String → Option User
decode J text = elim (J.parse text) [ none ↦ none | some j ↦ from_json J j ]

-- The user that a reply of the cache holds; none for a miss, for an entry that does not parse and
-- for an error.
unfoldable pub hit : JsonLib → Expected (Option String) RedisError → Option User
unfolding decode
hit J (unexpected e) = none
hit J (value none) = none
hit J (value (some text)) = decode J text

-- `dao` stands for UserDao, which has the same three operations.
module _ {S : Type 0} (J : JsonLib) (cache : Cache S) (dao : UserRepository S) where
  -- The write into the cache: an exception of `dump` or of the cache and an error of the cache
  -- are logged, and nothing else.
  pub write_back : String → User → Option String → Await S (Unit {0})
  write_back id u none = pure tt
  write_back id u (some text) =
      try_catch (do result ← cache.set_expiring (user_key id) text (pos 3600); pure tt)
        (λ what. pure tt)

  populate : String → Expected (Option User) DbError → Await S (Expected (Option User) DbError)
  unfolding write_back
  populate id (unexpected e) = pure (unexpected e)
  populate id (value none) = pure (value none)
  populate id (value (some u)) = do write_back id u (J.dump (to_json J u)); pure (value (some u))

  from_database : String → Await S (Expected (Option User) DbError)
  unfolding populate
  from_database id = dao.get_user_by_id id >>= populate id

  or_database : String → Option User → Await S (Expected (Option User) DbError)
  unfolding from_database
  or_database id none = from_database id
  or_database id (some u) = pure (value (some u))

  unfoldable pub get_user_by_id : String → Await S (Expected (Option User) DbError)
  unfolding or_database
  get_user_by_id id = do reply ← cache.get (user_key id); or_database id (hit J reply)

  abbrev pub user_repository : UserRepository S
  user_repository = record {
    create_user = dao.create_user;
    get_user_by_id = get_user_by_id;
    get_user_by_phone_number = dao.get_user_by_phone_number;
  }
