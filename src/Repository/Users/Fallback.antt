-- ===== src/Repository/Users/Fallback.antt =====
-- UserRepository::GetUserById where the cache does not help.
use photon_commerce.Base.{
  String, Option, none, some, ◌≡◌, refl, inl, inr, arith, Expected, value, unexpected, ret,
  Outcome-cases,
}
use photon_commerce.Base.Int.{ℤ, pos}
use photon_commerce.Domain.Json.{JsonLib}
use photon_commerce.Domain.Repositories.{DbError, UserRepository}
use photon_commerce.Domain.User.{User}
use photon_commerce.Domain.User.Serial.{to_json}
use photon_commerce.Redis.{RedisError}
use photon_commerce.Repository.Cache.{Cache}
use photon_commerce.Repository.Users.{
  user_key, hit, get_user_by_id, or_database, from_database, populate, write_back,
}

module _ {S : Type 0} (J : JsonLib) (cache : Cache S) (dao : UserRepository S) where
  write_back-ret :
      (id : String) (u : User) (t : Option String) (s : S)
      → ((k v : String) (expiry : ℤ) (s' : S)
          → (r : Expected (Unit {0}) RedisError) × ((cache.set_expiring k v expiry s').0 ≡ ret r))
      → (write_back J cache dao id u t s).0 ≡ ret tt
  unfolding write_back
  write_back-ret id u none s returns = refl
  write_back-ret id u (some text) s returns =
      ground (arith, (returns (user_key id) text (pos 3600) s).1)

  populate-ret :
      (id : String) (found : Expected (Option User) DbError) (s : S)
      → ((k v : String) (expiry : ℤ) (s' : S)
          → (r : Expected (Unit {0}) RedisError) × ((cache.set_expiring k v expiry s').0 ≡ ret r))
      → (populate J cache dao id found s).0 ≡ ret found
  unfolding populate
  populate-ret id (unexpected e) s returns = refl
  populate-ret id (value none) s returns = refl
  populate-ret id (value (some u)) s returns =
      ground (arith, write_back-ret id u (J.dump (to_json J u)) s returns)

  from_database-outcome :
      (id : String) (s : S)
      → ((k v : String) (expiry : ℤ) (s' : S)
          → (r : Expected (Unit {0}) RedisError) × ((cache.set_expiring k v expiry s').0 ≡ ret r))
      → (from_database J cache dao id s).0 ≡ (dao.get_user_by_id id s).0
  unfolding from_database
  from_database-outcome id s returns = elim (Outcome-cases (dao.get_user_by_id id s).0) [
    | inl (found, e) ↦ rw e (populate-ret id found _ returns)
    | inr (ex, e) ↦ rw e
  ]

  -- The cache is no point of failure: where it reports an error, misses, or holds an entry that
  -- cannot be decoded, the answer is that of the database, its error or exception included, as
  -- long as writes into the cache return.
  pub get_user_by_id-fallback :
      (id : String) (s : S) (reply : Expected (Option String) RedisError)
      → ((k v : String) (expiry : ℤ) (s' : S)
          → (r : Expected (Unit {0}) RedisError) × ((cache.set_expiring k v expiry s').0 ≡ ret r))
      → (cache.get (user_key id) s).0 ≡ ret reply
      → hit J reply ≡ none
      → (get_user_by_id J cache dao id s).0
        ≡ (dao.get_user_by_id id (cache.get (user_key id) s).1).0
  unfolding get_user_by_id or_database
  get_user_by_id-fallback id s reply returns e miss =
      rw (e, miss, or_database) (from_database-outcome id _ returns)
