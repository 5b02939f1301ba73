-- ===== src/Repository/Cache.antt =====
-- The part of RedisClient that the repositories use, and what a working cache promises. Entries
-- that run out are removed by the server between calls.
use photon_commerce.Base.{String, Option, some, ◌≡◌, if◌then◌else◌, Expected, value, ret, Await}
use photon_commerce.Base.Int.{ℤ}
use photon_commerce.Redis.{RedisError}
use text.Mathlib.Text.{◌==◌ as str_eq}

pub record Cache (S : Type 0) : Type 0 where
  pub set_expiring : String → String → ℤ → Await S (Expected (Unit {0}) RedisError)
  pub get : String → Await S (Expected (Option String) RedisError)

pub record IsCache {S : Type 0} (cache : Cache S) : Type 1 where
  pub IsUp : S → Type 0
  pub entries : S → String → Option String
  pub set-entries :
      (s : S) (k v : String) (expiry : ℤ)
      → IsUp s
      → ((cache.set_expiring k v expiry s).0 ≡ ret (value tt))
        × IsUp (cache.set_expiring k v expiry s).1
        × ((j : String)
            → entries (cache.set_expiring k v expiry s).1 j
              ≡ (if str_eq k j then some v else entries s j))
  pub get-entries :
      (s : S) (k : String)
      → IsUp s
      → ((cache.get k s).0 ≡ ret (value (entries s k)))
        × IsUp (cache.get k s).1
        × ((j : String) → entries (cache.get k s).1 j ≡ entries s j)
