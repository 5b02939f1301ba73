-- ===== src/Repository/Users/Concurrent.antt =====
-- GetUserById as its coroutines run, each from one co_await to the next, with those of other calls,
-- of CreateUser and of the expiry of cache entries in between
-- (UserService/infrastructure/domain_implement/src/user_repository.cc).
pub mod Coherence
pub mod Interleaved
use photon_commerce.Base.{
  String, Option, none, some, List, [], ◌∷◌, ◌≡◌, refl, ap, ◌∙◌, arith, Expected, value, unexpected,
  Outcome, ret, thrown, Await, Outcome-cases, inl, inr, get_elem?, ℕ, zero, suc,
}
use photon_commerce.Domain.Json.{JsonLib}
use photon_commerce.Domain.Repositories.{DbError, UserRepository}
use photon_commerce.Domain.User.{User}
use photon_commerce.Domain.User.Serial.{to_json}
use photon_commerce.Redis.{RedisError}
use photon_commerce.Repository.Cache.{Cache}
use photon_commerce.Repository.Users.{
  user_key, hit, write_back, populate, from_database, or_database, get_user_by_id,
}

abbrev pub Result : Type 0
Result = Outcome (Expected (Option User) DbError)

-- Where a call of GetUserById for an id stands: what it awaits next, or how it ended.
pub data Stage : Type 0 where
  asks_cache asks_database : String → Stage
  writes : String → User → Stage
  done : String → Result → Stage

module _ {S : Type 0} (J : JsonLib) (cache : Cache S) (dao : UserRepository S) where
  after_hit : String → Option User → Stage
  after_hit id none = asks_database id
  after_hit id (some u) = done id (ret (value (some u)))

  after_cache : String → Outcome (Expected (Option String) RedisError) → Stage
  unfolding after_hit
  after_cache id (thrown e) = done id (thrown e)
  after_cache id (ret reply) = after_hit id (hit J reply)

  after_database : String → Result → Stage
  after_database id (thrown e) = done id (thrown e)
  after_database id (ret (unexpected e)) = done id (ret (unexpected e))
  after_database id (ret (value none)) = done id (ret (value none))
  after_database id (ret (value (some u))) = writes id u

  after_write : String → User → Outcome (Unit {0}) → Stage
  after_write id u (thrown e) = done id (thrown e)
  after_write id u (ret _) = done id (ret (value (some u)))

  -- What the call awaits, and what it goes on to.
  unfoldable pub advance : Stage → S → Stage × S
  unfolding after_cache after_database after_write write_back
  advance (asks_cache id) s = let out = cache.get (user_key id) s in (after_cache id out.0, out.1)
  advance (asks_database id) s =
      let out = dao.get_user_by_id id s in (after_database id out.0, out.1)
  advance (writes id u) s =
      let out = write_back J cache dao id u (J.dump (to_json J u)) s in
      (after_write id u out.0, out.1)
  advance (done id r) s = (done id r, s)

  abbrev pub advanced : Stage × S → Stage × S
  advanced p = advance p.0 p.1

  ended : String → Result × S → Stage × S
  ended id out = (done id out.0, out.1)

  advance-writes :
      (id : String) (u : User) (s : S)
      → advance (writes id u) s ≡ ended id (populate J cache dao id (value (some u)) s)
  unfolding advance ended populate
  advance-writes id u s =
      elim (Outcome-cases (write_back J cache dao id u (J.dump (to_json J u)) s).0) [
        | inl (x, e) ↦ rw e refl
        | inr (ex, e) ↦ rw e refl
      ]

  advance-asks_database :
      (id : String) (s : S)
      → advanced (advance (asks_database id) s) ≡ ended id (from_database J cache dao id s)
  unfolding advance ended from_database
  advance-asks_database id s = elim (Outcome-cases (dao.get_user_by_id id s).0) [
    | inl (unexpected err, e) ↦ rw e refl
    | inl (value none, e) ↦ rw e refl
    | inl (value (some u), e) ↦ rw e (advance-writes id u (dao.get_user_by_id id s).1)
    | inr (ex, e) ↦ rw e refl
  ]

  advance-after_hit :
      (id : String) (o : Option User) (s : S)
      → advanced (advance (after_hit id o) s) ≡ ended id (or_database J cache dao id o s)
  unfolding advance ended or_database
  advance-after_hit id none s = advance-asks_database id s
  advance-after_hit id (some u) s = refl

  -- The calls that run, and what they share.
  pub record System : Type 0 where
    pub calls : List Stage
    pub state : S

  abbrev pub put : ℕ → Stage → List Stage → List Stage
  put i c [] = []
  put zero c (d ∷ cs) = c ∷ cs
  put (suc i) c (d ∷ cs) = d ∷ put i c cs

  module _ (expire : String → S → S) where
    -- A call starts, a call goes on, another coroutine creates a user, or the entry of a key has
    -- run out, and the Redis server expires it.
    pub data Step (s : System) : System → Type 0 where
      starts : (id : String) → Step s (record s { calls = asks_cache id ∷ s.calls })
      goes_on :
          (i : ℕ) (c : Stage)
          → get_elem? s.calls i ≡ some c
          → Step s (record {
            calls = put i (advance c s.state).0 s.calls;
            state = (advance c s.state).1;
          })
      creates : (u : User) → Step s (record s { state = (dao.create_user u s.state).1 })
      expires : (key : String) → Step s (record s { state = expire key s.state })

    pub data Reach (s : System) : System → Type 0 where
      here : Reach s s
      next : {t u : System} → Reach s t → Step t u → Reach s u

  -- A call by itself, from co_await to co_await, is GetUserById.
  pub advance-get_user_by_id :
      (id : String) (s : S)
      → advanced (advanced (advance (asks_cache id) s))
        ≡ (done id (get_user_by_id J cache dao id s).0, (get_user_by_id J cache dao id s).1)
  unfolding advance ended get_user_by_id or_database
  advance-get_user_by_id id s = elim (Outcome-cases (cache.get (user_key id) s).0) [
    | inl (reply, e) ↦ rw e (advance-after_hit id (hit J reply) (cache.get (user_key id) s).1)
    | inr (ex, e) ↦ rw e refl
  ]
