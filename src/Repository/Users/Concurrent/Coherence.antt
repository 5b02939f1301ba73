-- ===== src/Repository/Users/Concurrent/Coherence.antt =====
-- One step of a call of GetUserById, in any state that is coherent.
use photon_commerce.Base.{
  String, Option, none, some, List, [], ◌∷◌, ◌≡◌, refl, sym, ap, ◌∙◌, ◌⊎◌, inl, inr, value,
  unexpected, ret, thrown, All, some_inj, false, Bool-cases,
}
use photon_commerce.Base.Int.{pos}
use photon_commerce.Domain.Json.{JsonLib, IsJsonLib}
use photon_commerce.Domain.Repositories.{UserRepository}
use photon_commerce.Domain.User.{User}
use photon_commerce.Domain.User.Serial.{to_json}
use photon_commerce.Domain.User.RoundTrip.{cached}
use photon_commerce.Repository.Cache.{Cache, IsCache}
use photon_commerce.Repository.Users.{user_key, hit, write_back}
use photon_commerce.Repository.Users.CacheAside.{
  Database, IsCoherent, IsCoherent-same, cached?, hit-cached, write_back-IsCoherent,
}
use photon_commerce.Repository.Users.Concurrent.{
  Result, Stage, asks_cache, asks_database, writes, done, after_hit, after_cache, after_database,
  after_write, advance,
}
use photon_commerce.Repository.Users.Created.{HasPrimaryKey}

module _ {S : Type 0} (J : JsonLib) (laws : IsJsonLib J) (cache : Cache S) (works : IsCache cache)
    (dao : UserRepository S) (database : Database works dao) (keyed : HasPrimaryKey database) where
  open works use {IsUp, entries}
  open database use {users}

  abbrev Coherent : S → Type 0
  Coherent = IsCoherent J laws cache works dao database

  -- How a call may end: with a user that is in the database, or what the cache keeps of it, or
  -- with none; with an error only for a text that is no id, and never with an exception.
  abbrev pub IsResult : S → String → Result → Type 0
  IsResult s id (thrown e) = ⊥
  IsResult s id (ret (unexpected e)) = database.is_id id ≡ false
  IsResult s id (ret (value none)) = Unit
  IsResult s id (ret (value (some u))) =
      (v : User) × (users s id ≡ some v) × ((u ≡ v) ⊎ (u ≡ cached v))

  -- What holds of a call: what it is about to write into the cache is in the database.
  abbrev pub IsRight : S → Stage → Type 0
  IsRight s (asks_cache id) = Unit
  IsRight s (asks_database id) = Unit
  IsRight s (writes id u) = users s id ≡ some u
  IsRight s (done id r) = IsResult s id r

  -- No user of the database changes or goes.
  abbrev pub Grows : S → S → Type 0
  Grows s t = (id : String) (v : User) → users s id ≡ some v → users t id ≡ some v

  IsResult-Grows :
      (s t : S) (id : String) (r : Result) → Grows s t → IsResult s id r → IsResult t id r
  IsResult-Grows s t id (thrown e) g v = v
  IsResult-Grows s t id (ret (unexpected e)) g v = v
  IsResult-Grows s t id (ret (value none)) g v = v
  IsResult-Grows s t id (ret (value (some u))) g (v, known, same) = (v, g id v known, same)

  IsRight-Grows : (s t : S) (c : Stage) → Grows s t → IsRight s c → IsRight t c
  IsRight-Grows s t (asks_cache id) g v = v
  IsRight-Grows s t (asks_database id) g v = v
  IsRight-Grows s t (writes id u) g v = g id u v
  IsRight-Grows s t (done id r) g v = IsResult-Grows s t id r g v

  pub All-Grows : (s t : S) (cs : List Stage) → Grows s t → All (IsRight s) cs → All (IsRight t) cs
  All-Grows s t [] g v = tt
  All-Grows s t (c ∷ cs) g (v, vs) = (IsRight-Grows s t c g v, All-Grows s t cs g vs)

  -- What a step of a call keeps.
  abbrev pub Keeps : S → Stage × S → Type 0
  Keeps s out = IsUp out.1 × Coherent out.1 × Grows s out.1 × IsRight out.1 out.0

  after_hit-IsRight :
      (s : S) (id : String) (o : Option User)
      → ((u : User) → o ≡ some u → some u ≡ cached? (users s id))
      → IsRight s (after_hit J cache dao id o)
  unfolding after_hit
  after_hit-IsRight s id none h = tt
  after_hit-IsRight s id (some u) h = from_cached (users s id) refl (h u refl)
    where
      from_cached :
          (o : Option User)
          → users s id ≡ o
          → some u ≡ cached? o
          → (v : User) × (users s id ≡ some v) × ((u ≡ v) ⊎ (u ≡ cached v))
      from_cached none e q = cc
      from_cached (some v) e q = (v, e, inr (some_inj q))

  asks_cache-Keeps :
      (s : S) (id : String) → IsUp s → Coherent s → Keeps s (advance J cache dao (asks_cache id) s)
  unfolding advance after_cache
  asks_cache-Keeps s id up c =
      let (answered, up', kept) = works.get-entries s (user_key id) up in
      let view = database.cache_get-users s (user_key id) in
      let c' = IsCoherent-same J laws cache works dao database s _ kept view c in
      let g : Grows s (cache.get (user_key id) s).1 = λ j v known. view j ∙ known in
      let right : (u : User)
          → hit J (value (entries s (user_key id))) ≡ some u
          → some u ≡ cached? (users (cache.get (user_key id) s).1 id) =
        λ u e.
          hit-cached J laws cache works dao database s id u (entries s (user_key id)) c refl e
          ∙ ap cached? (sym (view id)) in
      rw answered
        (up', c', g, after_hit-IsRight _ id (hit J (value (entries s (user_key id)))) right)

  after_database-IsRight :
      (s : S) (id : String) (o : Option User)
      → users s id ≡ o
      → IsRight s (after_database J cache dao id (ret (value o)))
  unfolding after_database
  after_database-IsRight s id none e = tt
  after_database-IsRight s id (some u) e = e

  asks_database-Keeps :
      (s : S) (id : String)
      → IsUp s
      → Coherent s
      → Keeps s (advance J cache dao (asks_database id) s)
  unfolding advance after_database
  asks_database-Keeps s id up c = elim (Bool-cases (database.is_id id)) [
    | inl good ↦
        let (answered, up', kept, view) = database.get-users s id up good in
        let c' = IsCoherent-same J laws cache works dao database s _ kept view c in
        let g : Grows s (dao.get_user_by_id id s).1 = λ j v known. view j ∙ known in
        rw answered (up', c', g, after_database-IsRight _ id (users s id) (view id))
    | inr bad ↦
        let (e, failed, up', kept, view) = database.get-malformed s id up bad in
        let c' = IsCoherent-same J laws cache works dao database s _ kept view c in
        let g : Grows s (dao.get_user_by_id id s).1 = λ j v known. view j ∙ known in
        rw failed (up', c', g, bad)
  ]

  write_back-users :
      (s : S) (id : String) (u : User) (text : Option String) (j : String)
      → IsUp s
      → users (write_back J cache dao id u text s).1 j ≡ users s j
  unfolding write_back
  write_back-users s id u none j up = refl
  write_back-users s id u (some text) j up =
      rw (works.set-entries s (user_key id) text (pos 3600) up).0
        (database.cache_set-users s (user_key id) text j (pos 3600))

  writes-Keeps :
      (s : S) (id : String) (u : User)
      → IsUp s
      → Coherent s
      → users s id ≡ some u
      → Keeps s (advance J cache dao (writes id u) s)
  unfolding advance after_write
  writes-Keeps s id u up c known =
      let (written, up', c') =
        write_back-IsCoherent J laws cache works dao database s id u (J.dump (to_json J u)) up c
          known refl in
      let view = λ (j : String). write_back-users s id u (J.dump (to_json J u)) j up in
      rw written (up', c', λ j v was. view j ∙ was, (u, view id ∙ known, inl refl))

  done-Keeps :
      (s : S) (id : String) (r : Result)
      → IsUp s
      → Coherent s
      → IsResult s id r
      → Keeps s (advance J cache dao (done id r) s)
  unfolding advance
  done-Keeps s id r up c v = (up, c, λ j w known. known, v)

  pub advance-Keeps :
      (s : S) (c : Stage) → IsUp s → Coherent s → IsRight s c → Keeps s (advance J cache dao c s)
  advance-Keeps s (asks_cache id) up c v = asks_cache-Keeps s id up c
  advance-Keeps s (asks_database id) up c v = asks_database-Keeps s id up c
  advance-Keeps s (writes id u) up c v = writes-Keeps s id u up c v
  advance-Keeps s (done id r) up c v = done-Keeps s id r up c v
