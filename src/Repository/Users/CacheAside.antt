-- ===== src/Repository/Users/CacheAside.antt =====
-- What UserRepository::GetUserById returns, and that it keeps the cache in step with the database.
use photon_commerce.Base.{
  String, Option, none, some, ◌≡◌, refl, sym, ◌∙◌, ◌⊎◌, inl, inr, Bool, true, false, Expected,
  value, unexpected, ret, Bool-cases, some_inj,
}
use photon_commerce.Base.Int.{ℤ, pos}
use photon_commerce.Domain.Json.{JsonLib, IsJsonLib}
use photon_commerce.Domain.Repositories.{DbError, UserRepository}
use photon_commerce.Domain.User.{User}
use photon_commerce.Domain.User.Serial.{to_json}
use photon_commerce.Domain.User.RoundTrip.{cached, IsInt16, from_json-to_json}
use photon_commerce.Repository.Cache.{Cache, IsCache}
use photon_commerce.Repository.Users.{
  user_key, decode, hit, get_user_by_id, or_database, from_database, populate, write_back,
}
use text.Mathlib.Text.{◌==◌ as str_eq}
use text.Mathlib.TextEquality.{eq_iff}
use text.Mathlib.TextLemmas.{append_cancel_left}

-- The database behind the DAO: for a text that its column of ids takes, `is_id`, reading it returns
-- the user with the id, and for any other text an error; `same_id` says that two texts are the same
-- id, and `is_kept` that what identifies a user reads back as it was written. The cache and the
-- database leave each other alone, and every status fits its column.
pub record Database {S : Type 0} {cache : Cache S} (works : IsCache cache) (dao : UserRepository S)
    : Type 0 where
  pub users : S → String → Option User
  pub is_id : String → Bool
  pub same_id : String → String → Bool
  pub is_kept : User → Bool
  pub same_id-users : (s : S) (a b : String) → same_id a b ≡ true → users s a ≡ users s b
  pub is_id-kept : (u : User) → is_kept u ≡ true → is_id u.id ≡ true
  pub get-malformed :
      (s : S) (id : String)
      → works.IsUp s
      → is_id id ≡ false
      → (e : DbError) × ((dao.get_user_by_id id s).0 ≡ ret (unexpected e))
        × works.IsUp (dao.get_user_by_id id s).1
        × ((j : String) → works.entries (dao.get_user_by_id id s).1 j ≡ works.entries s j)
        × ((j : String) → users (dao.get_user_by_id id s).1 j ≡ users s j)
  pub get-users :
      (s : S) (id : String)
      → works.IsUp s
      → is_id id ≡ true
      → ((dao.get_user_by_id id s).0 ≡ ret (value (users s id)))
        × works.IsUp (dao.get_user_by_id id s).1
        × ((j : String) → works.entries (dao.get_user_by_id id s).1 j ≡ works.entries s j)
        × ((j : String) → users (dao.get_user_by_id id s).1 j ≡ users s j)
  pub cache_get-users : (s : S) (k id : String) → users (cache.get k s).1 id ≡ users s id
  pub cache_set-users :
      (s : S) (k v id : String) (expiry : ℤ)
      → users (cache.set_expiring k v expiry s).1 id ≡ users s id
  pub IsInt16-users :
      (s : S) (id : String) (u : User) → users s id ≡ some u → IsInt16 u.status.underlying

abbrev pub cached? : Option User → Option User
cached? none = none
cached? (some u) = some (cached u)

user_key_inj : (a b : String) → user_key a ≡ user_key b → a ≡ b
unfolding user_key
user_key_inj a b e = append_cancel_left "user:info:" a b e

module _ {S : Type 0} (J : JsonLib) (laws : IsJsonLib J) (cache : Cache S) (works : IsCache cache)
    (dao : UserRepository S) (database : Database works dao) where
  open works use {IsUp, entries}
  open database use {users}

  -- What the cache holds of a user is what `cached` keeps of the user in the database.
  abbrev pub IsCoherent : S → Type 0
  IsCoherent s =
      (id text : String) (u : User)
      → entries s (user_key id) ≡ some text
      → decode J text ≡ some u
      → (v : User) × (users s id ≡ some v) × (u ≡ cached v)

  pub IsCoherent-same :
      (s t : S)
      → ((j : String) → entries t j ≡ entries s j)
      → ((j : String) → users t j ≡ users s j)
      → IsCoherent s
      → IsCoherent t
  IsCoherent-same s t e u c id text w held read =
      let (v, known, same) = c id text w (sym (e (user_key id)) ∙ held) read in
      (v, u id ∙ known, same)

  decode-dump :
      (v w : User) (text : String)
      → IsInt16 v.status.underlying
      → J.dump (to_json J v) ≡ some text
      → decode J text ≡ some w
      → w ≡ cached v
  unfolding decode
  decode-dump v w text fits dumped read =
      let parsed = laws.parse-dump (to_json J v) text dumped in
      some_inj (sym read ∙ rw (parsed, decode) (from_json-to_json J laws v fits))

  -- Writing the text of a user of the database under the user's id keeps the cache coherent.
  pub IsCoherent-set :
      (s : S) (id : String) (v : User) (text : String)
      → IsUp s
      → IsCoherent s
      → users s id ≡ some v
      → J.dump (to_json J v) ≡ some text
      → IsCoherent (cache.set_expiring (user_key id) text (pos 3600) s).1
  IsCoherent-set s id v text up c known dumped id' text' w held read =
      let (done, up', kept) = works.set-entries s (user_key id) text (pos 3600) up in
      let view = database.cache_set-users s (user_key id) text id' (pos 3600) in
      let now = sym (kept (user_key id')) ∙ held in
      elim (Bool-cases (str_eq (user_key id) (user_key id'))) [
        | inl same ↦
            let here : id ≡ id' = user_key_inj id id' ((eq_iff _ _).0 same) in
            let mine : text ≡ text' = some_inj (rw same at now) in
            let fits = database.IsInt16-users s id v known in
            (v, view ∙ rw (← here) known, decode-dump v w text fits dumped (rw mine read))
        | inr other ↦
            let (u, known', same) = c id' text' w (rw other at now) read in (u, view ∙ known', same)
      ]

  pub hit-cached :
      (s : S) (id : String) (u : User) (o : Option String)
      → IsCoherent s
      → entries s (user_key id) ≡ o
      → hit J (value o) ≡ some u
      → some u ≡ cached? (users s id)
  unfolding hit
  hit-cached s id u none c held e = cc
  hit-cached s id u (some text) c held e =
      let (v, known, same) = c id text u held e in rw (known, same)

  -- What an answer is worth: the database's user, or what the cache keeps of it.
  abbrev pub IsAnswer : S → String → Option User → Type 0
  IsAnswer s id o = (o ≡ users s id) ⊎ (o ≡ cached? (users s id))

  -- An answer, or an error for a text that is no id.
  abbrev pub IsReply : S → String → Expected (Option User) DbError → Type 0
  IsReply s id (value a) = IsAnswer s id a
  IsReply s id (unexpected e) = database.is_id id ≡ false

  pub write_back-IsCoherent :
      (s : S) (id : String) (v : User) (t : Option String)
      → IsUp s
      → IsCoherent s
      → users s id ≡ some v
      → J.dump (to_json J v) ≡ t
      → ((write_back J cache dao id v t s).0 ≡ ret tt)
        × IsUp (write_back J cache dao id v t s).1
        × IsCoherent (write_back J cache dao id v t s).1
  unfolding write_back
  write_back-IsCoherent s id v none up c known dumped = (refl, up, c)
  write_back-IsCoherent s id v (some text) up c known dumped =
      let (done, up', kept) = works.set-entries s (user_key id) text (pos 3600) up in
      rw done (refl, up', IsCoherent-set s id v text up c known dumped)

  populate-IsCoherent :
      (s : S) (id : String) (o : Option User)
      → IsUp s
      → IsCoherent s
      → users s id ≡ o
      → ((populate J cache dao id (value o) s).0 ≡ ret (value o))
        × IsUp (populate J cache dao id (value o) s).1
        × IsCoherent (populate J cache dao id (value o) s).1
  unfolding populate
  populate-IsCoherent s id none up c known = (refl, up, c)
  populate-IsCoherent s id (some v) up c known =
      let (done, up', c') = write_back-IsCoherent s id v _ up c known refl in
      rw done (refl, up', c')

  from_database-IsCoherent :
      (s : S) (id : String)
      → IsUp s
      → IsCoherent s
      → (r : Expected (Option User) DbError) × ((from_database J cache dao id s).0 ≡ ret r)
        × IsReply s id r
        × IsUp (from_database J cache dao id s).1
        × IsCoherent (from_database J cache dao id s).1
  unfolding from_database populate
  from_database-IsCoherent s id up c = elim (Bool-cases (database.is_id id)) [
    | inl good ↦
        let (found, up', kept, view) = database.get-users s id up good in
        let (done, up'', c') =
          populate-IsCoherent _ id (users s id) up' (IsCoherent-same s _ kept view c) (view id) in
        rw found (value (users s id), done, inl refl, up'', c')
    | inr bad ↦
        let (e, failed, up', kept, view) = database.get-malformed s id up bad in
        rw failed (unexpected e, refl, bad, up', IsCoherent-same s _ kept view c)
  ]

  or_database-IsCoherent :
      (s : S) (id : String) (o : Option User)
      → IsUp s
      → IsCoherent s
      → hit J (value (entries s (user_key id))) ≡ o
      → (r : Expected (Option User) DbError) × ((or_database J cache dao id o s).0 ≡ ret r)
        × IsReply s id r
        × IsUp (or_database J cache dao id o s).1
        × IsCoherent (or_database J cache dao id o s).1
  unfolding or_database
  or_database-IsCoherent s id none up c e = from_database-IsCoherent s id up c
  or_database-IsCoherent s id (some u) up c e =
      (value (some u), refl, inr (hit-cached s id u (entries s (user_key id)) c refl e), up, c)

  IsReply-same :
      (s t : S) (id : String) (r : Expected (Option User) DbError)
      → users t id ≡ users s id
      → IsReply t id r
      → IsReply s id r
  IsReply-same s t id (value a) e v = rw e at v
  IsReply-same s t id (unexpected d) e v = v

  -- With the cache and the database up and the cache coherent, GetUserById answers with the
  -- database's user for the id, or nullopt where there is none, up to what `cached` drops, and with
  -- an error only for a text that the database does not take for an id; the cache is coherent
  -- afterwards.
  pub get_user_by_id-IsCoherent :
      (s : S) (id : String)
      → IsUp s
      → IsCoherent s
      → (r : Expected (Option User) DbError) × ((get_user_by_id J cache dao id s).0 ≡ ret r)
        × IsReply s id r
        × IsUp (get_user_by_id J cache dao id s).1
        × IsCoherent (get_user_by_id J cache dao id s).1
  unfolding get_user_by_id
  get_user_by_id-IsCoherent s id up c =
      let (done, up', kept) = works.get-entries s (user_key id) up in
      let view = database.cache_get-users s (user_key id) in
      let same = kept (user_key id) in
      let (r, answered, right, up'', c') =
        or_database-IsCoherent (cache.get (user_key id) s).1 id
          (hit J (value (entries s (user_key id)))) up' (IsCoherent-same s _ kept view c)
          (rw same) in
      rw done (r, answered, IsReply-same s _ id r (view id) right, up'', c')
