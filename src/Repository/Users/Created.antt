-- ===== src/Repository/Users/Created.antt =====
-- UserRepository after CreateUser: the cache holds nothing of the new user, and GetUserById finds
-- the row that was inserted.
use photon_commerce.Base.{
  String, Option, none, some, true, false, Expected, unexpected, ◌≡◌, sym, ap, ◌∙◌, inl, inr, ◌⊎◌,
  value, ret, Bool-cases,
}
use photon_commerce.Domain.Json.{JsonLib, IsJsonLib}
use photon_commerce.Domain.Repositories.{DbError, UserRepository}
use photon_commerce.Domain.Stores.{SameIdentity, UserStore}
use photon_commerce.Domain.User.{User}
use photon_commerce.Domain.User.RoundTrip.{cached}
use photon_commerce.Repository.Cache.{Cache, IsCache}
use photon_commerce.Repository.Users.{user_key, get_user_by_id, user_repository}
use photon_commerce.Repository.Users.CacheAside.{
  Database, IsCoherent, IsReply, IsCoherent-same, cached?, get_user_by_id-IsCoherent,
}

-- The table of users, whose primary key is the id, and which no INSERT takes from the cache.
module _ {S : Type 0} {cache : Cache S} {works : IsCache cache} {dao : UserRepository S}
    (database : Database works dao) where
  -- A row was inserted: there was none with the id, there is one now, with the identity that was
  -- given if the database keeps that, and all others are as they were.
  pub record IsInserted (s : S) (u : User) (t : S) : Type 0 where
    pub absent : database.users s u.id ≡ none
    pub row : User
    pub present : database.users t u.id ≡ some row
    pub same : database.is_kept u ≡ true → SameIdentity u row
    pub others :
        (id : String) → database.same_id u.id id ≡ false → database.users t id ≡ database.users s id

  -- An INSERT inserts a row or none, whatever its result; if it reports success, it did.
  pub record HasPrimaryKey : Type 0 where
    pub create-IsUp : (s : S) (u : User) → works.IsUp s → works.IsUp (dao.create_user u s).1
    pub create-entries :
        (s : S) (u : User) (k : String)
        → works.entries (dao.create_user u s).1 k ≡ works.entries s k
    pub create-users :
        (s : S) (u : User)
        → IsInserted s u (dao.create_user u s).1
          ⊎ ((id : String) → database.users (dao.create_user u s).1 id ≡ database.users s id)
    pub create-IsInserted :
        (s : S) (u : User)
        → works.IsUp s
        → (dao.create_user u s).0 ≡ ret (value tt)
        → IsInserted s u (dao.create_user u s).1

SameIdentity-cached : (u v : User) → SameIdentity u v → SameIdentity u (cached v)
SameIdentity-cached u v same = record {
  id = same.id;
  phone_number = same.phone_number;
  password_hash = same.password_hash;
  salt = same.salt;
}

module _ {S : Type 0} (J : JsonLib) (laws : IsJsonLib J) (cache : Cache S) (works : IsCache cache)
    (dao : UserRepository S) (database : Database works dao) (keyed : HasPrimaryKey database) where
  abbrev Coherent : S → Type 0
  Coherent = IsCoherent J laws cache works dao database

  IsInserted-IsCoherent :
      (s t : S) (u : User)
      → ((k : String) → works.entries t k ≡ works.entries s k)
      → IsInserted database s u t
      → Coherent s
      → Coherent t
  IsInserted-IsCoherent s t u kept ins c id text w held read =
      let (v, known, same) = c id text w (sym (kept (user_key id)) ∙ held) read in
      elim (Bool-cases (database.same_id u.id id)) [
        | inl here ↦ cc (ins.absent, database.same_id-users s u.id id here, known)
        | inr other ↦ (v, ins.others id other ∙ known, same)
      ]

  -- No CreateUser makes the cache incoherent, whatever its result.
  pub create_user-IsCoherent : (s : S) (u : User) → Coherent s → Coherent (dao.create_user u s).1
  create_user-IsCoherent s u c = elim (keyed.create-users s u) [
    | inl ins ↦ IsInserted-IsCoherent s _ u (keyed.create-entries s u) ins c
    | inr same ↦
        IsCoherent-same J laws cache works dao database s _ (keyed.create-entries s u) same c
  ]

  found_as :
      (s : S) (u v : User) (r : Expected (Option User) DbError)
      → database.is_id u.id ≡ true
      → database.users s u.id ≡ some v
      → SameIdentity u v
      → IsReply J laws cache works dao database s u.id r
      → (w : User) × (r ≡ value (some w)) × SameIdentity u w
  found_as s u v (unexpected e) good known same bad = cc
  found_as s u v (value a) good known same (inl e) = (v, ap value (e ∙ known), same)
  found_as s u v (value a) good known same (inr e) =
      (cached v, ap value (e ∙ ap cached? known), SameIdentity-cached u v same)

  -- With the cache and the database up, the cache coherent, and the id a primary key of the
  -- database: after a CreateUser that succeeded, of a user that the database keeps as given, the cache is up and coherent, and GetUserById,
  -- which asks the cache first, finds a user with the id, phone number, hash and salt of the one
  -- that was created.
  pub create_user-get_user_by_id :
      (s : S) (u : User)
      → works.IsUp s
      → Coherent s
      → database.is_kept u ≡ true
      → (dao.create_user u s).0 ≡ ret (value tt)
      → let after = (dao.create_user u s).1 in
        works.IsUp after
        × Coherent after
        × ((v : User) × ((get_user_by_id J cache dao u.id after).0 ≡ ret (value (some v)))
            × SameIdentity u v)
  create_user-get_user_by_id s u up c kept done =
      let after = (dao.create_user u s).1 in
      let ins = keyed.create-IsInserted s u up done in
      let up' = keyed.create-IsUp s u up in
      let c' = create_user-IsCoherent s u c in
      let (r, answered, right, up'', c'') =
        get_user_by_id-IsCoherent J laws cache works dao database after u.id up' c' in
      let (w, is_w, same') =
        found_as after u ins.row r (database.is_id-kept u kept) ins.present (ins.same kept) right in
      (up', c', (w, answered ∙ ap ret is_w, same'))

  -- The repository is a user store, in the states in which the cache is up and coherent, if the
  -- database keeps every user as given.
  abbrev pub user_repository-store :
      ((u : User) → database.is_kept u ≡ true) → UserStore (user_repository J cache dao)
  user_repository-store keeps = record {
    IsUp = λ s. works.IsUp s × Coherent s;
    create-get = λ s u up fits done. (create_user-get_user_by_id s u up.0 up.1 (keeps u) done).2;
  }
