-- ===== src/Repository/Users/OverDao.antt =====
-- UserRepository over UserDao: the table of users behind UserDao is a database with the id as its
-- primary key.
use photon_commerce.Base.{String, List, [], ◌∷◌, true, ◌≡◌, sym, ap, ◌∙◌, ◌⊎◌, inl, inr, subst}
use photon_commerce.Base.Int.{ℤ}
use photon_commerce.Domain.User.{User}
use photon_commerce.Postgres.Dao.{DaoLib, user_dao, insert_params, get_user_by_id}
use photon_commerce.Postgres.Dao.Table.{
  selected_columns, inserted_columns, select_text, insert_text, UserTable, HasInserted, IsKeyed,
}
use photon_commerce.Postgres.Dao.Rows.{
  user?, user_with, users, get_user_by_id-state, get_user_by_id-users, get_user_by_id-malformed,
  IsInt16-users,
}
use photon_commerce.Postgres.Dao.Stored.{
  create_user-state, users-HasInserted, SameIdentity-HasInserted, inserted-create_user,
}
use photon_commerce.Repository.Cache.{Cache, IsCache}
use photon_commerce.Repository.Users.CacheAside.{Database}
use photon_commerce.Repository.Users.Created.{IsInserted, HasPrimaryKey}

-- The Redis server and the database do not change each other, and where the first is up, so is the
-- second.
pub record Apart {S : Type 0} {cache : Cache S} (works : IsCache cache) (lib : DaoLib S)
    (table : UserTable lib) : Type 0 where
  pub both_up : (s : S) → works.IsUp s → table.IsUp s
  pub exec-IsUp :
      (s : S) (sql : String) (params : List String)
      → works.IsUp s
      → works.IsUp (lib.exec sql params s).1
  pub exec-entries :
      (s : S) (sql k : String) (params : List String)
      → works.entries (lib.exec sql params s).1 k ≡ works.entries s k
  pub get-rows : (s : S) (k id : String) → table.rows (cache.get k s).1 id ≡ table.rows s id
  pub set-rows :
      (s : S) (k v id : String) (expiry : ℤ)
      → table.rows (cache.set_expiring k v expiry s).1 id ≡ table.rows s id

module _ {S : Type 0} {cache : Cache S} (works : IsCache cache) (lib : DaoLib S)
    (table : UserTable lib) (keyed : IsKeyed lib table) (apart : Apart works lib table) where
  abbrev pub read : S → String → S
  read s id = (lib.exec (select_text selected_columns "id") (id ∷ []) s).1

  abbrev pub wrote : S → User → S
  wrote s u = (lib.exec (insert_text inserted_columns) (insert_params u) s).1

  -- What a look-up leaves.
  pub read-kept :
      (s : S) (id : String)
      → works.IsUp s
      → let t = (get_user_by_id lib id s).1 in
        works.IsUp t
        × ((j : String) → works.entries t j ≡ works.entries s j)
        × ((j : String) → users lib table t j ≡ users lib table s j)
  read-kept s id up =
      let same = sym (get_user_by_id-state lib id s) in
      (
        subst works.IsUp same (apart.exec-IsUp s _ _ up),
        λ j. ap (λ t. works.entries t j) (sym same) ∙ apart.exec-entries s _ j _,
        λ j. ap (λ t. users lib table t j) (sym same) ∙ ap (user? lib) (table.rows-select s id j),
      )

  pub is_id-insert_params :
      (u : User) → table.is_kept (insert_params u) ≡ true → table.is_id u.id ≡ true
  unfolding insert_params
  is_id-insert_params u kept = keyed.is_id-kept (insert_params u) kept

  abbrev pub user_dao-Database : Database works (user_dao lib)
  user_dao-Database = record {
    users = users lib table;
    is_id = table.is_id;
    same_id = table.same_id;
    is_kept = λ u. table.is_kept (insert_params u);
    same_id-users = λ s a b same. ap (user? lib) (table.same_id-rows s a b same);
    is_id-kept = is_id-insert_params;
    get-malformed = λ s id up bad.
        let (e, failed) = get_user_by_id-malformed lib table s id (apart.both_up s up) bad in
        let kept = read-kept s id up in (e, failed, kept.0, kept.1, kept.2);
    get-users = λ s id up good.
        let kept = read-kept s id up in
        (get_user_by_id-users lib table s id (apart.both_up s up) good, kept.0, kept.1, kept.2);
    cache_get-users = λ s k id. ap (user? lib) (apart.get-rows s k id);
    cache_set-users = λ s k v id expiry. ap (user? lib) (apart.set-rows s k v id expiry);
    IsInt16-users = λ s id u e. IsInt16-users lib table s id u e;
  }

  pub IsInserted-HasInserted :
      (s t : S) (u : User)
      → HasInserted lib table s (insert_params u) t
      → IsInserted user_dao-Database s u t
  unfolding insert_params
  IsInserted-HasInserted s t u ins =
      let (n, present, number) = users-HasInserted lib table keyed s t u ins in
      record {
        absent = ap (user? lib) ins.absent;
        row = user_with lib ins.row n;
        present = present;
        same = λ kept. SameIdentity-HasInserted lib table keyed s t u ins n kept;
        others = λ id other. ap (user? lib) (ins.others id other);
      }

  pub create_user-users :
      (s : S) (u : User)
      → IsInserted user_dao-Database s u (wrote s u)
        ⊎ ((id : String) → users lib table (wrote s u) id ≡ users lib table s id)
  create_user-users s u = elim (keyed.insert-rows s (insert_params u)) [
    | inl ins ↦ inl (IsInserted-HasInserted s (wrote s u) u ins)
    | inr same ↦ inr (λ id. ap (user? lib) (same id))
  ]

  abbrev pub After : S → User → S → Type 0
  After s u t =
      IsInserted user_dao-Database s u t
      ⊎ ((id : String) → users lib table t id ≡ users lib table s id)

  abbrev pub user_dao-HasPrimaryKey : HasPrimaryKey user_dao-Database
  user_dao-HasPrimaryKey = record {
    create-IsUp =
        λ s u up. subst works.IsUp (sym (create_user-state lib s u)) (apart.exec-IsUp s _ _ up);
    create-entries = λ s u k.
        ap (λ t. works.entries t k) (create_user-state lib s u) ∙ apart.exec-entries s _ k _;
    create-users =
        λ s u. subst (After s u) (sym (create_user-state lib s u)) (create_user-users s u);
    create-IsInserted = λ s u up done.
        subst (IsInserted user_dao-Database s u) (sym (create_user-state lib s u)) (
          IsInserted-HasInserted s (wrote s u) u
            (inserted-create_user lib table keyed s u (apart.both_up s up) done));
  }
