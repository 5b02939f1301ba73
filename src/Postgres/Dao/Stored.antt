-- ===== src/Postgres/Dao/Stored.antt =====
-- A user that UserDao inserted and reads back.
use photon_commerce.Base.{
  String, none, some, true, ◌≡◌, refl, ap, ◌∙◌, inl, inr, arith, value_or, value, unexpected, ret,
  Outcome-cases,
}
use photon_commerce.Base.Decimal.{to_string}
use photon_commerce.Base.Int.{ℤ}
use photon_commerce.Domain.Stores.{SameIdentity}
use photon_commerce.Domain.User.{User, TimePoint}
use photon_commerce.Postgres.Dao.{
  DaoLib, insert_sql, insert_params, parse_postgres_timestamp, create_user, get_user_by_id,
  inserted,
}
use photon_commerce.Postgres.Dao.Table.{
  text_of, row_of, inserted_columns, insert_text, UserTable, HasInserted, IsKeyed,
}
use photon_commerce.Postgres.Dao.Rows.{user_with, user_read, user?, users, get_user_by_id-users}

module _ {S : Type 0} (lib : DaoLib S) where
  create_user-inserted :
      (s : S) (u : User)
      → (create_user lib u s).0 ≡ ret (value tt)
      → (done : lib.Result) × ((lib.exec (insert_text inserted_columns) (insert_params u) s).0
          ≡ ret (value done))
  unfolding create_user inserted to_string
  create_user-inserted s u h = elim (Outcome-cases (lib.exec insert_sql (insert_params u) s).0) [
    | inl (value done, e) ↦ (done, e)
    | inl (unexpected err, e) ↦ ground (arith, e)
    | inr (ex, e) ↦ ground (arith, e)
  ]

  pub create_user-state :
      (s : S) (u : User)
      → (create_user lib u s).1 ≡ (lib.exec (insert_text inserted_columns) (insert_params u) s).1
  unfolding create_user to_string
  create_user-state s u = elim (Outcome-cases (lib.exec insert_sql (insert_params u) s).0) [
    | inl (r, e) ↦ rw e refl
    | inr (ex, e) ↦ rw e refl
  ]

  module _ (table : UserTable lib) (keyed : IsKeyed lib table) where
    -- A row that was inserted is a user.
    pub users-HasInserted :
        (s t : S) (u : User) (ins : HasInserted lib table s (insert_params u) t)
        → (n : ℤ) × (users lib table t u.id ≡ some (user_with lib ins.row n))
          × (lib.stoi (text_of ins.row "status") ≡ ret n)
    unfolding insert_params
    users-HasInserted s t u ins =
        let (n, fits, number) = table.status-rows t u.id ins.row ins.present in
        (n, ap (user? lib) ins.present ∙ ap (user_read lib ins.row) number, number)

    -- If the texts are kept, it has the identity that was given.
    pub SameIdentity-HasInserted :
        (s t : S) (u : User) (ins : HasInserted lib table s (insert_params u) t) (n : ℤ)
        → table.is_kept (insert_params u) ≡ true
        → SameIdentity u (user_with lib ins.row n)
    unfolding insert_params
    SameIdentity-HasInserted s t u ins n kept =
        let cell = λ (c x : String) (h : row_of inserted_columns (insert_params u) c ≡ some x).
          ap (λ o. value_or o "") (ins.cells kept c x h) in
        record {
          id = cell "id" u.id refl;
          phone_number = cell "phone_number" u.phone_number refl;
          password_hash = cell "password_hash" u.password_hash refl;
          salt = cell "salt" u.salt refl;
        }

    pub inserted-create_user :
        (s : S) (u : User)
        → table.IsUp s
        → (create_user lib u s).0 ≡ ret (value tt)
        → HasInserted lib table s
            (insert_params u)
            (lib.exec (insert_text inserted_columns) (insert_params u) s).1
    inserted-create_user s u up h =
        let (done, e) = create_user-inserted s u h in
        keyed.insert-done s (insert_params u) done up e

    -- A user as it comes back, with a time of creation of the database.
    abbrev pub read_back : User → TimePoint → User
    read_back u created = record u {
      username = some (value_or u.username "");
      email = some (value_or u.email "");
      avatar_url = some (value_or u.avatar_url "");
      created_at = created;
      deleted_at = none;
    }

    user_with-HasInserted :
        (s t : S) (u : User) (ins : HasInserted lib table s (insert_params u) t)
        → table.is_kept (insert_params u) ≡ true
        → user_with lib ins.row u.status.underlying
          ≡ read_back u (parse_postgres_timestamp lib (text_of ins.row "created_at"))
    unfolding insert_params
    user_with-HasInserted s t u ins kept =
        rw
          (
            ins.cells kept "id" u.id refl,
            ins.cells kept "phone_number" u.phone_number refl,
            ins.cells kept "username" (value_or u.username "") refl,
            ins.cells kept "email" (value_or u.email "") refl,
            ins.cells kept "password_hash" u.password_hash refl,
            ins.cells kept "salt" u.salt refl,
            ins.cells kept "avatar_url" (value_or u.avatar_url "") refl,
          )
          refl

    users-read_back :
        (s t : S) (u : User) (ins : HasInserted lib table s (insert_params u) t)
        → lib.stoi (to_string u.status.underlying) ≡ ret u.status.underlying
        → table.is_kept (insert_params u) ≡ true
        → users lib table t u.id
          ≡ some (read_back u (parse_postgres_timestamp lib (text_of ins.row "created_at")))
    unfolding insert_params
    users-read_back s t u ins readable kept =
        let (n, found, number) = users-HasInserted s t u ins in
        let written = ins.cells kept "status" (to_string u.status.underlying) refl in
        let given = ap (λ o. lib.stoi (value_or o "")) written ∙ readable in
        let same : n ≡ u.status.underlying = cc (number, given) in
        found
        ∙ ap (λ m. some (user_with lib ins.row m)) same
        ∙ ap some (user_with-HasInserted s t u ins kept)

    -- Over a table that answers, whose primary key is the id and which keeps the parameters of the
    -- INSERT, a user whose INSERT succeeded, and whose status std::stoi reads back as std::to_string
    -- wrote it, is found by its id, with every field read from the column that it was written to:
    -- with the id, phone number, hash, salt and status that it was created with, and with its
    -- profile fields set, to "" where they were missing.
    pub get_user_by_id-create_user :
        (s : S) (u : User)
        → table.IsUp s
        → lib.stoi (to_string u.status.underlying) ≡ ret u.status.underlying
        → table.is_kept (insert_params u) ≡ true
        → (create_user lib u s).0 ≡ ret (value tt)
        → (created : TimePoint) × ((get_user_by_id lib u.id (create_user lib u s).1).0
            ≡ ret (value (some (read_back u created))))
    unfolding insert_params
    get_user_by_id-create_user s u up readable kept h =
        let t = (lib.exec (insert_text inserted_columns) (insert_params u) s).1 in
        let ins = inserted-create_user s u up h in
        let up' = table.insert-IsUp s (insert_params u) up in
        let good = keyed.is_id-kept (insert_params u) kept in
        (
          parse_postgres_timestamp lib (text_of ins.row "created_at"),
          ap (λ x. (get_user_by_id lib u.id x).0) (create_user-state s u)
              ∙ get_user_by_id-users lib table t u.id up' good
              ∙ ap (λ o. ret (value o)) (users-read_back s t u ins readable kept),
        )
