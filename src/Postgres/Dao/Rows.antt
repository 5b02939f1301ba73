-- ===== src/Postgres/Dao/Rows.antt =====
-- What UserDao makes of the rows of the table.
use photon_commerce.Base.{
  ℕ, zero, suc, subst, Outcome-cases, inl, inr, String, Option, none, some, true, false, [], ◌∷◌,
  ◌≡◌, refl, sym, ap, ◌∙◌, arith, value_or, if◌then◌else◌, Expected, value, unexpected, Outcome,
  ret, thrown, some_inj,
}
use photon_commerce.Base.Decimal.{to_string}
use photon_commerce.Base.Int.{ℤ}
use photon_commerce.Domain.Repositories.{DbError}
use photon_commerce.Domain.User.{User}
use photon_commerce.Domain.User.RoundTrip.{IsInt16, status_of_int-of_IsInt16}
use photon_commerce.Postgres.Dao.{
  DaoLib, insert_sql, select_by_id_sql, select_by_phone_sql, parse_postgres_timestamp,
  map_row_to_user, row_with_status, get_user_by_id, first_user,
}
use photon_commerce.Postgres.Dao.Table.{
  Row, text_of, inserted_columns, selected_columns, insert_text, select_text, HasCell, Selected,
  UserTable,
}

-- The statements of UserDao give and ask for these columns, in this order, and select by the id.
pub insert_sql-insert_text : insert_sql ≡ insert_text inserted_columns
unfolding to_string
insert_sql-insert_text = refl

pub select_by_id_sql-select_text : select_by_id_sql ≡ select_text selected_columns "id"
select_by_id_sql-select_text = refl

select_by_phone_sql-select_text : select_by_phone_sql ≡ select_text selected_columns "phone_number"
select_by_phone_sql-select_text = refl

module _ {S : Type 0} (lib : DaoLib S) where
  -- The user of a row, whose status is this number.
  abbrev pub user_with : Row → ℤ → User
  user_with row n = record {
    id = text_of row "id";
    phone_number = text_of row "phone_number";
    username = row "username";
    email = row "email";
    password_hash = text_of row "password_hash";
    salt = text_of row "salt";
    avatar_url = row "avatar_url";
    status = record { underlying = n };
    created_at = parse_postgres_timestamp lib (text_of row "created_at");
    deleted_at = none;
  }

  abbrev pub user_read : Row → Outcome ℤ → Option User
  user_read row (ret n) = some (user_with row n)
  user_read row (thrown e) = none

  abbrev pub user? : Option Row → Option User
  user? none = none
  user? (some row) = user_read row (lib.stoi (text_of row "status"))

  value-HasCell :
      (res : lib.Result) (i : ℕ) (o : Option String)
      → HasCell lib res i o
      → lib.get_value res 0 i ≡ value_or o ""
  value-HasCell res i none c = c.1
  value-HasCell res i (some t) c = c.1

  column-HasCell :
      (res : lib.Result) (i : ℕ) (o : Option String)
      → HasCell lib res i o
      → (if lib.get_is_null res 0 i then none else some (lib.get_value res 0 i)) ≡ o
  column-HasCell res i none c = rw c.0 refl
  column-HasCell res i (some t) c = rw (c.0, c.1) refl

  map_row_to_user-Selected :
      (res : lib.Result) (row : Row) (n : ℤ)
      → IsInt16 n
      → lib.stoi (text_of row "status") ≡ ret n
      → Selected lib res selected_columns (some row)
      → map_row_to_user lib res 0 ≡ ret (user_with row n)
  unfolding map_row_to_user row_with_status
  map_row_to_user-Selected res row n fits number (one, c) =
      let status = value-HasCell res 7 _ c.1.1.1.1.1.1.1.0 in
      rw
        (
          status,
          number,
          row_with_status,
          value-HasCell res 0 (row "id") c.0,
          value-HasCell res 1 (row "phone_number") c.1.0,
          column-HasCell res 2 (row "username") c.1.1.0,
          column-HasCell res 3 (row "email") c.1.1.1.0,
          value-HasCell res 4 (row "password_hash") c.1.1.1.1.0,
          value-HasCell res 5 (row "salt") c.1.1.1.1.1.0,
          column-HasCell res 6 (row "avatar_url") c.1.1.1.1.1.1.0,
          value-HasCell res 8 (row "created_at") c.1.1.1.1.1.1.1.1.0,
          status_of_int-of_IsInt16 n fits,
        )
        refl

  first_user-state : (r : Expected lib.Result DbError) (s : S) → (first_user lib r s).1 ≡ s
  unfolding first_user
  first_user-state (unexpected e) s = refl
  first_user-state (value res) s = of_count (lib.ntuples res) refl
    where
      of_count : (n : ℕ) → lib.ntuples res ≡ n → (first_user lib (value res) s).1 ≡ s
      of_count zero e = ground (arith, e)
      of_count (suc n) e = elim (Outcome-cases (map_row_to_user lib res 0)) [
        | inl (u, mapped) ↦ ground (arith, e, mapped)
        | inr (ex, failed) ↦ ground (arith, e, failed)
      ]

  pub get_user_by_id-state :
      (id : String) (s : S)
      → (get_user_by_id lib id s).1 ≡ (lib.exec (select_text selected_columns "id") (id ∷ []) s).1
  unfolding get_user_by_id
  get_user_by_id-state id s = elim (Outcome-cases (lib.exec select_by_id_sql (id ∷ []) s).0) [
    | inl (r, e) ↦ rw e (first_user-state r (lib.exec select_by_id_sql (id ∷ []) s).1)
    | inr (ex, e) ↦ rw e refl
  ]

  module _ (table : UserTable lib) where
    abbrev pub users : S → String → Option User
    users s id = user? (table.rows s id)

    first_user-Selected :
        (res : lib.Result) (s : S) (id : String) (o : Option Row) (s' : S)
        → table.rows s id ≡ o
        → Selected lib res selected_columns o
        → (first_user lib (value res) s').0 ≡ ret (value (user? o))
    unfolding first_user
    first_user-Selected res s id none s' held empty = ground (arith, empty)
    first_user-Selected res s id (some row) s' held sel =
        let (n, fits, number) = table.status-rows s id row held in
        let mapped = map_row_to_user-Selected res row n fits number sel in
        ground (arith, sel.0, mapped) ∙ ap (λ x. ret (value (user_read row x))) (sym number)

    -- UserDao reads the user of the row with the id, if there is one.
    pub get_user_by_id-users :
        (s : S) (id : String)
        → table.IsUp s
        → table.is_id id ≡ true
        → (get_user_by_id lib id s).0 ≡ ret (value (users s id))
    unfolding get_user_by_id
    get_user_by_id-users s id up good =
        let (res, selected, sel) = table.select-rows s id up good in
        rw selected (first_user-Selected res s id (table.rows s id) _ refl sel)

    pub get_user_by_id-malformed :
        (s : S) (id : String)
        → table.IsUp s
        → table.is_id id ≡ false
        → (e : DbError) × ((get_user_by_id lib id s).0 ≡ ret (unexpected e))
    unfolding get_user_by_id first_user
    get_user_by_id-malformed s id up bad =
        let (e, failed) = table.select-malformed s id up bad in (e, rw failed refl)

    pub IsInt16-users :
        (s : S) (id : String) (u : User) → users s id ≡ some u → IsInt16 u.status.underlying
    IsInt16-users s id u e = of_row (table.rows s id) refl e
      where
        of_row :
            (o : Option Row) → table.rows s id ≡ o → user? o ≡ some u → IsInt16 u.status.underlying
        of_row none held none_read = cc
        of_row (some row) held read =
            let (n, fits, number) = table.status-rows s id row held in
            let same = some_inj (rw (number) at read) in
            subst (λ v. IsInt16 v.status.underlying) same fits
