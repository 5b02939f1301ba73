-- ===== src/Postgres/Dao/Table.antt =====
-- The table of UserService/init_sql, as the statements of UserDao address it: by the names of its
-- columns.
use Prim.Native.String.{◌++◌}
use photon_commerce.Base.{
  ℕ, suc, String, Option, none, some, Bool, true, false, List, [], ◌∷◌, ◌≡◌, ◌⊎◌, value_or,
  if◌then◌else◌, value, unexpected, ret,
}
use photon_commerce.Base.Int.{ℤ, pos}
use photon_commerce.Base.Decimal.{to_string}
use photon_commerce.Domain.Repositories.{DbError}
use photon_commerce.Domain.User.RoundTrip.{IsInt16}
use photon_commerce.Postgres.Dao.{DaoLib}
use text.Mathlib.Text.{◌==◌ as str_eq}

-- The columns whose values an INSERT of a user gives, and those that a SELECT of one asks for.
abbrev pub inserted_columns : List String
inserted_columns =
    "id" ∷ "phone_number" ∷ "username" ∷ "email" ∷ "password_hash" ∷ "salt" ∷ "avatar_url"
    ∷ "status" ∷ []

abbrev pub selected_columns : List String
selected_columns =
    "id" ∷ "phone_number" ∷ "username" ∷ "email" ∷ "password_hash" ∷ "salt" ∷ "avatar_url"
    ∷ "status" ∷ "created_at" ∷ []

abbrev pub comma_separated : List String → String
comma_separated [] = ""
comma_separated (t ∷ []) = t
comma_separated (t ∷ (u ∷ us)) = t ++ ", " ++ comma_separated (u ∷ us)

-- "$1", "$2" and so on, one for each column.
abbrev pub placeholders : ℕ → List String → List String
placeholders n [] = []
placeholders n (c ∷ cs) = ("$" ++ to_string (pos n)) ∷ placeholders (suc n) cs

-- The statement that inserts a row with the parameters in these columns.
abbrev pub insert_text : List String → String
insert_text columns =
    "INSERT INTO users ("
    ++ comma_separated columns
    ++ ") VALUES ("
    ++ comma_separated (placeholders 1 columns)
    ++ ")"

-- The statement that selects these columns of a row that was not deleted, by the value of one.
abbrev pub select_text : List String → String → String
select_text columns key =
    "SELECT "
    ++ comma_separated columns
    ++ " FROM users WHERE "
    ++ key
    ++ " = $1 AND deleted_at IS NULL LIMIT 1"

-- A row gives each column its text, or none for NULL.
abbrev pub Row : Type 0
Row = String → Option String

-- The row that has these texts in these columns.
abbrev pub row_of : List String → List String → Row
row_of [] texts column = none
row_of (c ∷ cs) [] column = none
row_of (c ∷ cs) (t ∷ ts) column = if str_eq c column then some t else row_of cs ts column

-- The text of a column, "" for NULL.
abbrev pub text_of : Row → String → String
text_of row column = value_or (row column) ""

module _ {S : Type 0} (lib : DaoLib S) where
  -- A cell of the first row of a result.
  abbrev pub HasCell : lib.Result → ℕ → Option String → Type 0
  HasCell res i none = (lib.get_is_null res 0 i ≡ true) × (lib.get_value res 0 i ≡ "")
  HasCell res i (some t) = (lib.get_is_null res 0 i ≡ false) × (lib.get_value res 0 i ≡ t)

  abbrev pub HasCells : lib.Result → Row → ℕ → List String → Type 0
  HasCells res row i [] = Unit
  HasCells res row i (c ∷ cs) = HasCell res i (row c) × HasCells res row (suc i) cs

  -- The result of a SELECT that asked for these columns.
  abbrev pub Selected : lib.Result → List String → Option Row → Type 0
  Selected res columns none = lib.ntuples res ≡ 0
  Selected res columns (some row) = (lib.ntuples res ≡ 1) × HasCells res row 0 columns

  -- What the database does for the statements, through a connection of the pool: `rows` are the rows
  -- that were not deleted by the text of their id, `is_id` are the texts that the column of ids
  -- takes, `same_id` those that stand for the same id, and `is_kept` the parameters that read back
  -- as they were written. `IsUp` holds of the states in which a SELECT is answered.
  pub record UserTable : Type 1 where
    pub IsUp : S → Type 0
    pub rows : S → String → Option Row
    pub is_id : String → Bool
    pub same_id : String → String → Bool
    pub is_kept : List String → Bool
    pub same_id-rows : (s : S) (a b : String) → same_id a b ≡ true → rows s a ≡ rows s b
    pub status-rows :
        (s : S) (id : String) (row : Row)
        → rows s id ≡ some row
        → (n : ℤ) × IsInt16 n × (lib.stoi (text_of row "status") ≡ ret n)
    pub select-rows :
        (s : S) (id : String)
        → IsUp s
        → is_id id ≡ true
        → (res : lib.Result) × ((lib.exec (select_text selected_columns "id") (id ∷ []) s).0
            ≡ ret (value res))
          × Selected res selected_columns (rows s id)
    pub select-malformed :
        (s : S) (id : String)
        → IsUp s
        → is_id id ≡ false
        → (e : DbError) × ((lib.exec (select_text selected_columns "id") (id ∷ []) s).0
            ≡ ret (unexpected e))
    pub select-IsUp :
        (s : S) (id : String)
        → IsUp s
        → IsUp (lib.exec (select_text selected_columns "id") (id ∷ []) s).1
    pub rows-select :
        (s : S) (id j : String)
        → rows (lib.exec (select_text selected_columns "id") (id ∷ []) s).1 j ≡ rows s j
    pub insert-IsUp :
        (s : S) (texts : List String)
        → IsUp s
        → IsUp (lib.exec (insert_text inserted_columns) texts s).1

  -- An INSERT of these texts has inserted a row: there was none with the id, there is one now, with
  -- the texts in their columns if they are kept, and all others are as they were.
  pub record HasInserted (table : UserTable) (s : S) (texts : List String) (t : S) : Type 0 where
    pub absent : table.rows s (text_of (row_of inserted_columns texts) "id") ≡ none
    pub row : Row
    pub present : table.rows t (text_of (row_of inserted_columns texts) "id") ≡ some row
    pub cells :
        table.is_kept texts ≡ true
        → (column text : String) → row_of inserted_columns texts column ≡ some text
        → row column ≡ some text
    pub others :
        (id : String)
        → table.same_id (text_of (row_of inserted_columns texts) "id") id ≡ false
        → table.rows t id ≡ table.rows s id

  -- The id is the primary key: an INSERT inserts a row or nothing, whatever its result; if it
  -- reports success, it did.
  pub record IsKeyed (table : UserTable) : Type 0 where
    pub insert-rows :
        (s : S) (texts : List String)
        → let t = (lib.exec (insert_text inserted_columns) texts s).1 in
          HasInserted table s texts t ⊎ ((id : String) → table.rows t id ≡ table.rows s id)
    pub insert-done :
        (s : S) (texts : List String) (res : lib.Result)
        → table.IsUp s
        → (lib.exec (insert_text inserted_columns) texts s).0 ≡ ret (value res)
        → HasInserted table s texts (lib.exec (insert_text inserted_columns) texts s).1
    pub is_id-kept :
        (texts : List String)
        → table.is_kept texts ≡ true
        → table.is_id (text_of (row_of inserted_columns texts) "id") ≡ true
