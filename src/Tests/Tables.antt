-- ===== src/Tests/Tables.antt =====
-- A table of users and a cache in memory, and a user inserted into the table.
use photon_commerce.Base.{
  ℕ, String, Option, none, some, Bool, true, false, not, List, [], ◌∷◌, ◌≡◌, ◌≢◌, ◌⊎◌, inl, inr,
  refl, sym, ap, ◌∙◌, arith, get_elem?, value_or, if◌then◌else◌, Expected, value, unexpected,
  Outcome, ret, thrown, std_exception, some_inj, Bool-cases, ◌&&◌,
}
use photon_commerce.Base.Int.{ℤ, pos}
use photon_commerce.Base.Decimal.{to_string}
use photon_commerce.Domain.Repositories.{DbError, sql_execution_error}
use photon_commerce.Domain.User.{User, TimePoint}
use photon_commerce.Domain.User.RoundTrip.{IsInt16}
use photon_commerce.Postgres.Dao.{DaoLib, insert_params, create_user, get_user_by_id}
use photon_commerce.Postgres.Dao.Stored.{read_back, get_user_by_id-create_user}
use photon_commerce.Postgres.Dao.Table.{
  Row, text_of, row_of, inserted_columns, selected_columns, insert_text, select_text, UserTable,
  HasInserted, IsKeyed, HasCell, Selected,
}
use photon_commerce.Repository.Cache.{Cache, IsCache}
use photon_commerce.Repository.Users.CacheAside.{
  Database, IsCoherent, IsReply, get_user_by_id-IsCoherent,
}
use photon_commerce.Repository.Users as Users
use photon_commerce.Domain.Stores.{SameIdentity}
use photon_commerce.Tests.Domain.{toy_json, toy_json-laws}
use photon_commerce.Repository.Users.Created.{create_user-get_user_by_id}
use photon_commerce.Repository.Users.OverDao.{Apart, user_dao-Database, user_dao-HasPrimaryKey}
use photon_commerce.Postgres.Dao.{user_dao}
use photon_commerce.Tests.Toy.{alice}
use text.Mathlib.Text.{◌==◌ as str_eq}
use text.Mathlib.TextEquality.{eq_iff}
use text.Mathlib.TextPositions.{eq_refl}

pub record Store : Type 0 where
  pub entries : String → Option String
  pub rows : String → Option Row

abbrev stored_cache : Cache Store
stored_cache = record {
  set_expiring = λ k v expiry s.
      (ret (value tt), record s { entries = λ j. if str_eq k j then some v else s.entries j });
  get = λ k s. (ret (value (s.entries k)), s);
}

abbrev stored_cache_works : IsCache stored_cache
stored_cache_works = record {
  IsUp = λ s. Unit;
  entries = λ s. s.entries;
  set-entries = λ s k v expiry up. (refl, tt, λ j. refl);
  get-entries = λ s k up. (refl, tt, λ j. refl);
}

abbrev failure : DbError
failure = record { type = sql_execution_error; pg_error_message = "failed"; sql_state = "22P02" }

abbrev is_id : String → Bool
is_id id = not (str_eq id "")

abbrev count : Option Row → ℕ
count none = 0
count (some row) = 1

abbrev cell : Option Row → Option String → Option String
cell none c = none
cell (some row) none = none
cell (some row) (some c) = row c

abbrev is_null : Option String → Bool
is_null none = true
is_null (some t) = false

abbrev key : List String → String
key texts = text_of (row_of inserted_columns texts) "id"

-- The status of every row is 0.
abbrev valid : Row → Row
valid row c = if str_eq "status" c then some "0" else row c

abbrev valid? : Option Row → Option Row
valid? none = none
valid? (some row) = some (valid row)

abbrev Answer : Type 0
Answer = Expected (Option Row) DbError

-- An INSERT of a row under an id, of which this row is there already.
abbrev insert : Option Row → List String → Store → Outcome Answer × Store
insert none texts s = (
  ret (value none),
  record s {
    rows = λ j. if str_eq (key texts) j then some (row_of inserted_columns texts) else s.rows j;
  },
)
insert (some row) texts s = (ret (unexpected failure), s)

abbrev first : List String → String
first [] = ""
first (t ∷ ts) = t

abbrev select : Bool → Option Row → Store → Outcome Answer × Store
select true found s = (ret (value (valid? found)), s)
select false found s = (ret (unexpected failure), s)

abbrev exec : String → List String → Store → Outcome Answer × Store
exec sql texts s =
    if str_eq sql (select_text selected_columns "id")
    then select (is_id (first texts)) (s.rows (first texts)) s
    else (if str_eq sql (insert_text inserted_columns)
        then insert (s.rows (key texts)) texts s
        else (ret (unexpected failure), s))

abbrev stored_dao : DaoLib Store
stored_dao = record {
  Result = Option Row;
  exec = exec;
  ntuples = count;
  get_value = λ res row col. value_or (cell res (get_elem? selected_columns col)) "";
  get_is_null = λ res row col. is_null (cell res (get_elem? selected_columns col));
  stoi = λ t. if str_eq t "0" then ret (pos 0) else thrown (std_exception "stoi");
  strptime = λ t. some (pos 1735689600);
}

has_cell :
    (row : Row) (i : ℕ) (o : Option String)
    → cell (some row) (get_elem? selected_columns i) ≡ o
    → HasCell stored_dao (some row) i o
has_cell row i none e = (rw e refl, rw e refl)
has_cell row i (some t) e = (rw e refl, rw e refl)

pub has_row : (o : Option Row) → Selected stored_dao o selected_columns o
has_row none = refl
has_row (some row) = (
  refl,
  (
    has_cell row 0 (row "id") refl,
    (
      has_cell row 1 (row "phone_number") refl,
      (
        has_cell row 2 (row "username") refl,
        (
          has_cell row 3 (row "email") refl,
          (
            has_cell row 4 (row "password_hash") refl,
            (
              has_cell row 5 (row "salt") refl,
              (
                has_cell row 6 (row "avatar_url") refl,
                (has_cell row 7 (row "status") refl, (has_cell row 8 (row "created_at") refl, tt)),
              ),
            ),
          ),
        ),
      ),
    ),
  ),
)

pub valid-number :
    (o : Option Row) (row : Row)
    → valid? o ≡ some row
    → (n : ℤ) × IsInt16 n × (stored_dao.stoi (text_of row "status") ≡ ret n)
valid-number none row e = cc
valid-number (some r) row e =
    (pos 0, omega arith, ap (λ x. stored_dao.stoi (text_of x "status")) (sym (some_inj e)))

true-and : (a b : Bool) → (a && b) ≡ true → a ≡ true
true-and true b e = refl
true-and false b e = cc

and-true : (a b : Bool) → (a && b) ≡ true → b ≡ true
and-true true b e = e
and-true false b e = cc

abbrev keeps : List String → Bool
keeps texts = is_id (key texts) && str_eq (text_of (row_of inserted_columns texts) "status") "0"

pub select-state : (good : Bool) (o : Option Row) (s : Store) → (select good o s).1 ≡ s
select-state true o s = refl
select-state false o s = refl

abbrev stored_table : UserTable stored_dao
stored_table = record {
  IsUp = λ s. Unit;
  rows = λ s id. valid? (s.rows id);
  is_id = is_id;
  same_id = str_eq;
  is_kept = keeps;
  same_id-rows = λ s a b same. ap (λ id. valid? (s.rows id)) ((eq_iff a b).0 same);
  status-rows = λ s id row held. valid-number (s.rows id) row held;
  select-rows = λ s id up good. (valid? (s.rows id), rw good refl, has_row (valid? (s.rows id)));
  select-malformed = λ s id up bad. (failure, rw bad refl);
  select-IsUp = λ s id up. tt;
  rows-select = λ s id j. ap (λ t. valid? (t.rows j)) (select-state (is_id id) (s.rows id) s);
  insert-IsUp = λ s texts up. tt;
}

-- A kept text is in its column: the status is 0 already.
valid-row_of :
    (texts : List String) (c text : String)
    → keeps texts ≡ true
    → row_of inserted_columns texts c ≡ some text
    → valid (row_of inserted_columns texts) c ≡ some text
valid-row_of texts c text kept e = elim (Bool-cases (str_eq "status" c)) [
  | inr other ↦ rw other e
  | inl same ↦
      let here : "status" ≡ c = (eq_iff "status" c).0 same in
      let zeroes =
        (eq_iff (text_of (row_of inserted_columns texts) "status") "0").0
          (and-true (is_id (key texts)) _ kept) in
      let there : text_of (row_of inserted_columns texts) c ≡ text = ap (λ o. value_or o "") e in
      let is_zero = sym (ap (λ x. text_of (row_of inserted_columns texts) x) here) ∙ zeroes in
      rw same (ap some (sym is_zero ∙ there))
]

insert-HasInserted :
    (s : Store) (texts : List String)
    → s.rows (key texts) ≡ none
    → HasInserted stored_dao stored_table s texts (insert none texts s).1
insert-HasInserted s texts e = record {
  absent = ap valid? e;
  row = valid (row_of inserted_columns texts);
  present = rw (eq_refl (key texts)) refl;
  cells = λ kept c text held. valid-row_of texts c text kept held;
  others = λ id other. rw other refl;
}

insert-rows :
    (o : Option Row) (s : Store) (texts : List String)
    → s.rows (key texts) ≡ o
    → HasInserted stored_dao stored_table s texts (insert o texts s).1
      ⊎ ((id : String) → valid? ((insert o texts s).1.rows id) ≡ valid? (s.rows id))
insert-rows none s texts e = inl (insert-HasInserted s texts e)
insert-rows (some row) s texts e = inr (λ id. refl)

insert-done :
    (o : Option Row) (s : Store) (texts : List String) (res : Option Row)
    → s.rows (key texts) ≡ o
    → (insert o texts s).0 ≡ ret (value res)
    → HasInserted stored_dao stored_table s texts (insert o texts s).1
insert-done none s texts res e done = insert-HasInserted s texts e
insert-done (some row) s texts res e done = absurd (refused res done)
  where
    refused :
        (res : Option Row) → ◌≢◌ {A = Outcome Answer} (ret (unexpected failure)) (ret (value res))
    refused res e = cc

is_id-keeps : (texts : List String) → keeps texts ≡ true → is_id (key texts) ≡ true
is_id-keeps texts kept = true-and (is_id (key texts)) _ kept

stored_keyed : IsKeyed stored_dao stored_table
unfolding to_string
stored_keyed = record {
  insert-rows = λ s texts. insert-rows (s.rows (key texts)) s texts refl;
  insert-done = λ s texts res up done. insert-done (s.rows (key texts)) s texts res refl done;
  is_id-kept = is_id-keeps;
}

abbrev empty : Store
empty = record { entries = λ k. none; rows = λ id. none }

alice_created : (create_user stored_dao alice empty).0 ≡ ret (value tt)
unfolding create_user insert_params to_string
alice_created = refl

status_read : stored_dao.stoi (to_string alice.status.underlying) ≡ ret alice.status.underlying
unfolding to_string
status_read = refl

alice_kept : keeps (insert_params alice) ≡ true
unfolding insert_params to_string
alice_kept = refl

get_user_by_id-create_user_example :
    (created : TimePoint) × ((get_user_by_id stored_dao "a"
        (create_user stored_dao alice empty).1).0
      ≡ ret (value (some (read_back stored_dao stored_table stored_keyed alice created))))
get_user_by_id-create_user_example =
    get_user_by_id-create_user stored_dao stored_table stored_keyed empty alice tt status_read
      alice_kept alice_created

exec-entries :
    (s : Store) (sql k : String) (texts : List String)
    → (exec sql texts s).1.entries k ≡ s.entries k
exec-entries s sql k texts = elim (Bool-cases (str_eq sql (select_text selected_columns "id"))) [
  | inl is_select ↦
      rw is_select
        (ap (λ t. t.entries k) (select-state (is_id (first texts)) (s.rows (first texts)) s))
  | inr other ↦ elim (Bool-cases (str_eq sql (insert_text inserted_columns))) [
    | inl is_insert ↦ rw (other, is_insert) (kept (s.rows (key texts)))
    | inr neither ↦ rw (other, neither) refl
  ]
]
  where
    kept : (o : Option Row) → (insert o texts s).1.entries k ≡ s.entries k
    kept none = refl
    kept (some row) = refl

stored-Apart : Apart stored_cache_works stored_dao stored_table
stored-Apart = record {
  both_up = λ s up. tt;
  exec-IsUp = λ s sql params up. tt;
  exec-entries = λ s sql k params. exec-entries s sql k params;
  get-rows = λ s k id. refl;
  set-rows = λ s k v id expiry. refl;
}

-- The repository over UserDao over the table.
abbrev stored_database : Database stored_cache_works (user_dao stored_dao)
stored_database =
    user_dao-Database stored_cache_works stored_dao stored_table stored_keyed stored-Apart

abbrev Coherent : Store → Type 0
Coherent =
    IsCoherent toy_json toy_json-laws stored_cache stored_cache_works (user_dao stored_dao)
      stored_database

empty-IsCoherent : Coherent empty
empty-IsCoherent id text u held read = cc

create_user-get_user_by_id_example :
    let after = (create_user stored_dao alice empty).1 in
    Unit {0}
    × Coherent after
    × ((v : User) × ((Users.get_user_by_id toy_json stored_cache (user_dao stored_dao) "a" after).0
          ≡ ret (value (some v)))
        × SameIdentity alice v)
create_user-get_user_by_id_example =
    create_user-get_user_by_id toy_json toy_json-laws stored_cache stored_cache_works
      (user_dao stored_dao) stored_database
      (user_dao-HasPrimaryKey stored_cache_works stored_dao stored_table stored_keyed stored-Apart)
      empty alice tt empty-IsCoherent alice_kept alice_created

get_user_by_id-IsCoherent_example :
    (r : Expected (Option User) DbError) × ((Users.get_user_by_id toy_json stored_cache
        (user_dao stored_dao)
        ""
        empty).0
      ≡ ret r)
    × IsReply toy_json toy_json-laws stored_cache stored_cache_works
        (user_dao stored_dao)
        stored_database
        empty
        ""
        r
    × Unit {0}
    × Coherent (Users.get_user_by_id toy_json stored_cache (user_dao stored_dao) "" empty).1
get_user_by_id-IsCoherent_example =
    get_user_by_id-IsCoherent toy_json toy_json-laws stored_cache stored_cache_works
      (user_dao stored_dao) stored_database empty "" tt empty-IsCoherent
